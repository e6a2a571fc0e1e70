-- ===== src/Prelude/Permutation.antt =====
-- What a reordering of a list does not change.
use mathlib.Core.List.{List, [], ◌∷◌, ◌++◌, append_assoc, Perm, Permᴰ, Perm-prop, perm_append_comm}
use mathlib.Core.List.Perm
use mathlib.Core.Logic.{∥∥₁_elim}
use mathlib.Core.Bool.{Bool, Bool-set}
use mathlib.Core.Path.{◌≡◌, refl, sym, ◌∙◌}
use native.Mathlib.Omega.{arith}
use decision_ledger.Prelude.Lists.{any, all}

module _ {ℓ} {A : Type ℓ} (p : A → Bool) where
  any-permᴰ : {xs ys : List A} → Permᴰ xs ys → any p xs ≡ any p ys
  any-permᴰ Permᴰ.nil = refl
  any-permᴰ (Permᴰ.cons e q) = rw e (rw (any-permᴰ q))
  any-permᴰ (Permᴰ.swap e f) = rw (e, f) (ground arith)
  any-permᴰ (Permᴰ.trans q r) = any-permᴰ q ∙ any-permᴰ r

  pub any-perm : {xs ys : List A} → Perm xs ys → any p xs ≡ any p ys
  any-perm q = ∥∥₁_elim q (Bool-set _ _) any-permᴰ

  all-permᴰ : {xs ys : List A} → Permᴰ xs ys → all p xs ≡ all p ys
  all-permᴰ Permᴰ.nil = refl
  all-permᴰ (Permᴰ.cons e q) = rw e (rw (all-permᴰ q))
  all-permᴰ (Permᴰ.swap e f) = rw (e, f) (ground arith)
  all-permᴰ (Permᴰ.trans q r) = all-permᴰ q ∙ all-permᴰ r

  pub all-perm : {xs ys : List A} → Perm xs ys → all p xs ≡ all p ys
  all-perm q = ∥∥₁_elim q (Bool-set _ _) all-permᴰ

-- A function that turns each element into a list of its own, and joins these, keeps reorderings.
module _ {ℓ κ} {A : Type ℓ} {B : Type κ} (f : A → List B) where
  abbrev pub spread : List A → List B
  spread [] = []
  spread (x ∷ xs) = f x ++ spread xs

  spread-permᴰ : {xs ys : List A} → Permᴰ xs ys → Perm (spread xs) (spread ys)
  spread-permᴰ Permᴰ.nil = Perm.refl []
  spread-permᴰ (Permᴰ.cons e q) = rw e (Perm.append_left _ (spread-permᴰ q))
  spread-permᴰ (Permᴰ.swap {a = a} {b = b} {l = l} e g) =
      rw
        (
          ← e,
          ← g,
          sym (append_assoc (f a) (f b) (spread l)),
          sym (append_assoc (f b) (f a) (spread l)),
        )
        (Perm.append_right (spread l) (perm_append_comm (f a) (f b)))
  spread-permᴰ (Permᴰ.trans q r) = Perm.trans (spread-permᴰ q) (spread-permᴰ r)

  pub spread-perm : {xs ys : List A} → Perm xs ys → Perm (spread xs) (spread ys)
  spread-perm q = ∥∥₁_elim q Perm-prop spread-permᴰ

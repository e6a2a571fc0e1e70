-- ===== src/Prelude/Maximum.antt =====
-- What `max(key=)` returns: an element of the list, with the largest key.
use Prim.Native.Nat.{ℕ, ◌≤◌, max}
use mathlib.Core.Path.{◌≡◌, refl, ◌∙◌}
use mathlib.Core.List.{
  List, [], ◌∷◌, ◌++◌, Mem, Mem-prop, not-mem-nil, mem-cons, mem-cons_self, mem-cons_of_mem, Perm,
  Permᴰ,
}
use mathlib.Core.Logic.{∥∥₁_elim}
use mathlib.Core.Logic.Or
use mathlib.Core.Bool.{Bool, true, false}
use native.Mathlib.Omega.{arith}
use native.Mathlib.Nat.{ℕ_set}
use native.Mathlib.Bridge.{le_prop}
use decision_ledger.Prelude.Tests.{ltb, if◌then◌else◌}
use decision_ledger.Prelude.Lists.{max_by}

module _ {ℓ} {A : Type ℓ} (key : A → ℕ) where
  -- The largest key of a list, 0 of none.
  abbrev pub peak : List A → ℕ
  peak [] = 0
  peak (x ∷ xs) = max (key x) (peak xs)

  pub key-max_by : (best : A) (xs : List A) → key (max_by key best xs) ≡ max (key best) (peak xs)
  key-max_by best [] = omega arith
  key-max_by best (x ∷ xs) =
      ground (arith, key-max_by (if ltb (key best) (key x) then x else best) xs)

  pub mem-max_by : (best : A) (xs : List A) → Mem (max_by key best xs) (best ∷ xs)
  mem-max_by best [] = mem-cons_self
  mem-max_by best (x ∷ xs) = go (ltb (key best) (key x)) (mem-max_by best xs) (mem-max_by x xs)
    where
      go :
          (b : Bool)
          → Mem (max_by key best xs) (best ∷ xs)
          → Mem (max_by key x xs) (x ∷ xs)
          → Mem (max_by key (if b then x else best) xs) (best ∷ x ∷ xs)
      go true _ m = mem-cons.1 (Or.inr m)
      go false m _ =
          Or.elim Mem-prop (mem-cons.0 m) (λ e. mem-cons.1 (Or.inl e))
            (λ r. mem-cons_of_mem best (mem-cons_of_mem x r))

  pub peak-append : (xs ys : List A) → peak (xs ++ ys) ≡ max (peak xs) (peak ys)
  peak-append [] ys = omega arith
  peak-append (x ∷ xs) ys = omega (arith, peak-append xs ys)

  peak-permᴰ : {xs ys : List A} → Permᴰ xs ys → peak xs ≡ peak ys
  peak-permᴰ Permᴰ.nil = refl
  peak-permᴰ (Permᴰ.cons e p) = rw e (rw (peak-permᴰ p))
  peak-permᴰ (Permᴰ.swap e f) = rw (e, f) (omega arith)
  peak-permᴰ (Permᴰ.trans p q) = peak-permᴰ p ∙ peak-permᴰ q

  pub peak-perm : {xs ys : List A} → Perm xs ys → peak xs ≡ peak ys
  peak-perm p = ∥∥₁_elim p (ℕ_set _ _) peak-permᴰ

  pub key-le-peak : {x : A} (xs : List A) → Mem x xs → key x ≤ peak xs
  key-le-peak [] m = absurd (not-mem-nil m)
  key-le-peak (x ∷ xs) m =
      Or.elim le_prop (mem-cons.0 m) (λ e. rw e (omega arith))
        (λ r. omega (arith, key-le-peak xs r))

  pub peak-le : (xs : List A) {n : ℕ} → ((x : A) → Mem x xs → key x ≤ n) → peak xs ≤ n
  peak-le [] h = omega arith
  peak-le (x ∷ xs) h =
      omega (arith, h x mem-cons_self, peak-le xs (λ y m. h y (mem-cons_of_mem x m)))

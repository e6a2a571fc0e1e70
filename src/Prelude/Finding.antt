-- ===== src/Prelude/Finding.antt =====
-- `next((x for x in xs if p(x)), None)` over a list that grows at its end.
use mathlib.Core.Path.{◌≡◌, refl}
use mathlib.Core.Bool.{Bool, true}
use mathlib.Core.Option.{none, some}
use mathlib.Core.List.{List, [], ◌∷◌, ◌++◌}
use native.Mathlib.Omega.{arith}
use decision_ledger.Prelude.Tests.{if◌then◌else◌}
use decision_ledger.Prelude.Lists.{first, all}

module _ {ℓ} {A : Type ℓ} (p : A → Bool) where
  pub first-append :
      (xs : List A) (y : A)
      → first p (xs ++ y ∷ [])
        ≡ elim (first p xs) [ some found ↦ some found | none ↦ if p y then some y else none ]
  first-append [] y = refl
  first-append (x ∷ xs) y = ground (arith, first-append xs y)

  -- What is found passes the test, and every test that the whole list passes.
  pub first-passes : (xs : List A) (x : A) → first p xs ≡ some x → p x ≡ true
  first-passes [] x h = cc
  first-passes (y ∷ xs) x h = ground (arith, first-passes xs x)

  pub all-first :
      (q : A → Bool) (xs : List A) (x : A) → all q xs ≡ true → first p xs ≡ some x → q x ≡ true
  all-first q [] x h e = cc
  all-first q (y ∷ xs) x h e = ground (arith, all-first q xs x)

  pub all-append :
      (xs : List A) (y : A) → all p xs ≡ true → p y ≡ true → all p (xs ++ y ∷ []) ≡ true
  all-append [] y h e = rw e refl
  all-append (x ∷ xs) y h e = ground (arith, all-append xs y)

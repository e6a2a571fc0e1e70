-- ===== src/Prelude/Sets.antt =====
-- Lists of names as sets: `contains` and the list operations.
use mathlib.Core.Path.{◌≡◌, refl}
use mathlib.Core.Bool.{Bool, true, ◌||◌}
use mathlib.Core.List.{List, [], ◌∷◌, ◌++◌}
use Prim.Native.String.{String}
use native.Mathlib.Omega.{arith}
use decision_ledger.Prelude.Lists.{any, contains}

pub any-append {ℓ} :
    {A : Type ℓ} (p : A → Bool) (xs ys : List A) → any p (xs ++ ys) ≡ (any p xs || any p ys)
any-append p [] ys = refl
any-append p (x ∷ xs) ys = ground (arith, any-append p xs ys)

pub contains-append_left :
    (xs ys : List String) (n : String) → contains xs n ≡ true → contains (xs ++ ys) n ≡ true
contains-append_left xs ys n h = rw any-append (ground arith)

pub contains-append_right :
    (xs ys : List String) (n : String) → contains ys n ≡ true → contains (xs ++ ys) n ≡ true
contains-append_right xs ys n h = rw any-append (ground arith)

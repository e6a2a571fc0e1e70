-- ===== src/Prelude/Lists.antt =====
-- Python's list idioms: `any`, `all`, `next(... if ...)`, comprehensions with `if`, and `max(key=)`.
use Prim.Native.Nat.{ℕ, suc}
use Prim.Native.String.{String}
use mathlib.Core.Bool.{Bool, true, false, ◌&&◌, ◌||◌}
use mathlib.Core.Option.{Option, none, some}
use mathlib.Core.List.{List, [], ◌∷◌}
use text.Mathlib.Text.{◌==◌}
use decision_ledger.Prelude.Tests.{ltb, if◌then◌else◌}

module _ {ℓ} {A : Type ℓ} where
  abbrev pub length : List A → ℕ
  length [] = 0
  length (x ∷ xs) = suc (length xs)

  abbrev pub any : (A → Bool) → List A → Bool
  any p [] = false
  any p (x ∷ xs) = p x || any p xs

  abbrev pub all : (A → Bool) → List A → Bool
  all p [] = true
  all p (x ∷ xs) = p x && all p xs

  -- `[x for x in xs if p(x)]`
  abbrev pub select : (A → Bool) → List A → List A
  select p [] = []
  select p (x ∷ xs) = let rest = select p xs in if p x then x ∷ rest else rest

  -- `next((x for x in xs if p(x)), None)`
  abbrev pub first : (A → Bool) → List A → Option A
  first p [] = none
  first p (x ∷ xs) = if p x then some x else first p xs

  -- `max([best, *xs], key=key)` keeps the first maximal element.
  abbrev pub max_by : (A → ℕ) → A → List A → A
  max_by key best [] = best
  max_by key best (x ∷ xs) = max_by key (if ltb (key best) (key x) then x else best) xs

-- `name in names`
abbrev pub contains : List String → String → Bool
contains names name = any (λ n. n == name) names

-- No name is listed twice.
abbrev pub distinct : List String → Bool
distinct [] = true
distinct (n ∷ ns) = (if contains ns n then false else true) && distinct ns

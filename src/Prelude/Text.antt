-- ===== src/Prelude/Text.antt =====
-- The string operations that the ledger uses on unknown text.
use Prim.Native.Nat.{ℕ, ◌+◌}
use Prim.Native.Char.{code}
use Prim.Native.String.{String}
use mathlib.Core.Bool.{Bool, true, false, ◌&&◌, ◌||◌}
use mathlib.Core.Option.{Option, none, some}
use mathlib.Core.List.{List, [], ◌∷◌, map}
use decision_ledger.Prelude.Tests.{leb, eqb, if◌then◌else◌}

abbrev pub codes : String → List ℕ
codes String.[] = []
codes (String.◌∷◌ c s) = code c ∷ codes s

-- What follows `prefix` in `s`, if `s` starts with it.
unfoldable pub after_prefix : String → String → Option String
after_prefix String.[] s = some s
after_prefix (String.◌∷◌ c p) String.[] = none
after_prefix (String.◌∷◌ c p) (String.◌∷◌ d s) =
    if eqb (code c) (code d) then after_prefix p s else none

-- `s.removeprefix(prefix)`
unfoldable pub remove_prefix : String → String → String
unfolding after_prefix
remove_prefix prefix s = elim (after_prefix prefix s) [ none ↦ s | some rest ↦ rest ]

-- The ASCII part of `str.lower`.
lower_code : ℕ → ℕ
lower_code c = if leb b'A' c && leb c b'Z' then c + 32 else c

starts : List ℕ → List ℕ → Bool
starts [] s = true
starts (c ∷ p) [] = false
starts (c ∷ p) (d ∷ s) = eqb c d && starts p s

occurs : List ℕ → List ℕ → Bool
occurs p [] = starts p []
occurs p (c ∷ s) = starts p (c ∷ s) || occurs p s

-- `word in text.lower()`, for a word of ASCII letters that does not end in "i": no other character
-- lowers to one of its letters without a combining mark behind it.
unfoldable pub mentions : String → String → Bool
unfolding lower_code starts occurs
mentions word text = occurs (codes word) (map lower_code (codes text))

-- ===== src/Prelude/Number.antt =====
-- Python's finite numbers as exact fractions: every `int` and every finite `float` is one
-- (`as_integer_ratio`), and Python compares an `int` with a `float` exactly.
use Prim.Native.Nat.{ℕ, suc, ◌+◌, ◌*◌}
use mathlib.Core.Bool.{Bool}
use decision_ledger.Prelude.Tests.{ltb, leb, eqb}

-- `negsuc n` is -(n + 1).
pub data ℤ : Type 0 where
  pos : ℕ → ℤ
  negsuc : ℕ → ℤ

abbrev pub pos_part : ℤ → ℕ
pos_part (pos n) = n
pos_part (negsuc n) = 0

abbrev pub neg_part : ℤ → ℕ
neg_part (pos n) = 0
neg_part (negsuc n) = suc n

-- The denominator is `below + 1`.
pub record Ratio : Type 0 where
  pub numerator : ℤ
  pub below : ℕ

-- The two products that decide the order of `a` and `b`.
abbrev pub left_product : Ratio → Ratio → ℕ
left_product a b = pos_part a.numerator * suc b.below + neg_part b.numerator * suc a.below

abbrev pub ratio_ltb : Ratio → Ratio → Bool
ratio_ltb a b = ltb (left_product a b) (left_product b a)

abbrev pub ratio_leb : Ratio → Ratio → Bool
ratio_leb a b = leb (left_product a b) (left_product b a)

abbrev pub ratio_eqb : Ratio → Ratio → Bool
ratio_eqb a b = eqb (left_product a b) (left_product b a)

abbrev pub of_int : ℤ → Ratio
of_int z = record { numerator = z; below = 0 }

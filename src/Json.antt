-- ===== src/Json.antt =====
-- JSON-shaped Python values, as `storage_problem` (core/submission.py) walks them. A Python string
-- is its list of code points, since it may hold a NUL or a lone surrogate. A float is the exact
-- fraction that it stands for, or not finite.
use decision_ledger.Prelude.{ℕ, Bool, List}
use decision_ledger.Prelude.Number.{ℤ, Ratio}

mutual
  pub data Json : Type 0 where
    null : Json
    boolean : Bool → Json
    integer : ℤ → Json
    float : Ratio → Json
    non_finite : Json
    text : List ℕ → Json
    array : Items → Json
    object : Fields → Json

  pub data Items : Type 0 where
    nil : Items
    cons : Json → Items → Items

  pub data Fields : Type 0 where
    end : Fields
    field : List ℕ → Json → Fields → Fields

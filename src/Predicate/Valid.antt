-- ===== src/Predicate/Valid.antt =====
-- core/gate/predicate.py: the model validators of a predicate, and what they guarantee of its
-- evaluation.
use decision_ledger.Prelude.{
  String, Bool, true, false, ◌&&◌, ◌||◌, Option, none, some, ◌∷◌, ◌==◌, if◌then◌else◌,
}
use decision_ledger.Prelude.Text.{after_prefix}
use decision_ledger.Predicate.{
  CompareOp, lt, le, gt, ge, is_in, not_in, Operand, scalar, items, Compare, Predicate, compare,
  all_of, any_of, negation, Predicates, nil, cons, label_field, feature_prefix, is_number,
}

is_filled : Option String → Bool
is_filled none = false
is_filled (some rest) = if rest == "" then false else true

-- `_field_is_addressable`
unfoldable pub is_addressable : String → Bool
unfolding is_filled
is_addressable field = field == label_field || is_filled (after_prefix feature_prefix field)

-- `_ORDERING_OPS`
abbrev pub is_ordering : CompareOp → Bool
is_ordering lt = true
is_ordering le = true
is_ordering gt = true
is_ordering ge = true
is_ordering _ = false

fits : CompareOp → Operand → Bool
fits is_in (items (v ∷ vs)) = true
fits is_in _ = false
fits not_in (items (v ∷ vs)) = true
fits not_in _ = false
fits op (items vs) = false
fits op (scalar v) = if is_ordering op then is_number v else true

-- `_value_fits_op`
unfoldable pub value_fits_op : Compare → Bool
unfolding fits
value_fits_op node = fits node.op node.value

-- What `parse_predicate` accepts; a conjunction and a disjunction have a child.
unfoldable mutual
  pub is_valid : Predicate → Bool
  is_valid (compare node) = is_addressable node.field && value_fits_op node
  is_valid (all_of nil) = false
  is_valid (all_of (cons p ps)) = is_valid p && are_valid ps
  is_valid (any_of nil) = false
  is_valid (any_of (cons p ps)) = is_valid p && are_valid ps
  is_valid (negation p) = is_valid p

  pub are_valid : Predicates → Bool
  are_valid nil = true
  are_valid (cons p ps) = is_valid p && are_valid ps

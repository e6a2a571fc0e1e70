-- ===== src/Bundle/Laws.antt =====
-- core/bundle.py: what the validators of a bundle let through.
use decision_ledger.Prelude.{◌≡◌, refl, Bool, true, false, ok, require, ◌>>◌}
use decision_ledger.Bundle.{
  DecisionBundle, BundleViolation, record_fields_mismatch, record_layer_mismatch, identity_mismatch,
  all_fit, record_layer_matches, identity_matches, check_bundle,
}

checked :
    (b b' : DecisionBundle) (x y z : Bool) (e f g : BundleViolation)
    → (require x e >> (require y f >> (require z g >> ok b))) ≡ ok b'
    → b ≡ b'
checked b b' true true true e f g h = cc
checked b b' false y z e f g h = cc
checked b b' true false z e f g h = cc
checked b b' true true false e f g h = cc

-- The validators return the bundle that they were given.
pub check_bundle-ok : (b b' : DecisionBundle) → check_bundle b ≡ ok b' → b ≡ b'
unfolding check_bundle
check_bundle-ok b b' h =
    checked b b' (all_fit b.gates) (record_layer_matches b) (identity_matches b)
      record_fields_mismatch record_layer_mismatch identity_mismatch h

-- A bundle with three true tests passes.
pub check_bundle-accepts :
    (b : DecisionBundle)
    → all_fit b.gates ≡ true
    → record_layer_matches b ≡ true
    → identity_matches b ≡ true
    → check_bundle b ≡ ok b
unfolding check_bundle
check_bundle-accepts b fit layer identity = rw (fit, layer, identity) refl

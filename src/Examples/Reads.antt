-- ===== src/Examples/Reads.antt =====
-- Runs of the predicate evaluator.
use decision_ledger.Prelude.{
  ◌≡◌, refl, ◌↔◌, Bool, true, false, [], ◌∷◌, ok, raised, ◌||◌, eq_iff, arith,
}
use mathlib.Core.Path.{subst}
use decision_ledger.Prelude.Text.{remove_prefix, after_prefix}
use decision_ledger.Prelude.Number.{pos}
use decision_ledger.Predicate.{
  integer, nil, cons, all_of, any_of, negation, Subject, missing_feature, lookup, resolve, evaluate,
  referenced_fields,
}
use decision_ledger.Predicate.Valid.{is_valid, is_addressable, value_fits_op}
use decision_ledger.Predicate.Errors.{Blamed, evaluate-raised}
use decision_ledger.Predicate.Reads.{
  SameReads, EachHolds, SomeHolds, evaluate-SameReads, evaluate-holds_iff,
}
use decision_ledger.Examples.Data.{trusted, evidence}

abbrev unknown : Subject
unknown = record { label_value = integer (pos 1); feature_set = [] }

abbrev relabelled : Subject
relabelled = record { label_value = integer (pos 2); feature_set = ("age", integer (pos 3)) ∷ [] }

fails : evaluate trusted.predicate unknown ≡ raised (missing_feature "age")
unfolding evaluate resolve lookup remove_prefix
fails = refl

valid : is_valid trusted.predicate ≡ true
unfolding is_valid is_addressable after_prefix value_fits_op
valid = refl

evaluate-raised_example :
    Blamed (referenced_fields trusted.predicate) unknown (missing_feature "age")
evaluate-raised_example =
    evaluate-raised trusted.predicate unknown (missing_feature "age") valid fails

or-false : (b : Bool) → (b || false) ≡ true → b ≡ true
or-false b h = ground arith

same_reading : resolve "feature_set.age" evidence.subject ≡ resolve "feature_set.age" relabelled
unfolding resolve lookup remove_prefix
same_reading = refl

same_age : SameReads (referenced_fields trusted.predicate) evidence.subject relabelled
unfolding referenced_fields
same_age field listed =
    subst (λ f. resolve f evidence.subject ≡ resolve f relabelled)
      ((eq_iff "feature_set.age" field).0 (or-false _ listed)) same_reading

evaluate-SameReads_example :
    evaluate trusted.predicate evidence.subject ≡ evaluate trusted.predicate relabelled
evaluate-SameReads_example =
    evaluate-SameReads evidence.subject relabelled trusted.predicate same_age

evaluate-holds_iff_example :
    ((evaluate (all_of (cons trusted.predicate nil)) evidence.subject ≡ ok true)
      ↔ EachHolds (cons trusted.predicate nil) evidence.subject)
    × ((evaluate (any_of (cons trusted.predicate nil)) evidence.subject ≡ ok true)
        ↔ SomeHolds (cons trusted.predicate nil) evidence.subject)
    × ((evaluate (negation trusted.predicate) evidence.subject ≡ ok true)
        ↔ (evaluate trusted.predicate evidence.subject ≡ ok false))
evaluate-holds_iff_example =
    evaluate-holds_iff (cons trusted.predicate nil) trusted.predicate evidence.subject

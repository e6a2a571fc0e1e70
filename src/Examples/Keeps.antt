-- ===== src/Examples/Keeps.antt =====
-- Runs of the registry, of the store, of intake and of the identity step.
use decision_ledger.Prelude.{
  ◌≡◌, refl, String, true, ◌||◌, none, some, [], ◌∷◌, all, any, contains, ok,
}
use decision_ledger.Prelude.Names.{without}
use decision_ledger.Identity.Step.{identify}
use decision_ledger.Identity.Step.Laws.{Names, identify-Names}
use decision_ledger.Registration.{
  ids_of, gate_ids, bypass_rule, native_namespace, ReasonerRegistration,
}
use decision_ledger.Registry.{Registry}
use decision_ledger.Submission.{check_submission, check_mode, check_mode_of, check_contexts}
use decision_ledger.Intake.{
  effective_gate_set, validate_submission, validate_citation, validate_native_subject,
}
use decision_ledger.Intake.GateSet.{
  binds_mandatory, never_advisory, effective_gate_set-members, effective_gate_set-mandatory,
}
use decision_ledger.Intake.Accepts.{Cites, validate_submission-cites}
use decision_ledger.Store.{Tables, find_bundle, row_of, load, write}
use decision_ledger.Store.Laws.{write-keeps}
use decision_ledger.Examples.Data.{
  cards, payment, waved_through, trusted, entry_of, no_tables, bundle, copies,
}

abbrev loans : ReasonerRegistration
loans = record cards { reasoner_id = "loans"; reasoner_name = "Loans" }

abbrev served : Registry
served = entry_of cards "file" ∷ []

abbrev version_of : ReasonerRegistration → String
version_of registration = registration.reasoner_name

effective_gate_set-members_example :
    contains (ids_of (effective_gate_set cards ("aml" ∷ []))) "aml"
    ≡ (contains (gate_ids cards) "aml" || contains ("aml" ∷ []) "aml")
effective_gate_set-members_example = effective_gate_set-members cards ("aml" ∷ []) "aml"

-- The registration does not bind the first gate, and binds the second as advisory.
effective_gate_set-mandatory_example :
    (any (binds_mandatory "aml") (effective_gate_set cards ("aml" ∷ "velocity" ∷ [])) ≡ true)
    × (all (never_advisory "aml") (effective_gate_set cards ("aml" ∷ "velocity" ∷ [])) ≡ true)
effective_gate_set-mandatory_example =
    effective_gate_set-mandatory cards ("aml" ∷ "velocity" ∷ []) "aml" refl

waved_through-shape : check_submission waved_through ≡ ok waved_through
unfolding check_submission check_mode check_mode_of check_contexts
waved_through-shape = refl

waved_through-valid : validate_submission (λ n s. 5) waved_through cards [] ≡ ok (some trusted)
unfolding validate_submission validate_citation validate_native_subject bypass_rule native_namespace
    without effective_gate_set
waved_through-valid = refl

validate_submission-cites_example :
    (without ("velocity" ∷ []) (gate_ids cards) ≡ [])
    × (without (gate_ids cards) ("velocity" ∷ []) ≡ [])
    × Cites waved_through cards (some trusted)
validate_submission-cites_example =
    validate_submission-cites (λ n s. 5) waved_through cards [] (some trusted) waved_through-shape
      waved_through-valid

identify-Names_example :
    Names
      (λ n s. 5)
      payment.native_subject
      (identify (λ n s. 5) (λ i. true) none 100 payment cards 8)
identify-Names_example = identify-Names (λ n s. 5) (λ i. true) none 100 payment cards 8

abbrev one_bundle : Tables copies.Document
one_bundle = record no_tables {
  bundles = record { decision_id = "d1"; bundle = ("2", bundle "d1") } ∷ [];
}

rewritten :
    (t : Tables copies.Document) × (write copies
        (record (bundle "d1") { created_at = 99 })
        one_bundle
      ≡ ok t)
unfolding write row_of find_bundle
rewritten = (_, refl)

d1-loaded : load copies one_bundle "d1" ≡ ok (bundle "d1")
unfolding load find_bundle
d1-loaded = refl

write-keeps_example : load copies rewritten.0 "d1" ≡ ok (bundle "d1")
write-keeps_example =
    write-keeps copies (record (bundle "d1") { created_at = 99 }) one_bundle rewritten.0 "d1"
      (bundle "d1") rewritten.1 d1-loaded

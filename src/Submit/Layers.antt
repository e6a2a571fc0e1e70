-- ===== src/Submit/Layers.antt =====
-- app/submit.py: the records of a decision fit the record layer of its bundle.
use decision_ledger.Prelude.{
  String, ◌≡◌, refl, ap, ◌∙◌, Bool, true, false, not, List, [], ◌∷◌, ◌++◌, arith, and-right, select,
  contains, distinct, eq_iff, if◌then◌else◌,
}
use decision_ledger.Gate.{GateOutput, skipped_for_record, skipped_for_block}
use decision_ledger.Registration.{GateBinding, ReasonerRegistration, ids_of}
use decision_ledger.Submission.{SubmissionMode, record_mode, gate_mode}
use decision_ledger.Intake.GateSet.{distinct-append}
use decision_ledger.Bundle.{GateRecord, all_fit, recorded_ids}
use decision_ledger.Invocation.{GateRequest, ComposedGate}
use decision_ledger.Submit.{run_gate_set, blocked_by_mandatory_gate, advisory_records, gate_records}
use decision_ledger.Submit.Records.{
  skip_all-fits, run_gate_set-fits, all_fit-append, recorded_ids-append,
}

contains-select :
    (p : GateBinding → Bool) (bindings : List GateBinding) (k : String)
    → contains (ids_of bindings) k ≡ false
    → contains (ids_of (select p bindings)) k ≡ false
contains-select p [] k h = refl
contains-select p (b ∷ bindings) k h = ground (arith, contains-select p bindings k)

distinct-select :
    (p : GateBinding → Bool) (bindings : List GateBinding)
    → distinct (ids_of bindings) ≡ true
    → distinct (ids_of (select p bindings)) ≡ true
distinct-select p [] h = refl
distinct-select p (b ∷ bindings) h =
    ground (arith, distinct-select p bindings, contains-select p bindings b.gate_id)

apart :
    (p : GateBinding → Bool) (bindings : List GateBinding)
    → distinct (ids_of bindings) ≡ true
    → (k : String) → contains (ids_of (select p bindings)) k ≡ true
    → contains (ids_of (select (λ b. not (p b)) bindings)) k ≡ false
apart p [] d k h = cc
apart p (b ∷ bindings) d k h = ground (
  arith,
  apart p bindings
      (and-right (if contains (ids_of bindings) b.gate_id then false else true)
        (distinct (ids_of bindings)) d)
      k,
  contains-select p bindings k,
  contains-select (λ b. not (p b)) bindings k,
  contains-select (λ b. not (p b)) bindings b.gate_id,
  eq_iff b.gate_id k,
)

-- The records of the mandatory gates and those of the others list no gate twice.
distinct-partition :
    (p : GateBinding → Bool) (bindings : List GateBinding)
    → distinct (ids_of bindings) ≡ true
    → distinct (ids_of (select p bindings) ++ ids_of (select (λ b. not (p b)) bindings)) ≡ true
distinct-partition p bindings d =
    distinct-append _ _ (distinct-select p bindings d) (distinct-select (λ b. not (p b)) bindings d)
      (apart p bindings d)

module _ (storable : GateOutput → Bool) (gates : List ComposedGate) (request : String → GateRequest)
    (registration : ReasonerRegistration) where
  abbrev run : List GateBinding → List GateRecord
  run = run_gate_set storable gates request registration

  advisory_records-fits :
      (mode : SubmissionMode) (blocked : Bool) (bindings : List GateBinding)
      → (all_fit (advisory_records run mode blocked bindings) ≡ true)
        × (recorded_ids (advisory_records run mode blocked bindings) ≡ ids_of bindings)
  unfolding advisory_records
  advisory_records-fits record_mode blocked bindings = skip_all-fits skipped_for_record bindings
  advisory_records-fits gate_mode true bindings = skip_all-fits skipped_for_block bindings
  advisory_records-fits gate_mode false bindings =
      run_gate_set-fits storable gates request registration bindings

  -- Whatever the gates answer, the records of a decision fit their statuses, and they list every gate
  -- of the gate set, the mandatory ones first, none twice if the gate set lists none twice.
  pub gate_records-fit :
      (mode : SubmissionMode) (gate_set : List GateBinding)
      → distinct (ids_of gate_set) ≡ true
      → (all_fit (gate_records run mode gate_set) ≡ true)
        × (recorded_ids (gate_records run mode gate_set)
            ≡ ids_of (select (λ b. b.mandatory) gate_set)
              ++ ids_of (select (λ b. not b.mandatory) gate_set))
        × (distinct (recorded_ids (gate_records run mode gate_set)) ≡ true)
  unfolding gate_records
  gate_records-fit mode gate_set d =
      let (fit, ids) =
        run_gate_set-fits storable gates request registration
          (select (λ b. b.mandatory) gate_set) in
      let (fit', ids') =
        advisory_records-fits mode
          (blocked_by_mandatory_gate (run (select (λ b. b.mandatory) gate_set)))
          (select (λ b. not b.mandatory) gate_set) in
      let listed =
        recorded_ids-append (run (select (λ b. b.mandatory) gate_set)) _ ∙ both ids ids' in
      (
        all_fit-append _ _ fit fit',
        listed,
        ap distinct listed ∙ distinct-partition (λ b. b.mandatory) gate_set d,
      )
    where
      both : {a b c d : List String} → a ≡ b → c ≡ d → (a ++ c) ≡ (b ++ d)
      both p q = cc

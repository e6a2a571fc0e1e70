-- ===== src/Submit/Records.antt =====
-- app/submit.py: the records of a gate set.
use decision_ledger.Prelude.{
  String, ◌≡◌, refl, ap, ◌∙◌, Bool, true, false, not, inl, inr, List, [], ◌∷◌, ◌++◌, arith, select,
  eq_iff,
}
use decision_ledger.Gate.{GateOutput, Reason, skipped_for_record, skipped_for_block}
use decision_ledger.Registration.{GateBinding, ReasonerRegistration, ids_of}
use decision_ledger.Submission.{SubmissionMode, record_mode, gate_mode}
use decision_ledger.Bundle.{
  GateRecord, fields_match_status, status_fits, belongs, all_fit, recorded_ids,
}
use decision_ledger.Invocation.{GateRequest, ComposedGate, composed_gate, GateInvocation}
use decision_ledger.Invocation.Laws.{Ended, usable, closed, invoke_gate-Ended, composed_gate-id}
use decision_ledger.Replay.Laws.{AllEnforced, AllEnforced-append}
use decision_ledger.Submit.{
  record_invocation, run_gate_set, skipped_record, skip_all, advisory_records, gate_records,
}

pub skip_all-AllEnforced :
    (registration : ReasonerRegistration) (reason : Reason) (bindings : List GateBinding)
    → AllEnforced registration (skip_all reason bindings)
unfolding skip_all skipped_record
skip_all-AllEnforced registration reason [] = tt
skip_all-AllEnforced registration reason (b ∷ bindings) =
    (inl refl, skip_all-AllEnforced registration reason bindings)

module _ (storable : GateOutput → Bool) (gates : List ComposedGate) (request : String → GateRequest)
    (registration : ReasonerRegistration) where
  abbrev pub run : List GateBinding → List GateRecord
  run = run_gate_set storable gates request registration

  pub run_gate_set-AllEnforced :
      (bindings : List GateBinding) → AllEnforced registration (run bindings)
  unfolding run_gate_set record_invocation
  run_gate_set-AllEnforced [] = tt
  run_gate_set-AllEnforced (b ∷ bindings) = (inr refl, run_gate_set-AllEnforced bindings)

  advisory_records-AllEnforced :
      (mode : SubmissionMode) (blocked : Bool) (bindings : List GateBinding)
      → AllEnforced registration (advisory_records run mode blocked bindings)
  unfolding advisory_records
  advisory_records-AllEnforced record_mode blocked bindings =
      skip_all-AllEnforced registration skipped_for_record bindings
  advisory_records-AllEnforced gate_mode true bindings =
      skip_all-AllEnforced registration skipped_for_block bindings
  advisory_records-AllEnforced gate_mode false bindings = run_gate_set-AllEnforced bindings

  pub gate_records-AllEnforced :
      (mode : SubmissionMode) (gate_set : List GateBinding)
      → AllEnforced registration (gate_records run mode gate_set)
  unfolding gate_records
  gate_records-AllEnforced mode gate_set =
      AllEnforced-append registration _ _
        (run_gate_set-AllEnforced (select (λ b. b.mandatory) gate_set))
        (advisory_records-AllEnforced mode _ (select (λ b. not b.mandatory) gate_set))

pub skip_all-fits :
    (reason : Reason) (bindings : List GateBinding)
    → (all_fit (skip_all reason bindings) ≡ true)
      × (recorded_ids (skip_all reason bindings) ≡ ids_of bindings)
unfolding skip_all skipped_record fields_match_status status_fits all_fit
skip_all-fits reason [] = (refl, refl)
skip_all-fits reason (b ∷ bindings) =
    let (fit, ids) = skip_all-fits reason bindings in (fit, ap (λ r. b.gate_id ∷ r) ids)

pub all_fit-append :
    (xs ys : List GateRecord) → all_fit xs ≡ true → all_fit ys ≡ true → all_fit (xs ++ ys) ≡ true
unfolding all_fit
all_fit-append [] ys hx hy = hy
all_fit-append (x ∷ xs) ys hx hy = ground (arith, all_fit-append xs ys)

pub recorded_ids-append :
    (xs ys : List GateRecord) → recorded_ids (xs ++ ys) ≡ recorded_ids xs ++ recorded_ids ys
recorded_ids-append [] ys = refl
recorded_ids-append (x ∷ xs) ys = ap (λ r. x.gate_id ∷ r) (recorded_ids-append xs ys)

module _ (storable : GateOutput → Bool) (gates : List ComposedGate) (request : String → GateRequest)
    (registration : ReasonerRegistration) where
  record_invocation-fits :
      (b : GateBinding) (i : GateInvocation)
      → Ended storable (request b.gate_id) (composed_gate gates b.gate_id) i
      → fields_match_status (record_invocation registration b i) ≡ true
  unfolding record_invocation fields_match_status status_fits belongs
  record_invocation-fits b i (closed kind reason output failure because) =
      rw (output, failure, because) refl
  record_invocation-fits b i (usable c o found good output invoked failure because) =
      rw
        (
          output,
          invoked,
          failure,
          (eq_iff o.gate_id b.gate_id).1 (good.own ∙ composed_gate-id gates b.gate_id c found),
          (eq_iff b.gate_id b.gate_id).1 refl,
        )
        refl

  pub run_gate_set-fits :
      (bindings : List GateBinding)
      → (all_fit (run_gate_set storable gates request registration bindings) ≡ true)
        × (recorded_ids (run_gate_set storable gates request registration bindings)
            ≡ ids_of bindings)
  unfolding run_gate_set all_fit record_invocation
  run_gate_set-fits [] = (refl, refl)
  run_gate_set-fits (b ∷ bindings) =
      let (fit, ids) = run_gate_set-fits bindings in
      (
        rw
            (record_invocation-fits b _
              (invoke_gate-Ended storable (request b.gate_id) (composed_gate gates b.gate_id)))
            fit,
        ap (λ r. b.gate_id ∷ r) ids,
      )

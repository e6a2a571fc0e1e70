-- ===== src/Submit/Total.antt =====
-- app/submit.py: a submission that intake admits is decided.
use mathlib.Core.Path.{subst}
use mathlib.Core.Option.{none-ne-some}
use decision_ledger.Prelude.{
  String, ◌≡◌, refl, sym, ◌∙◌, ◌≢◌, Bool, true, not, Option, none, some, List, [], ◌∷◌, ◌++◌, arith,
  select, distinct, Outcome, ok, raised, require, >>=-eq-ok, >>=-ok, require-true,
}
use decision_ledger.Gate.{GateOutput}
use decision_ledger.Registration.{
  GateBinding, BypassRule, ReasonerRegistration, gate_ids, repeated_gates, check_registration,
}
use decision_ledger.Registry.{get}
use decision_ledger.Submission.{Submission, gate_mode, check_submission}
use decision_ledger.Intake.{validate_submission}
use decision_ledger.Intake.Accepts.{
  Cites, gates_only, records, Accepted, validate_submission-Accepted,
}
use decision_ledger.Intake.GateSet.{effective_gate_set-distinct}
use decision_ledger.Enforcement.{EnforcementDecision}
use decision_ledger.Bundle.{
  GateRecord, DecisionBundle, same_holds, no_checks, holds_of, recorded_ids, record_layer_matches,
  identity_matches, build_bundle,
}
use decision_ledger.Decision.{resolve_decision}
use decision_ledger.Decision.Reaches.{resolve_decision-gated_total, resolve_decision-recorded_total}
use decision_ledger.Invocation.{GateRequest, ComposedGate}
use decision_ledger.Bundle.Laws.{check_bundle-accepts}
use decision_ledger.Identity.Step.Laws.{identify-Names}
use decision_ledger.Submit.Layers.{gate_records-fit}
use decision_ledger.Submit.{
  lift, validate_configs, External, Deployment, Call, SubmitError, mandated_gates,
  record_invocation, run_gate_set, advisory_records, blocked_by_mandatory_gate, gate_records,
  check_of, competing_of, decide_accepted, admit, decide,
}
use decision_ledger.Submit.Decides.{about, gate_set_of, runs, records_of, bundle_of}

-- Some record comes first, and it was enforced.
pub record Headed (records : List GateRecord) : Type 0 where
  pub head : GateRecord
  pub tail : List GateRecord
  pub enforcement : EnforcementDecision
  pub listed : records ≡ head ∷ tail
  pub enforced : head.enforcement ≡ some enforcement

module _ (storable : GateOutput → Bool) (gates : List ComposedGate) (request : String → GateRequest)
    (registration : ReasonerRegistration) where
  abbrev run : List GateBinding → List GateRecord
  run = run_gate_set storable gates request registration

  run_gate_set-Headed :
      (b : GateBinding) (bindings : List GateBinding) (more : List GateRecord)
      → Headed (run (b ∷ bindings) ++ more)
  unfolding run_gate_set record_invocation
  run_gate_set-Headed b bindings more = record {
    head = _;
    tail = _;
    enforcement = _;
    listed = refl;
    enforced = refl;
  }

  unmandated :
      (gate_set : List GateBinding)
      → select (λ b. b.mandatory) gate_set ≡ []
      → select (λ b. not b.mandatory) gate_set ≡ gate_set
  unmandated [] e = refl
  unmandated (b ∷ gate_set) e = ground (arith, unmandated gate_set)

  gates_Headed :
      (gate_set mandatory advisory : List GateBinding)
      → gate_set ≢ []
      → (mandatory ≡ [] → advisory ≡ gate_set)
      → Headed (
          run mandatory
          ++ advisory_records run gate_mode (blocked_by_mandatory_gate (run mandatory)) advisory)
  unfolding run_gate_set advisory_records blocked_by_mandatory_gate record_invocation
  gates_Headed gate_set (b ∷ mandatory) advisory some_gate all_advisory =
      run_gate_set-Headed b mandatory _
  gates_Headed gate_set [] [] some_gate all_advisory = absurd (some_gate (sym (all_advisory refl)))
  gates_Headed gate_set [] (b ∷ advisory) some_gate all_advisory = record {
    head = _;
    tail = _;
    enforcement = _;
    listed = refl;
    enforced = refl;
  }

  -- A gated decision with a gate has an enforced record first.
  pub gate_records-Headed :
      (gate_set : List GateBinding) → gate_set ≢ [] → Headed (gate_records run gate_mode gate_set)
  unfolding gate_records
  gate_records-Headed gate_set some_gate =
      gates_Headed gate_set (select (λ b. b.mandatory) gate_set)
        (select (λ b. not b.mandatory) gate_set) some_gate (unmandated gate_set)

lift-ok :
    {E A : Type 0} (wrap : E → SubmitError) (m : Outcome E A) {a : A}
    → m ≡ ok a
    → lift wrap m ≡ ok a
lift-ok wrap (ok a) h = cc
lift-ok wrap (raised e) h = cc

module _ (ext : External) (deployment : Deployment) (s : Submission) (call : Call)
    (registration : ReasonerRegistration) where
  -- The rules of the record layer, for a submission that intake accepted.
  reached :
      (rule : Option BypassRule)
      → Accepted s registration (mandated_gates deployment.gates) rule
      → Cites s registration rule
      → (d : EnforcementDecision) × (resolve_decision s
            (records_of ext deployment s call registration)
            registration
            (check_of rule s.reasoner_context)
            (competing_of registration rule s.reasoner_context)
          ≡ ok d)
  unfolding check_of competing_of
  reached _ accepted (gates_only mode) =
      let headed =
        subst
          (λ m. Headed (
            gate_records (runs ext deployment s call registration) m
              (gate_set_of ext deployment s call registration)))
          (sym mode)
          (gate_records-Headed ext.storable deployment.gates _ registration
            (gate_set_of ext deployment s call registration) (accepted.some_gate mode)) in
      subst (λ rs. (d : EnforcementDecision) × (resolve_decision s rs registration none [] ≡ ok d))
        (sym headed.listed)
        (resolve_decision-gated_total s headed.head headed.tail registration headed.enforcement mode
          headed.enforced)
  reached _ accepted (records citation r mode cites found may proposed) =
      resolve_decision-recorded_total s _ registration _ _ mode
        (λ e. none-ne-some _ (sym e ∙ proposed))

  same_holds_refl : (o : Option Bool) → same_holds o o ≡ true
  unfolding same_holds
  same_holds_refl none = refl
  same_holds_refl (some h) = ground arith

  layer :
      (rule : Option BypassRule) (d : EnforcementDecision)
      → Cites s registration rule
      → distinct (recorded_ids (records_of ext deployment s call registration)) ≡ true
      → record_layer_matches (bundle_of ext deployment s call registration rule d) ≡ true
  unfolding record_layer_matches bundle_of check_of competing_of no_checks
  layer _ d (gates_only mode) once = rw once (rw mode refl)
  layer _ d (records citation r mode cites found may proposed) once = rw once (
      rw
        (same_holds_refl
          (holds_of (bundle_of ext deployment s call registration (some r) d).bypass_check))
        (rw mode (ground arith)))

  admits :
      (rule : Option BypassRule)
      → admit ext deployment s registration ≡ ok rule
      → validate_submission ext.uuid5 s registration (mandated_gates deployment.gates) ≡ ok rule
  unfolding admit
  admits rule admitted =
      let (r, accepts, h) =
        >>=-eq-ok (validate_submission ext.uuid5 s registration (mandated_gates deployment.gates)) _
          admitted in
      let (_, configured, h') =
        >>=-eq-ok
          (validate_configs deployment.gates s (gate_set_of ext deployment s call registration)) _
          h in
      accepts ∙ h'

  -- A submission that is well-shaped, whose reasoner's registration is consistent, and that intake
  -- admits, gets a decision, whatever the gates and the resolver answer: the errors of enforcement
  -- and of the bundle's validators are unreachable.
  pub decide-total :
      (rule : Option BypassRule)
      → check_submission s ≡ ok s
      → check_registration registration ≡ ok registration
      → get deployment.registry s.reasoner_id ≡ ok registration
      → admit ext deployment s registration ≡ ok rule
      → (b : DecisionBundle) × (decide ext deployment s call ≡ ok b)
  unfolding decide decide_accepted build_bundle bundle_of about admit check_registration
      identity_matches
  decide-total rule shape consistent served admitted =
      let accepted =
        validate_submission-Accepted ext.uuid5 s registration (mandated_gates deployment.gates) rule
          shape (admits rule admitted) in
      let (_, once, _) =
        >>=-eq-ok (require (distinct (gate_ids registration)) repeated_gates) _ consistent in
      let (fit, _, listed) =
        gate_records-fit ext.storable deployment.gates _ registration s.mode
          (gate_set_of ext deployment s call registration)
          (effective_gate_set-distinct registration (mandated_gates deployment.gates)
            (require-true _ _ once)) in
      let (d, resolved) = reached rule accepted accepted.cites in
      (
        bundle_of ext deployment s call registration rule d,
        >>=-ok _ _ (lift-ok _ _ served)
            ∙ >>=-ok _ _ (lift-ok _ _ admitted)
            ∙ >>=-ok _ _ (lift-ok _ _ resolved)
            ∙ lift-ok _ _ (
                check_bundle-accepts (bundle_of ext deployment s call registration rule d) fit
                  (layer rule d accepted.cites listed)
                  (identify-Names ext.uuid5 ext.survives deployment.resolver
                    deployment.identity_budget_ms s registration call.resolved_at).1),
      )

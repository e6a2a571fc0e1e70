-- ===== src/Submit/Decides.antt =====
-- app/submit.py: what a decision that was returned is made of.
use decision_ledger.Prelude.{◌≡◌, Option, some, List, Outcome, ok, raised, >>=-eq-ok}
use decision_ledger.Identity.Step.{identify}
use decision_ledger.Registration.{GateBinding, BypassRule, ReasonerRegistration}
use decision_ledger.Registry.{get}
use decision_ledger.Submission.{Submission}
use decision_ledger.Intake.{effective_gate_set}
use decision_ledger.Enforcement.{EnforcementDecision}
use decision_ledger.Bundle.{GateRecord, DecisionBundle, DecisionMeta, assembled, build_bundle}
use decision_ledger.Bundle.Laws.{check_bundle-ok}
use decision_ledger.Decision.{resolve_decision}
use decision_ledger.Submit.{
  External, Deployment, Call, SubmitError, lift, mandated_gates, request_for, run_gate_set,
  gate_records, check_of, competing_of, key_or_event, decide_accepted, admit, decide,
}

pub lift-eq-ok :
    {E A : Type 0} (wrap : E → SubmitError) (m : Outcome E A) {a : A}
    → lift wrap m ≡ ok a
    → m ≡ ok a
lift-eq-ok wrap (ok a) h = cc
lift-eq-ok wrap (raised e) h = cc

module _ (ext : External) (deployment : Deployment) (s : Submission) (call : Call) where
  abbrev pub gate_set_of : ReasonerRegistration → List GateBinding
  gate_set_of registration = effective_gate_set registration (mandated_gates deployment.gates)

  -- How a decision for the registration runs gates.
  abbrev pub runs : ReasonerRegistration → List GateBinding → List GateRecord
  runs registration =
      run_gate_set ext.storable deployment.gates
        (request_for call deployment.gate_budget_ms s (gate_set_of registration) (
          identify ext.uuid5 ext.survives deployment.resolver deployment.identity_budget_ms s
            registration call.resolved_at))
        registration

  abbrev pub records_of : ReasonerRegistration → List GateRecord
  records_of registration = gate_records (runs registration) s.mode (gate_set_of registration)

  unfoldable pub about : ReasonerRegistration → DecisionMeta
  unfolding key_or_event
  about registration = record {
    decision_id = call.decision_id;
    created_at = call.created_at;
    idempotency_key = key_or_event call.idempotency_key s.event_id;
    ingestion_timestamp = call.ingestion_timestamp;
    registration_version = some (ext.version_of registration);
  }

  unfoldable pub bundle_of :
      ReasonerRegistration → Option BypassRule → EnforcementDecision → DecisionBundle
  unfolding about check_of competing_of
  bundle_of registration rule d =
      assembled (about registration) s
        (some (
          identify ext.uuid5 ext.survives deployment.resolver deployment.identity_budget_ms s
            registration call.resolved_at))
        (records_of registration) d (check_of rule s.reasoner_context)
        (competing_of registration rule s.reasoner_context)

  pub record Decided (b : DecisionBundle) : Type 0 where
    pub registration : ReasonerRegistration
    pub rule : Option BypassRule
    pub decision : EnforcementDecision
    pub served : get deployment.registry s.reasoner_id ≡ ok registration
    pub admitted : admit ext deployment s registration ≡ ok rule
    pub resolved :
        resolve_decision s
          (records_of registration)
          registration
          (check_of rule s.reasoner_context)
          (competing_of registration rule s.reasoner_context)
        ≡ ok decision
    pub bundle : bundle_of registration rule decision ≡ b

  pub decide-Decided : (b : DecisionBundle) → decide ext deployment s call ≡ ok b → Decided b
  unfolding decide decide_accepted build_bundle bundle_of about
  decide-Decided b h =
      let (registration, served, h1) =
        >>=-eq-ok (lift _ (get deployment.registry s.reasoner_id)) _ h in
      let (rule, admitted, h2) = >>=-eq-ok (lift _ (admit ext deployment s registration)) _ h1 in
      let (decision, resolved, h3) =
        >>=-eq-ok (lift _ (resolve_decision s _ registration _ _)) _ h2 in
      record {
        registration = registration;
        rule = rule;
        decision = decision;
        served = lift-eq-ok _ _ served;
        admitted = lift-eq-ok _ _ admitted;
        resolved = lift-eq-ok _ _ resolved;
        bundle = check_bundle-ok _ b (lift-eq-ok _ _ h3);
      }

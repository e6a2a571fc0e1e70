-- ===== src/Enforcement/Bounds.antt =====
-- app/enforcement/resolver.py, gate level: what an enforced action says of the gate's output.
use decision_ledger.Prelude.{
  ◌≤◌, ◌<◌, ◌≡◌, refl, ◌⊎◌, true, false, Option, none, some, [], arith, min, contains,
}
use decision_ledger.Actions.{DecisionAction, severity}
use decision_ledger.Gate.{Reason, GateVerdict, GateOutput, evidence_jurisdictions}
use decision_ledger.Registration.{ReasonerRegistration}
use decision_ledger.Enforcement.{
  adversarial_control, most_conservative, has_jurisdiction_conflict, tier1_of, resolve_gate_output,
}

-- What a gate's output must be for its enforced action to be milder than `hold`.
pub record LetsThrough (output : GateOutput) (registration : ReasonerRegistration)
    (action : DecisionAction) (verdict : GateVerdict) : Type 0 where
  pub has_verdict : output.verdict ≡ some verdict
  pub most_severe_permitted : action ≡ most_conservative verdict.permitted_actions
  pub no_probe :
      (output.deterministic ≡ true)
      ⊎ (contains verdict.required_controls adversarial_control ≡ false)
  pub no_conflict :
      (evidence_jurisdictions output.evidence ≡ [])
      ⊎ (has_jurisdiction_conflict verdict
            (evidence_jurisdictions output.evidence)
            registration.jurisdiction_conflict_groups
          ≡ false)

lets_through :
    (output : GateOutput) (registration : ReasonerRegistration) (failure : Option Reason)
    (stored : Option GateVerdict)
    → output.verdict ≡ stored
    → severity (tier1_of registration failure output stored).decision_action < 2
    → (verdict : GateVerdict) × LetsThrough output registration
        (tier1_of registration failure output stored).decision_action
        verdict
unfolding resolve_gate_output
lets_through output registration failure none e h = absurd (omega arith)
lets_through output registration failure (some verdict) e h = (verdict, ground arith)

-- A gate's enforced action is milder than `hold` only if the gate returned an output with a verdict,
-- the action is the most conservative one that the verdict permits, a gate that is not deterministic
-- flagged no adversarial probe, and its evidence shows no jurisdiction conflict.
pub resolve_gate_output-LetsThrough :
    (output : Option GateOutput) (registration : ReasonerRegistration) (failure : Option Reason)
    → severity (resolve_gate_output output registration failure).decision_action < 2
    → (o : GateOutput) × (output ≡ some o)
      × ((v : GateVerdict) × LetsThrough o registration
            (resolve_gate_output output registration failure).decision_action
            v)
unfolding resolve_gate_output
resolve_gate_output-LetsThrough none registration failure h = absurd (omega arith)
resolve_gate_output-LetsThrough (some o) registration failure h =
    (o, refl, lets_through o registration failure o.verdict refl h)

-- Enforcement never relaxes a verdict: up to `hold` the enforced action is at least as severe as
-- the most conservative permitted one, and from `hold` on it stays at least `hold`.
pub resolve_gate_output-never_relaxes :
    (output : GateOutput) (verdict : GateVerdict) (registration : ReasonerRegistration)
    (failure : Option Reason)
    → output.verdict ≡ some verdict
    → min 2 (severity (most_conservative verdict.permitted_actions))
      ≤ severity (resolve_gate_output (some output) registration failure).decision_action
unfolding resolve_gate_output
resolve_gate_output-never_relaxes output verdict registration failure e =
    rw (e, tier1_of) (ground arith)

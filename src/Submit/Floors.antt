-- ===== src/Submit/Floors.antt =====
-- app/submit.py: the gates of a decision that fail.
use mathlib.Core.List.{Mem, mem-cons, not-mem-nil}
use native.Mathlib.Bridge.{le_prop}
use mathlib.Core.Path.{subst}
use mathlib.Core.Logic.Or
use mathlib.Core.Option.{some-injective}
use decision_ledger.Prelude.{
  ◌≡◌, sym, ap, ◌∙◌, ◌≤◌, inl, inr, true, none, some, List, [], ◌∷◌, arith, ok,
}
use decision_ledger.Actions.{severity, hold}
use decision_ledger.Registration.{ReasonerRegistration}
use decision_ledger.Submission.{Submission}
use decision_ledger.Enforcement.{EnforcementDecision, resolve_gate_output}
use decision_ledger.Bundle.{GateRecord, DecisionBundle}
use decision_ledger.Decision.Floors.{resolve_decision-floor}
use decision_ledger.Replay.Laws.{IsEnforced, AllEnforced}
use decision_ledger.Submit.{External, Deployment, Call, decide}
use decision_ledger.Submit.Records.{gate_records-AllEnforced}
use decision_ledger.Submit.Decides.{decide-Decided, bundle_of}

-- A record without an output that was enforced was enforced to `hold`.
closed_to_hold :
    (registration : ReasonerRegistration) (r : GateRecord) (e : EnforcementDecision)
    → IsEnforced registration r
    → r.enforcement ≡ some e
    → r.output ≡ none
    → severity e.decision_action ≡ 2
unfolding resolve_gate_output
closed_to_hold registration r e (inl skipped) h output = cc
closed_to_hold registration r e (inr enforced) h output =
    ap (λ (x : EnforcementDecision). severity x.decision_action)
      (some-injective _ _ (sym h ∙ enforced))
    ∙ ap (λ o. severity (resolve_gate_output o registration r.reason).decision_action) output

enforced_in :
    (registration : ReasonerRegistration) (r : GateRecord) (records : List GateRecord)
    (e : EnforcementDecision)
    → AllEnforced registration records
    → Mem r records
    → r.enforcement ≡ some e
    → r.output ≡ none
    → 2 ≤ severity e.decision_action
enforced_in registration r [] e all_are listed h output = absurd (not-mem-nil listed)
enforced_in registration r (q ∷ records) e (this, others) listed h output =
    Or.elim le_prop (mem-cons.0 listed)
      (λ is_it. omega (
        arith,
        closed_to_hold registration r e (subst (IsEnforced registration) (sym is_it) this) h output,
      ))
      (λ rest. enforced_in registration r records e others rest h output)

module _ (ext : External) (deployment : Deployment) (s : Submission) (call : Call) where
  -- The decision fails closed: if a mandatory gate was enforced without an output, because it is not
  -- composed, timed out, raised or returned what cannot be kept, the decision is at least `hold`.
  pub decide-fails_closed :
      (b : DecisionBundle) (r : GateRecord) (e : EnforcementDecision)
      → decide ext deployment s call ≡ ok b
      → Mem r b.gates
      → r.mandatory ≡ true
      → r.enforcement ≡ some e
      → r.output ≡ none
      → severity hold ≤ severity b.decision_action
  unfolding bundle_of
  decide-fails_closed b r e h listed m enforced output =
      let made = decide-Decided ext deployment s call b h in
      subst (λ (c : DecisionBundle). Mem r c.gates → severity hold ≤ severity c.decision_action)
        made.bundle
        (λ in_records. omega (
          arith,
          (resolve_decision-floor s _ made.registration _ _ made.resolved r e in_records m
              enforced).1,
          enforced_in made.registration r _ e
              (gate_records-AllEnforced ext.storable deployment.gates _ made.registration s.mode _)
              in_records enforced output,
        ))
        listed

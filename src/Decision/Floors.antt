-- ===== src/Decision/Floors.antt =====
-- app/enforcement/resolver.py, decision level: what a decision can never be milder than.
use mathlib.Core.List.{Mem, not-mem-nil, mem-cons}
use mathlib.Core.Logic.Or
use native.Mathlib.Bridge.{le_prop}
use decision_ledger.Prelude.{◌≤◌, ◌≡◌, sym, ap, ◌∙◌, true, Option, some, List, [], ◌∷◌, arith, ok}
use decision_ledger.Actions.{severity}
use decision_ledger.Registration.{ReasonerRegistration}
use decision_ledger.Submission.{Submission}
use decision_ledger.Bypass.{BypassCheck}
use decision_ledger.Enforcement.{EnforcementDecision}
use decision_ledger.Bundle.{GateRecord}
use decision_ledger.Decision.{mandatory_terms, resolve_decision}
use decision_ledger.Decision.Terms.{rank, worst_term, Made, resolve_decision-Made}

mandatory-le-worst :
    (r : GateRecord) (e : EnforcementDecision) (records : List GateRecord)
    → Mem r records
    → r.mandatory ≡ true
    → r.enforcement ≡ some e
    → severity e.decision_action ≤ worst_term (mandatory_terms records)
unfolding mandatory_terms
mandatory-le-worst r e [] listed m h = absurd (not-mem-nil listed)
mandatory-le-worst r e (q ∷ records) listed m h =
    Or.elim le_prop (mem-cons.0 listed)
      (λ same.
        here q (ap (λ (t : GateRecord). t.mandatory) (sym same) ∙ m)
          (ap (λ (t : GateRecord). t.enforcement) (sym same) ∙ h))
      (λ rest. there q (mandatory-le-worst r e records rest m h))
  where
    here :
        (q : GateRecord)
        → q.mandatory ≡ true
        → q.enforcement ≡ some e
        → severity e.decision_action ≤ worst_term (mandatory_terms (q ∷ records))
    here q m h = rw (h, m) (omega arith)

    there :
        (q : GateRecord)
        → severity e.decision_action ≤ worst_term (mandatory_terms records)
        → severity e.decision_action ≤ worst_term (mandatory_terms (q ∷ records))
    there q h = ground arith

module _ (s : Submission) (records : List GateRecord) (registration : ReasonerRegistration)
    (check : Option BypassCheck) (competing : List BypassCheck) {d : EnforcementDecision}
    (decided : resolve_decision s records registration check competing ≡ ok d) where
  abbrev parts : Made s records registration check competing d
  parts = resolve_decision-Made s records registration check competing d decided

  -- A decision is never milder than the reasoner's proposal, nor than what a mandatory gate was
  -- enforced to.
  pub resolve_decision-floor :
      (r : GateRecord) (e : EnforcementDecision)
      → Mem r records
      → r.mandatory ≡ true
      → r.enforcement ≡ some e
      → (rank s.proposed_action ≤ severity d.decision_action)
        × (severity e.decision_action ≤ severity d.decision_action)
  resolve_decision-floor r e listed m h = (
    omega (arith, parts.action),
    omega (arith, parts.action, mandatory-le-worst r e records listed m h),
  )

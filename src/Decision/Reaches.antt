-- ===== src/Decision/Reaches.antt =====
-- app/enforcement/resolver.py, decision level: when a decision is reached.
use decision_ledger.Prelude.{
  ◌≡◌, refl, ap, ◌≢◌, inl, inr, Bool, true, false, Option, none, some, List, [], ◌∷◌, ◌++◌, arith,
  ok,
}
use decision_ledger.Registration.{ReasonerRegistration}
use decision_ledger.Submission.{Submission, record_mode, gate_mode}
use decision_ledger.Bypass.{BypassCheck}
use decision_ledger.Enforcement.{EnforcementDecision}
use decision_ledger.Bundle.{GateRecord}
use decision_ledger.Decision.{
  Term, mandatory_terms, advisory_decisions, advisory_term, novel_side, plain_side, side_of,
  is_novel, advisory_side, recorded, gated, contribution, resolve_decision,
}
use decision_ledger.Decision.Terms.{resolve_decision-total}

side_of-terms :
    (novel : Option Bool) (e : EnforcementDecision) (decisions : List EnforcementDecision)
    → (side_of novel (e ∷ decisions)).terms ≢ []
unfolding side_of plain_side novel_side advisory_term
side_of-terms none e decisions h = cc
side_of-terms (some false) e decisions h = cc
side_of-terms (some true) e decisions h = ground arith

append-left : {A : Type 0} (x : A) (xs ys : List A) → (x ∷ xs) ++ ys ≢ []
append-left x xs ys h = cc

-- The terms of a gated decision whose first record was enforced.
gated-terms :
    (s : Submission) (mandatory : List Term) (e : EnforcementDecision)
    (decisions : List EnforcementDecision) (registration : ReasonerRegistration)
    → mandatory ++ (gated s mandatory (e ∷ decisions) registration).terms ≢ []
unfolding gated advisory_side
gated-terms s [] e decisions registration = side_of-terms (is_novel registration s) e decisions
gated-terms s (t ∷ mandatory) e decisions registration = append-left t mandatory _

first_enforced :
    (s : Submission) (m : Bool) (r : GateRecord) (records : List GateRecord)
    (registration : ReasonerRegistration) (e : EnforcementDecision)
    → r.enforcement ≡ some e
    → r.mandatory ≡ m
    → mandatory_terms (r ∷ records)
        ++ (gated s
            (mandatory_terms (r ∷ records))
            (advisory_decisions (r ∷ records))
            registration).terms
      ≢ []
unfolding mandatory_terms advisory_decisions
first_enforced s true r records registration e enforced m = rw (enforced, m) (λ h. cc)
first_enforced s false r records registration e enforced m =
    rw (enforced, m) (gated-terms s (mandatory_terms records) e _ registration)

-- A gated decision whose first record was enforced is reached.
pub resolve_decision-gated_total :
    (s : Submission) (r : GateRecord) (records : List GateRecord)
    (registration : ReasonerRegistration) (e : EnforcementDecision)
    → s.mode ≡ gate_mode
    → r.enforcement ≡ some e
    → (d : EnforcementDecision) × (resolve_decision s (r ∷ records) registration none [] ≡ ok d)
unfolding contribution
resolve_decision-gated_total s r records registration e mode enforced =
    resolve_decision-total s (r ∷ records) registration none [] _
      (ap
        (λ m.
          contribution m s (mandatory_terms (r ∷ records)) (advisory_decisions (r ∷ records))
            registration none [])
        mode)
      (inr (first_enforced s r.mandatory r records registration e enforced refl))

-- A recorded decision with a proposal is reached.
pub resolve_decision-recorded_total :
    (s : Submission) (records : List GateRecord) (registration : ReasonerRegistration)
    (cited : BypassCheck) (competing : List BypassCheck)
    → s.mode ≡ record_mode
    → s.proposed_action ≢ none
    → (d : EnforcementDecision) × (resolve_decision s records registration (some cited) competing
        ≡ ok d)
unfolding contribution recorded
resolve_decision-recorded_total s records registration cited competing mode proposed =
    resolve_decision-total s records registration (some cited) competing _
      (ap
        (λ m.
          contribution m s (mandatory_terms records) (advisory_decisions records) registration
            (some cited) competing)
        mode)
      (inl proposed)

-- ===== src/Decision/Gated.antt =====
-- app/enforcement/resolver.py, decision level: the final action of a gated decision.
use decision_ledger.Prelude.{
  ℕ, ◌≤◌, max, ◌≡◌, refl, sym, ap, ◌∙◌, ◌≢◌, inl, inr, true, none, some, List, [], ◌∷◌, arith, any,
  ok, ok-injective, Bool-cases, Option-cases, if◌then◌else◌,
}
use decision_ledger.Actions.{DecisionAction, block, severity, same_action, most_severe}
use decision_ledger.Actions.Order.{worst, severity-most_severe, severity-le}
use decision_ledger.Registration.{ReasonerRegistration}
use decision_ledger.Submission.{Submission, gate_mode}
use decision_ledger.Enforcement.{EnforcementDecision}
use decision_ledger.Bundle.{GateRecord}
use decision_ledger.Decision.{
  Term, action_of, mandatory_terms, advisory_decisions, actions_of, Contribution, contribution,
  gated, is_novel, resolve_decision, credits_probe, side_of, novel_side, plain_terms, advisory_side,
  plain_side, advisory_term,
}
use decision_ledger.Decision.Terms.{rank, worst_term, Made, resolve_decision-Made}
use decision_ledger.Decision.Exact.{
  mandatory_worst, advisory_worst, worst-mandatory_terms, worst-advisory_decisions,
}

pub worst_term-le : (terms : List Term) → worst_term terms ≤ 3
worst_term-le [] = omega arith
worst_term-le ((l, a) ∷ terms) = omega (arith, severity-le a, worst_term-le terms)

-- A term that is `block` absorbs the rest.
pub worst_term-blocked :
    (terms : List Term)
    → any (λ t. same_action (action_of t) block) terms ≡ true
    → worst_term terms ≡ 3
worst_term-blocked [] h = cc
worst_term-blocked ((l, a) ∷ terms) h =
    ground (arith, severity-le a, worst_term-le terms, worst_term-blocked terms)

worst-plain_terms :
    (actions : List DecisionAction) → worst_term (plain_terms actions) ≡ worst actions
unfolding plain_terms
worst-plain_terms [] = refl
worst-plain_terms (a ∷ actions) = ap (max (severity a)) (worst-plain_terms actions)

advisory_term-worst :
    (actions : List DecisionAction)
    → worst_term (advisory_term (most_severe actions)) ≡ worst actions
unfolding advisory_term
advisory_term-worst actions = elim (Option-cases (most_severe actions)) [
  | inl e ↦ rw e (sym (none-worst actions e))
  | inr (a, e) ↦ rw e (omega (arith, severity-most_severe actions e))
]
  where
    none-worst : (xs : List DecisionAction) → most_severe xs ≡ none → worst xs ≡ 0
    none-worst [] e = refl
    none-worst (x ∷ xs) e = cc

-- What the advisory gates of a decision about a novel entity weigh.
abbrev pub novel_weight : List EnforcementDecision → ℕ
novel_weight decisions = if any credits_probe decisions then 3 else 2

worst-novel_side :
    (decisions : List EnforcementDecision)
    → worst_term (novel_side decisions).terms ≡ novel_weight decisions
unfolding novel_side
worst-novel_side decisions = ground arith

module _ (s : Submission) (mandatory : List Term) (decisions : List EnforcementDecision)
    (registration : ReasonerRegistration) where
  abbrev side : Contribution
  side = gated s mandatory decisions registration

  worst-gated_known :
      is_novel registration s ≢ some true
      → max (worst_term mandatory) (worst_term side.terms)
        ≡ max (worst_term mandatory) (worst (actions_of decisions))
  unfolding gated advisory_side side_of plain_side
  worst-gated_known known =
      ground (
        arith,
        worst-plain_terms (actions_of decisions),
        advisory_term-worst (actions_of decisions),
      )

  worst-gated_novel :
      is_novel registration s ≡ some true
      → max (worst_term mandatory) (worst_term side.terms)
        ≡ max (worst_term mandatory) (novel_weight decisions)
  unfolding gated advisory_side side_of
  worst-gated_novel novel =
      elim (Bool-cases (any (λ t. same_action (action_of t) block) mandatory)) [
        | inl blocked ↦
            omega (arith, worst_term-blocked mandatory blocked, worst_term-le side.terms, weight-le)
        | inr open_ ↦
            rw (open_, novel) (ap (max (worst_term mandatory)) (worst-novel_side decisions))
      ]
    where
      weight-le : novel_weight decisions ≤ 3
      weight-le = ground arith

module _ (s : Submission) (records : List GateRecord) (registration : ReasonerRegistration)
    {d : EnforcementDecision} (gate : s.mode ≡ gate_mode)
    (decided : resolve_decision s records registration none [] ≡ ok d) where
  abbrev parts : Made s records registration none [] d
  parts = resolve_decision-Made s records registration none [] d decided

  side-gated :
      parts.side ≡ gated s (mandatory_terms records) (advisory_decisions records) registration
  unfolding contribution
  side-gated = ok-injective (
      sym parts.from
      ∙ ap
          (λ m.
            contribution m s (mandatory_terms records) (advisory_decisions records) registration
              none [])
          gate)

  -- A gated decision whose subject is not novel ends in the severest of the proposal and what the
  -- gates, mandatory and advisory, were enforced to.
  pub resolve_decision-gated :
      is_novel registration s ≢ some true
      → severity d.decision_action
        ≡ max (rank s.proposed_action) (max (mandatory_worst records) (advisory_worst records))
  resolve_decision-gated known = omega (
    arith,
    parts.action,
    ap (λ (c : Contribution). worst_term c.terms) side-gated,
    worst-gated_known s (mandatory_terms records) (advisory_decisions records) registration known,
    worst-mandatory_terms records,
    worst-advisory_decisions records,
  )

  -- A gated decision about a novel entity ends in the severest of the proposal, what the mandatory
  -- gates were enforced to, and `hold`, or `block` if an advisory gate saw an adversarial probe.
  pub resolve_decision-novel :
      is_novel registration s ≡ some true
      → severity d.decision_action
        ≡ max
            (rank s.proposed_action)
            (max (mandatory_worst records) (novel_weight (advisory_decisions records)))
  resolve_decision-novel novel = omega (
    arith,
    parts.action,
    ap (λ (c : Contribution). worst_term c.terms) side-gated,
    worst-gated_novel s (mandatory_terms records) (advisory_decisions records) registration novel,
    worst-mandatory_terms records,
  )

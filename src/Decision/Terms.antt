-- ===== src/Decision/Terms.antt =====
-- app/enforcement/resolver.py, decision level: the final action as the worst of its terms.
use mathlib.Core.List.{map-append, map-eq-nil_iff}
use decision_ledger.Prelude.{
  ℕ, max, ◌≡◌, refl, sym, ap, ◌∙◌, ◌≢◌, ◌⊎◌, inl, inr, Option, none, some, List, [], ◌∷◌, ◌++◌, map,
  arith, Outcome, ok, raised, ok-injective, Option-cases,
}
use decision_ledger.Prelude.Maximum.{peak-append}
use decision_ledger.Actions.{DecisionAction, severity, candidates, most_restrictive}
use decision_ledger.Actions.Order.{worst, severity-most_severe}
use decision_ledger.Actions.Combinator.{most_restrictive-eq-none_iff}
use decision_ledger.Registration.{ReasonerRegistration}
use decision_ledger.Submission.{Submission}
use decision_ledger.Bypass.{BypassCheck}
use decision_ledger.Enforcement.{combined, EnforcementDecision}
use decision_ledger.Bundle.{GateRecord}
use decision_ledger.Decision.{
  DecisionError, Term, action_of, mandatory_terms, advisory_decisions, Contribution, contribution,
  concluded, combine, resolve_decision,
}

-- 0 for no action.
abbrev pub rank : Option DecisionAction → ℕ
rank none = 0
rank (some a) = severity a

abbrev pub worst_term : List Term → ℕ
worst_term terms = worst (map action_of terms)

-- What a decision that did not raise is made of.
pub record Made (s : Submission) (records : List GateRecord) (registration : ReasonerRegistration)
    (check : Option BypassCheck) (competing : List BypassCheck) (d : EnforcementDecision)
    : Type 0 where
  pub side : Contribution
  pub from :
      contribution s.mode s
        (mandatory_terms records)
        (advisory_decisions records)
        registration
        check
        competing
      ≡ ok side
  pub rule : d.enforcement_rule_applied ≡ side.rule
  pub action :
      severity d.decision_action
      ≡ max
          (rank s.proposed_action)
          (max (worst_term (mandatory_terms records)) (worst_term side.terms))

worst-candidates :
    (proposed : Option DecisionAction) (enforced : List DecisionAction)
    → worst (candidates proposed enforced) ≡ max (rank proposed) (worst enforced)
worst-candidates none enforced = omega arith
worst-candidates (some a) enforced = refl

worst_term-append :
    (xs ys : List Term) → worst_term (xs ++ ys) ≡ max (worst_term xs) (worst_term ys)
worst_term-append xs ys = rw map-append (peak-append severity (map action_of xs) (map action_of ys))

final-worst :
    (proposed : Option DecisionAction) (mandatory terms : List Term) {final : DecisionAction}
    → most_restrictive proposed (map action_of (mandatory ++ terms)) ≡ some final
    → severity final ≡ max (rank proposed) (max (worst_term mandatory) (worst_term terms))
unfolding most_restrictive
final-worst proposed mandatory terms e =
    severity-most_severe (candidates proposed (map action_of (mandatory ++ terms))) e
    ∙ worst-candidates proposed (map action_of (mandatory ++ terms))
    ∙ ap (max (rank proposed)) (worst_term-append mandatory terms)

concluded-ok :
    (proposed : Option DecisionAction) (terms : List Term) (c : Contribution)
    (o : Option DecisionAction) {d : EnforcementDecision}
    → concluded proposed terms c o ≡ ok d
    → (o ≡ some d.decision_action) × (d.enforcement_rule_applied ≡ c.rule)
unfolding concluded
concluded-ok proposed terms c none h = cc
concluded-ok proposed terms c (some final) h = (
  ap (λ (e : EnforcementDecision). some e.decision_action) (ok-injective h),
  ap (λ (e : EnforcementDecision). e.enforcement_rule_applied) (sym (ok-injective h)),
)

made :
    (s : Submission) (records : List GateRecord) (registration : ReasonerRegistration)
    (check : Option BypassCheck) (competing : List BypassCheck) (d : EnforcementDecision)
    (c : Outcome DecisionError Contribution)
    → contribution s.mode s
        (mandatory_terms records)
        (advisory_decisions records)
        registration
        check
        competing
      ≡ c
    → combine s.proposed_action (mandatory_terms records) c ≡ ok d
    → Made s records registration check competing d
unfolding combine
made s records registration check competing d (raised e) from h = cc
made s records registration check competing d (ok c) from h = record {
  side = c;
  from = from;
  rule = (concluded-ok s.proposed_action _ c _ h).1;
  action =
      final-worst s.proposed_action (mandatory_terms records) c.terms
        (concluded-ok s.proposed_action _ c _ h).0;
}

-- A decision that did not raise is made of its terms.
pub resolve_decision-Made :
    (s : Submission) (records : List GateRecord) (registration : ReasonerRegistration)
    (check : Option BypassCheck) (competing : List BypassCheck) (d : EnforcementDecision)
    → resolve_decision s records registration check competing ≡ ok d
    → Made s records registration check competing d
unfolding resolve_decision
resolve_decision-Made s records registration check competing d h =
    made s records registration check competing d _ refl h

-- The other way: with one candidate at least, a contribution gives a decision.
pub resolve_decision-total :
    (s : Submission) (records : List GateRecord) (registration : ReasonerRegistration)
    (check : Option BypassCheck) (competing : List BypassCheck) (c : Contribution)
    → contribution s.mode s
        (mandatory_terms records)
        (advisory_decisions records)
        registration
        check
        competing
      ≡ ok c
    → (s.proposed_action ≢ none) ⊎ (mandatory_terms records ++ c.terms ≢ [])
    → (d : EnforcementDecision) × (resolve_decision s records registration check competing ≡ ok d)
unfolding resolve_decision concluded
resolve_decision-total s records registration check competing c from some_term =
    elim (Option-cases
      (most_restrictive s.proposed_action (map action_of (mandatory_terms records ++ c.terms)))) [
        | inl e ↦ absurd (contradicts e some_term)
        | inr (final, e) ↦ (
          record {
            decision_action = final;
            enforcement_rule_applied = c.rule;
            override_log =
                c.lines
                ++ combined s.proposed_action (mandatory_terms records ++ c.terms) final ∷ [];
          },
          ap (combine s.proposed_action (mandatory_terms records)) from
              ∙ ap (concluded s.proposed_action (mandatory_terms records ++ c.terms) c) e,
        )
      ]
  where
    contradicts :
        most_restrictive s.proposed_action (map action_of (mandatory_terms records ++ c.terms))
          ≡ none
        → (s.proposed_action ≢ none) ⊎ (mandatory_terms records ++ c.terms ≢ [])
        → ⊥
    contradicts e (inl p) = p ((most_restrictive-eq-none_iff s.proposed_action _).0 e).0
    contradicts e (inr t) =
        t ((map-eq-nil_iff action_of).0 ((most_restrictive-eq-none_iff s.proposed_action _).0 e).1)

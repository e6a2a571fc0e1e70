-- ===== src/Decision/Order.antt =====
-- app/enforcement/resolver.py, decision level: the order in which the gates are listed, and so the
-- order in which they finish, cannot change a decision.
use mathlib.Core.List.{Perm}
use mathlib.Core.List.Perm
use decision_ledger.Prelude.{
  ◌≡◌, refl, ap, Bool, true, false, Option, none, some, List, [], ◌∷◌, ◌++◌, map, arith, any,
  Outcome, ok, raised, if◌then◌else◌,
}
use decision_ledger.Prelude.Permutation.{any-perm, all-perm, spread, spread-perm}
use decision_ledger.Actions.{DecisionAction, block, same_action, most_severe, most_restrictive}
use decision_ledger.Actions.Combinator.{most_restrictive-perm}
use decision_ledger.Registration.{ReasonerRegistration}
use decision_ledger.Submission.{Submission, SubmissionMode, record_mode, gate_mode}
use decision_ledger.Bypass.{BypassCheck}
use decision_ledger.Enforcement.{novel_blocked, Rule, advisory, EnforcementDecision}
use decision_ledger.Bundle.{GateRecord}
use decision_ledger.Decision.{
  DecisionError, Term, action_of, mandatory_terms, advisory_decisions, actions_of, Contribution,
  contribution, combine, concluded, resolve_decision, credits_probe, credits_schema, not_empty,
  novel_side, plain_terms, side_of, gated, is_novel, recorded, advisory_side,
}

mandatory_terms-eq-spread :
    (records : List GateRecord)
    → mandatory_terms records ≡ spread (λ r. mandatory_terms (r ∷ [])) records
unfolding mandatory_terms
mandatory_terms-eq-spread [] = refl
mandatory_terms-eq-spread (r ∷ records) = ground (arith, mandatory_terms-eq-spread records)

advisory_decisions-eq-spread :
    (records : List GateRecord)
    → advisory_decisions records ≡ spread (λ r. advisory_decisions (r ∷ [])) records
unfolding advisory_decisions
advisory_decisions-eq-spread [] = refl
advisory_decisions-eq-spread (r ∷ records) = ground (arith, advisory_decisions-eq-spread records)

module _ {xs ys : List GateRecord} (p : Perm xs ys) where
  mandatory_terms-perm : Perm (mandatory_terms xs) (mandatory_terms ys)
  mandatory_terms-perm =
      rw (mandatory_terms-eq-spread xs, mandatory_terms-eq-spread ys) (spread-perm _ p)

  advisory_decisions-perm : Perm (advisory_decisions xs) (advisory_decisions ys)
  advisory_decisions-perm =
      rw (advisory_decisions-eq-spread xs, advisory_decisions-eq-spread ys) (spread-perm _ p)

-- What the rest of a decision reads of a contribution.
record Alike (c d : Contribution) : Type 0 where
  rule : c.rule ≡ d.rule
  terms : Perm c.terms d.terms

actions_of-eq-map :
    (decisions : List EnforcementDecision)
    → actions_of decisions ≡ map (λ e. e.decision_action) decisions
actions_of-eq-map [] = refl
actions_of-eq-map (e ∷ decisions) = ap (λ t. e.decision_action ∷ t) (actions_of-eq-map decisions)

plain_terms-eq-map :
    (actions : List DecisionAction) → plain_terms actions ≡ map (λ a. (advisory, a)) actions
unfolding plain_terms
plain_terms-eq-map [] = refl
plain_terms-eq-map (a ∷ actions) = ap (λ t. (advisory, a) ∷ t) (plain_terms-eq-map actions)

not_empty-perm : (xs ys : List EnforcementDecision) → Perm xs ys → not_empty xs ≡ not_empty ys
unfolding not_empty
not_empty-perm [] ys p = rw (← Perm.nil-eq p)
not_empty-perm (x ∷ xs) [] p = cc (Perm.eq-nil p)
not_empty-perm (x ∷ xs) (y ∷ ys) p = refl

module _ {xs ys : List EnforcementDecision} (p : Perm xs ys) where
  actions_of-perm : Perm (actions_of xs) (actions_of ys)
  actions_of-perm = rw (actions_of-eq-map xs, actions_of-eq-map ys) (Perm.map _ p)

  plain_terms-perm : Perm (plain_terms (actions_of xs)) (plain_terms (actions_of ys))
  plain_terms-perm =
      rw (plain_terms-eq-map (actions_of xs), plain_terms-eq-map (actions_of ys))
        (Perm.map _ actions_of-perm)

  most_severe-perm : most_severe (actions_of xs) ≡ most_severe (actions_of ys)
  unfolding most_restrictive
  most_severe-perm = most_restrictive-perm none actions_of-perm

  novel_side-perm : Alike (novel_side xs) (novel_side ys)
  unfolding novel_side
  novel_side-perm =
      rw (any-perm credits_probe p, all-perm credits_schema p, not_empty-perm xs ys p)
        (record { rule = refl; terms = Perm.refl _ })

  side_of-perm : (novel : Option Bool) → Alike (side_of novel xs) (side_of novel ys)
  unfolding side_of
  side_of-perm none = rw most_severe-perm (record { rule = refl; terms = Perm.refl _ })
  side_of-perm (some false) = rw most_severe-perm (record { rule = refl; terms = Perm.refl _ })
  side_of-perm (some true) = novel_side-perm

  gated-perm :
      (s : Submission) (m n : List Term) (registration : ReasonerRegistration)
      → Perm m n
      → Alike (gated s m xs registration) (gated s n ys registration)
  unfolding gated advisory_side
  gated-perm s m n registration q =
      rw (any-perm (λ t. same_action (action_of t) block) q)
        (go (any (λ t. same_action (action_of t) block) n))
    where
      go :
          (b : Bool)
          → Alike
              (if b
                then record {
                  rule = none;
                  lines = novel_blocked ∷ [];
                  terms = plain_terms (actions_of xs);
                }
                else side_of (is_novel registration s) xs)
              (if b
                then record {
                  rule = none;
                  lines = novel_blocked ∷ [];
                  terms = plain_terms (actions_of ys);
                }
                else side_of (is_novel registration s) ys)
      go true = record { rule = refl; terms = plain_terms-perm }
      go false = side_of-perm (is_novel registration s)

-- A decision without its log.
abbrev pub without_log :
    Outcome DecisionError EnforcementDecision → Outcome DecisionError (DecisionAction × Option Rule)
without_log (ok d) = ok (d.decision_action, d.enforcement_rule_applied)
without_log (raised e) = raised e

concluded-alike :
    (proposed : Option DecisionAction) (t u : List Term) (c d : Contribution)
    (o : Option DecisionAction)
    → c.rule ≡ d.rule
    → without_log (concluded proposed t c o) ≡ without_log (concluded proposed u d o)
unfolding concluded
concluded-alike proposed t u c d none e = refl
concluded-alike proposed t u c d (some final) e = rw e

combine-perm :
    (proposed : Option DecisionAction) {m n : List Term} (c d : Contribution)
    → Perm m n
    → Alike c d
    → without_log (combine proposed m (ok c)) ≡ without_log (combine proposed n (ok d))
unfolding combine
combine-perm proposed {m} {n} c d p a =
    rw (most_restrictive-perm proposed (Perm.map action_of (Perm.append p a.terms)))
      (concluded-alike proposed (m ++ c.terms) (n ++ d.terms) c d _ a.rule)

module _ (s : Submission) (registration : ReasonerRegistration) (check : Option BypassCheck)
    (competing : List BypassCheck) {xs ys : List GateRecord} (p : Perm xs ys) where
  contribution-perm :
      (mode : SubmissionMode)
      → without_log (
          combine s.proposed_action (mandatory_terms xs) (
            contribution mode s
              (mandatory_terms xs)
              (advisory_decisions xs)
              registration
              check
              competing))
        ≡ without_log (
            combine s.proposed_action (mandatory_terms ys) (
              contribution mode s
                (mandatory_terms ys)
                (advisory_decisions ys)
                registration
                check
                competing))
  unfolding contribution
  contribution-perm gate_mode =
      combine-perm s.proposed_action _ _ (mandatory_terms-perm p)
        (gated-perm (advisory_decisions-perm p) s _ _ registration (mandatory_terms-perm p))
  contribution-perm record_mode = go (recorded check competing)
    where
      go :
          (o : Outcome DecisionError Contribution)
          → without_log (combine s.proposed_action (mandatory_terms xs) o)
            ≡ without_log (combine s.proposed_action (mandatory_terms ys) o)
      go (ok c) =
          combine-perm s.proposed_action c c (mandatory_terms-perm p)
            (record { rule = refl; terms = Perm.refl _ })
      go (raised e) = unfold combine in refl

  -- Whatever the order of the gate records, the decision has the same action and credits the same
  -- rule, or raises the same error.
  pub resolve_decision-perm :
      without_log (resolve_decision s xs registration check competing)
      ≡ without_log (resolve_decision s ys registration check competing)
  unfolding resolve_decision
  resolve_decision-perm = contribution-perm s.mode

-- ===== src/Rules/Tenant.antt =====
-- gates/rules/src/rules_gate/gate.py: what the gate answers to a reasoner whose gate context selects a
-- rule set of another.
use decision_ledger.Prelude.{
  ◌≡◌, ◌⊎◌, Outcome, refl, String, false, Option, none, some, List, ◌==◌, ok, raised, inl, inr,
}
use decision_ledger.Predicate.{PredicateError}
use decision_ledger.Invocation.{GateRequest}
use decision_ledger.Artifacts.{Artifact}
use decision_ledger.Rules.{
  Rule, RuleSet, Formats, decided, RulesGate, lookup, selected, configured, evaluate_ruleset,
}

-- Two rule sets of other reasoners, under one id.
pub record BothForeign (reasoner_id : String) (o o' : Option RuleSet) : Type 0 where
  pub left : RuleSet
  pub right : RuleSet
  pub is_left : o ≡ some left
  pub is_right : o' ≡ some right
  pub left_foreign : left.reasoner_id == reasoner_id ≡ false
  pub right_foreign : right.reasoner_id == reasoner_id ≡ false
  pub same_id : left.ruleset_id ≡ right.ruleset_id

-- Two gates register the same rule sets of a reasoner, and other rule sets under the same ids.
abbrev pub SameFor : String → RulesGate → RulesGate → Type 0
SameFor reasoner_id gate gate' =
    (ruleset_id : String)
    → (lookup ruleset_id gate.rule_sets ≡ lookup ruleset_id gate'.rule_sets)
      ⊎ BothForeign reasoner_id (lookup ruleset_id gate.rule_sets)
          (lookup ruleset_id gate'.rule_sets)

module _ (formats : Formats) (gate gate' : RulesGate) (request : GateRequest)
    (artifacts : List Artifact) where
  decided-same :
      (rule_set : RuleSet) (o : Outcome PredicateError (List Rule))
      → gate.escrow ≡ gate'.escrow
      → decided formats gate request artifacts rule_set o
        ≡ decided formats gate' request artifacts rule_set o
  unfolding decided
  decided-same rule_set (raised problem) e = refl
  decided-same rule_set (ok matched) e = rw e refl

  selected-same :
      (ruleset_id : String) (o o' : Option RuleSet)
      → gate.escrow ≡ gate'.escrow
      → (o ≡ o') ⊎ BothForeign request.submission.reasoner_context.reasoner_id o o'
      → selected formats gate request artifacts ruleset_id o
        ≡ selected formats gate' request artifacts ruleset_id o'
  unfolding selected
  selected-same ruleset_id none o' e (inl same) = rw (← same) refl
  selected-same ruleset_id (some r) o' e (inl same) = rw (← same, decided-same r _ e) refl
  selected-same ruleset_id o o' e (inr foreign) =
      rw (foreign.is_left, foreign.is_right)
        (rw (foreign.left_foreign, foreign.right_foreign, foreign.same_id) refl)

  configured-same :
      (o : Option String)
      → gate.escrow ≡ gate'.escrow
      → SameFor request.submission.reasoner_context.reasoner_id gate gate'
      → configured formats gate request artifacts o ≡ configured formats gate' request artifacts o
  unfolding configured
  configured-same none e same = refl
  configured-same (some ruleset_id) e same = selected-same ruleset_id _ _ e (same ruleset_id)

  -- What a reasoner gets from the gate does not depend on the rules of other reasoners: two gates
  -- with one escrow, whose rule sets under each id are the same or are both of other reasoners, give
  -- it the same result, the stored snapshot and the errors included.
  pub evaluate_ruleset-isolated :
      gate.escrow ≡ gate'.escrow
      → SameFor request.submission.reasoner_context.reasoner_id gate gate'
      → evaluate_ruleset formats gate request artifacts
        ≡ evaluate_ruleset formats gate' request artifacts
  unfolding evaluate_ruleset
  evaluate_ruleset-isolated e same = configured-same (formats.read_config _) e same

-- ===== src/Decision.antt =====
-- app/enforcement/resolver.py, decision level: the novel-entity tier, the bypass floors and the
-- combinator.
pub mod Terms
pub mod Order
pub mod Floors
pub mod Exact
pub mod Gated
pub mod Reaches
use decision_ledger.Prelude.{
  ℕ, ◌<◌, String, Bool, true, false, ◌&&◌, ◌||◌, not, Option, none, some, List, [], ◌∷◌, ◌++◌, map,
  select, max_by, any, all, ltb, eqb, is_some, ◌==◌, if◌then◌else◌, Outcome, ok, raised,
}
use decision_ledger.Prelude.Number.{ℤ, pos, negsuc, Ratio}
use decision_ledger.Actions.{
  DecisionAction, hold, block, severity, same_action, most_severe, most_restrictive,
}
use decision_ledger.Predicate.{Scalar, boolean, integer, float, string, lookup}
use decision_ledger.Registration.{BypassRule, ReasonerRegistration}
use decision_ledger.Submission.{Submission, SubmissionMode, record_mode, gate_mode}
use decision_ledger.Bypass.{BypassCheck}
use decision_ledger.Enforcement.{
  Rule, tier1_schema_failure, tier2_adversarial_probe, tier3_novel_entity,
  bypass_rule_not_satisfied, bypass_rule_superseded, Label, mandatory_gate, advisory, bypass_floor,
  LogLine, rule_holds, rule_not_satisfied, superseded_by, not_superseded, novel_skipped,
  novel_blocked, novel_unconfigured, novel_enough_history, novel_fired, novel_outranked_by_probe,
  novel_outranked_by_schema, combined, EnforcementDecision,
}
use decision_ledger.Bundle.{GateRecord}

-- The two `ValueError`s of `resolve_decision`.
pub data DecisionError : Type 0 where
  no_bypass_check nothing_to_combine : DecisionError

abbrev pub Term : Type 0
Term = Label × DecisionAction

abbrev pub action_of : Term → DecisionAction
action_of t = t.1

-- The terms of the mandatory gates that were enforced.
pub mandatory_terms : List GateRecord → List Term
mandatory_terms [] = []
mandatory_terms (r ∷ records) =
    let rest = mandatory_terms records in
    elim r.enforcement [
      | none ↦ rest
      | some e ↦ if r.mandatory then (mandatory_gate r.gate_id, e.decision_action) ∷ rest else rest
    ]

-- The enforcements of the advisory gates that were enforced.
pub advisory_decisions : List GateRecord → List EnforcementDecision
advisory_decisions [] = []
advisory_decisions (r ∷ records) =
    let rest = advisory_decisions records in
    elim r.enforcement [ none ↦ rest | some e ↦ if r.mandatory then rest else e ∷ rest ]

abbrev pub actions_of : List EnforcementDecision → List DecisionAction
actions_of [] = []
actions_of (e ∷ decisions) = e.decision_action ∷ actions_of decisions

-- What one of the decision-level rules contributes: the rule, its log lines and its terms.
pub record Contribution : Type 0 where
  pub rule : Option Rule
  pub lines : List LogLine
  pub terms : List Term

pub stricter_than : BypassRule → List BypassCheck → List BypassCheck
stricter_than cited =
    select (λ check. check.holds && ltb (severity cited.action) (severity check.rule.action))

pub strictest : List BypassCheck → Option BypassCheck
strictest [] = none
strictest (check ∷ checks) = some (max_by (λ c. severity c.rule.action) check checks)

-- `elif competing:`
superseded_lines : List BypassCheck → List LogLine
superseded_lines [] = []
superseded_lines (check ∷ checks) = not_superseded ∷ []

-- The stricter floor is credited, the not-satisfied one on a tie.
pub floors : BypassCheck → List BypassCheck → Option BypassCheck → Bool → Contribution
unfolding superseded_lines
floors cited competing none true = record {
  rule = none;
  lines = rule_holds cited ∷ superseded_lines competing;
  terms = [];
}
floors cited competing none false = record {
  rule = some bypass_rule_not_satisfied;
  lines = rule_not_satisfied cited ∷ superseded_lines competing;
  terms = (bypass_floor, hold) ∷ [];
}
floors cited competing (some check) true = record {
  rule = some bypass_rule_superseded;
  lines = rule_holds cited ∷ superseded_by check.rule cited.rule.action ∷ [];
  terms = (bypass_floor, check.rule.action) ∷ [];
}
floors cited competing (some check) false = record {
  rule =
      if ltb (severity hold) (severity check.rule.action)
      then some bypass_rule_superseded
      else some bypass_rule_not_satisfied;
  lines = rule_not_satisfied cited ∷ superseded_by check.rule cited.rule.action ∷ [];
  terms = (bypass_floor, hold) ∷ (bypass_floor, check.rule.action) ∷ [];
}

-- `_bypass_rules`
unfoldable pub bypass_rules : BypassCheck → List BypassCheck → Contribution
unfolding floors stricter_than strictest
bypass_rules cited competing =
    floors cited competing (strictest (stricter_than cited.rule competing)) cited.holds

abbrev pub is_zero : ℤ → Bool
is_zero (pos n) = eqb n 0
is_zero (negsuc n) = false

-- `bool(value)`
truthy : Scalar → Bool
truthy (boolean b) = b
truthy (integer z) = not (is_zero z)
truthy (float r) = not (is_zero r.numerator)
truthy (string s) = not (s == "")

truthy_or_false : Option Scalar → Bool
unfolding truthy
truthy_or_false none = false
truthy_or_false (some value) = truthy value

pub credits_probe : EnforcementDecision → Bool
credits_probe e = elim e.enforcement_rule_applied [
  | some tier2_adversarial_probe ↦ true
  | _ ↦ false
]

pub credits_schema : EnforcementDecision → Bool
credits_schema e = elim e.enforcement_rule_applied [ some tier1_schema_failure ↦ true | _ ↦ false ]

pub not_empty : List EnforcementDecision → Bool
not_empty [] = false
not_empty (e ∷ decisions) = true

pub advisory_term : Option DecisionAction → List Term
advisory_term none = []
advisory_term (some action) = (advisory, action) ∷ []

-- The advisory gates of a decision about a novel entity.
pub novel_side : List EnforcementDecision → Contribution
unfolding credits_probe credits_schema not_empty
novel_side decisions =
    if any credits_probe decisions
    then record {
      rule = none;
      lines = novel_outranked_by_probe ∷ [];
      terms = (advisory, block) ∷ [];
    }
    else if not_empty decisions && all credits_schema decisions
    then record {
      rule = none;
      lines = novel_outranked_by_schema ∷ [];
      terms = (advisory, hold) ∷ [];
    }
    else record {
      rule = some tier3_novel_entity;
      lines = novel_fired ∷ [];
      terms = (advisory, hold) ∷ [];
    }

pub plain_side : List EnforcementDecision → LogLine → Contribution
unfolding advisory_term
plain_side decisions line = record {
  rule = none;
  lines = line ∷ [];
  terms = advisory_term (most_severe (actions_of decisions));
}

-- Whether the subject of a submission is a novel entity, if the registration names the feature.
unfoldable pub is_novel : ReasonerRegistration → Submission → Option Bool
unfolding truthy_or_false
is_novel registration s = elim registration.novel_entity_feature [
  | none ↦ none
  | some feature ↦ some (truthy_or_false (lookup feature s.reasoner_context.subject.feature_set))
]

pub side_of : Option Bool → List EnforcementDecision → Contribution
unfolding novel_side plain_side
side_of none decisions = plain_side decisions novel_unconfigured
side_of (some false) decisions = plain_side decisions novel_enough_history
side_of (some true) decisions = novel_side decisions

-- `_advisory_side`
unfoldable pub advisory_side :
    Submission → List EnforcementDecision → ReasonerRegistration → Contribution
unfolding side_of is_novel
advisory_side s decisions registration = side_of (is_novel registration s) decisions

pub plain_terms : List DecisionAction → List Term
plain_terms [] = []
plain_terms (a ∷ actions) = (advisory, a) ∷ plain_terms actions

-- A recorded decision: the bypass rules, and no novel-entity tier.
pub recorded : Option BypassCheck → List BypassCheck → Outcome DecisionError Contribution
recorded none competing = raised no_bypass_check
recorded (some cited) competing =
    let floor = bypass_rules cited competing in
    ok (record floor { lines = floor.lines ++ novel_skipped ∷ [] })

-- A gated decision: `block` from a mandatory gate absorbs the rest.
pub gated : Submission → List Term → List EnforcementDecision → ReasonerRegistration → Contribution
unfolding plain_terms
gated s mandatory decisions registration =
    if any (λ t. same_action (action_of t) block) mandatory
    then record {
      rule = none;
      lines = novel_blocked ∷ [];
      terms = plain_terms (actions_of decisions);
    }
    else advisory_side s decisions registration

pub contribution :
    SubmissionMode
    → Submission
    → List Term
    → List EnforcementDecision
    → ReasonerRegistration
    → Option BypassCheck
    → List BypassCheck
    → Outcome DecisionError Contribution
unfolding recorded gated
contribution record_mode s mandatory decisions registration check competing =
    recorded check competing
contribution gate_mode s mandatory decisions registration check competing =
    ok (gated s mandatory decisions registration)

pub concluded :
    Option DecisionAction
    → List Term
    → Contribution
    → Option DecisionAction
    → Outcome DecisionError EnforcementDecision
concluded proposed terms c none = raised nothing_to_combine
concluded proposed terms c (some final) = ok (record {
  decision_action = final;
  enforcement_rule_applied = c.rule;
  override_log = c.lines ++ combined proposed terms final ∷ [];
})

-- The combinator over the proposal, the mandatory terms and the contribution.
pub combine :
    Option DecisionAction
    → List Term
    → Outcome DecisionError Contribution
    → Outcome DecisionError EnforcementDecision
unfolding concluded
combine proposed mandatory (raised e) = raised e
combine proposed mandatory (ok c) =
    let terms = mandatory ++ c.terms in
    concluded proposed terms c (most_restrictive proposed (map action_of terms))

unfoldable pub resolve_decision :
    Submission
    → List GateRecord
    → ReasonerRegistration
    → Option BypassCheck
    → List BypassCheck
    → Outcome DecisionError EnforcementDecision
unfolding mandatory_terms advisory_decisions contribution combine
resolve_decision s records registration check competing =
    let mandatory = mandatory_terms records in
    combine s.proposed_action mandatory
      (contribution s.mode s mandatory (advisory_decisions records) registration check competing)

-- ===== src/Bypass.antt =====
-- core/submission.py: the evaluation of registered bypass rules, which a reasoner and the ledger
-- share.
pub mod Laws
pub mod Matching
use decision_ledger.Prelude.{
  String, Bool, true, false, ◌&&◌, not, Option, none, some, List, [], ◌∷◌, map, select, max_by,
  ◌==◌, if◌then◌else◌, Outcome, ok, raised,
}
use decision_ledger.Prelude.Names.{sorted_set}
use decision_ledger.Actions.{severity}
use decision_ledger.Predicate.{
  Scalar, Subject, PredicateError, resolve, evaluate, referenced_fields,
}
use decision_ledger.Registration.{BypassRule, ReasonerRegistration}
use decision_ledger.Submission.{ReasonerContext}

-- The ledger's evaluation of one registered bypass rule.
pub record BypassCheck : Type 0 where
  pub rule : BypassRule
  pub observed : List (String × Scalar)
  pub holds : Bool
  pub error : Option PredicateError

kept : String → Outcome PredicateError Scalar → List (String × Scalar) → List (String × Scalar)
kept field (ok value) rest = (field, value) ∷ rest
kept field (raised e) rest = rest

-- The subject's value for each field that it has; the fields it lacks are omitted.
unfoldable pub observed_values : List String → Subject → List (String × Scalar)
unfolding kept
observed_values [] subject = []
observed_values (field ∷ fields) subject =
    kept field (resolve field subject) (observed_values fields subject)

pub concluded : BypassRule → List (String × Scalar) → Outcome PredicateError Bool → BypassCheck
concluded rule observed (ok holds) = record {
  rule = rule;
  observed = observed;
  holds = holds;
  error = none;
}
concluded rule observed (raised e) = record {
  rule = rule;
  observed = observed;
  holds = false;
  error = some e;
}

unfoldable pub evaluate_bypass : BypassRule → ReasonerContext → BypassCheck
unfolding concluded
evaluate_bypass rule context =
    concluded rule (observed_values (sorted_set (referenced_fields rule.predicate)) context.subject)
      (evaluate rule.predicate context.subject)

abbrev pub evaluate_rules : List BypassRule → ReasonerContext → List BypassCheck
evaluate_rules [] context = []
evaluate_rules (rule ∷ rules) context = evaluate_bypass rule context ∷ evaluate_rules rules context

pub strictest_rule : List BypassRule → Option BypassRule
strictest_rule [] = none
strictest_rule (rule ∷ rules) = some (max_by (λ r. severity r.action) rule rules)

-- Of the rules that hold, the first among those with the most restrictive action.
unfoldable pub matching_bypass_rule : ReasonerRegistration → ReasonerContext → Option BypassRule
unfolding strictest_rule
matching_bypass_rule registration context =
    strictest_rule (select (λ rule. (evaluate_bypass rule context).holds) registration.bypass_rules)

-- Every registered rule but the cited one, in registration order.
unfoldable pub evaluate_competing_rules :
    ReasonerRegistration → BypassRule → ReasonerContext → List BypassCheck
evaluate_competing_rules registration cited context =
    evaluate_rules (select (λ rule. not (rule.rule_id == cited.rule_id)) registration.bypass_rules)
      context

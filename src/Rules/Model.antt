-- ===== src/Rules/Model.antt =====
-- gates/rules/src/rules_gate/{ruleset, gate}.py: rule sets, the snapshot, and what the gate holds.
use decision_ledger.Prelude.{
  String, Bool, Option, none, some, List, [], ◌∷◌, map, distinct, ◌==◌, if◌then◌else◌,
}
use Prim.Native.String.{◌++◌ as join}
use decision_ledger.Actions.{DecisionAction}
use decision_ledger.Json.{Json}
use decision_ledger.Predicate.{Predicate, Scalar, PredicateError}
use decision_ledger.Artifacts.{Bytes}

pub record Rule : Type 0 where
  pub rule_id : String
  pub description : String
  pub when : Predicate
  pub action : DecisionAction
  pub required_controls : List String

pub record RuleSet : Type 0 where
  pub ruleset_id : String
  pub version : String
  pub reasoner_id : String
  pub description : String
  pub default_action : DecisionAction
  pub rules : List Rule

abbrev pub rule_ids : List Rule → List String
rule_ids = map (λ rule. rule.rule_id)

-- `_rule_ids_are_unique`
unfoldable pub rule_ids_are_unique : RuleSet → Bool
rule_ids_are_unique rule_set = distinct (rule_ids rule_set.rules)

-- `ref`
unfoldable pub ref : RuleSet → String
ref rule_set = join rule_set.ruleset_id (join "@" rule_set.version)

abbrev pub rules_gate_id : String
rules_gate_id = "rules"

-- `extra`: why there is no verdict, with the values of the detail.
pub data RulesGateFailure : Type 0 where
  unknown_ruleset : String → RulesGateFailure
  ruleset_reasoner_mismatch : String → String → RulesGateFailure
  predicate_error : PredicateError → RulesGateFailure

pub record RulesGateSnapshot : Type 0 where
  pub ruleset_id : String
  pub rule_set : Option RuleSet
  pub matched_rule_ids : List String
  pub default_applied : Bool
  pub observed : List (String × Scalar)
  pub ruleset_hash : Option String

-- The code outside the repository.
pub record Formats : Type 0 where
  -- `hashlib.sha256(...).hexdigest()`
  pub sha256 : Bytes → String
  -- `json.dumps(value, sort_keys=True, ...).encode("utf-8")`
  pub canonical_json : Json → Bytes
  -- `model_dump(mode="json")` and `model_validate_json(json.dumps(...))`
  pub dump_ruleset : RuleSet → Json
  pub dump_snapshot : RulesGateSnapshot → Json
  pub read_snapshot : Json → Option RulesGateSnapshot
  -- `RulesGateConfig.model_validate`: the `ruleset_id`.
  pub read_config : Json → Option String
  -- `RuleSet.model_validate`, before its own validator.
  pub read_fields : Json → Option RuleSet

-- The gate: its rule sets, the file of each, and its escrow, if it has one, with whether it is on.
pub record RulesGate : Type 0 where
  pub rule_sets : List (String × RuleSet)
  pub origins : List (String × String)
  pub escrow : Option Bool

-- `mapping.get(key)`
abbrev pub lookup : {A : Type 0} → String → List (String × A) → Option A
lookup key [] = none
lookup key ((name, value) ∷ rest) = if name == key then some value else lookup key rest

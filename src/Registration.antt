-- ===== src/Registration.antt =====
-- core/observation/registration.py: a reasoner's registration and its validator.
use decision_ledger.Prelude.{
  String, Bool, Option, List, [], ◌∷◌, map, all, any, first, distinct, ◌==◌, Outcome, ok, require,
  ◌>>◌,
}
use decision_ledger.Actions.{DecisionAction, same_action}
use decision_ledger.Predicate.{Predicate}
use decision_ledger.Json.{Json}
use decision_ledger.Identity.{NativeNamespace}

pub record GateBinding : Type 0 where
  pub gate_id : String
  pub mandatory : Bool
  pub config : Json

pub record BypassRule : Type 0 where
  pub rule_id : String
  pub version : String
  pub description : String
  pub predicate : Predicate
  pub action : DecisionAction

pub record ReasonerRegistration : Type 0 where
  pub reasoner_id : String
  pub reasoner_name : String
  pub gates : List GateBinding
  pub bypass_rules : List BypassRule
  pub recordable_actions : List DecisionAction
  pub native_namespaces : List NativeNamespace
  pub novel_entity_feature : Option String
  pub jurisdiction_conflict_groups : List (List String)

-- The ids of bindings, in order.
abbrev pub ids_of : List GateBinding → List String
ids_of [] = []
ids_of (b ∷ bindings) = b.gate_id ∷ ids_of bindings

abbrev pub gate_ids : ReasonerRegistration → List String
gate_ids registration = ids_of registration.gates

abbrev pub rule_ids : List BypassRule → List String
rule_ids [] = []
rule_ids (r ∷ rules) = r.rule_id ∷ rule_ids rules

abbrev pub recordable : ReasonerRegistration → DecisionAction → Bool
recordable registration action = any (same_action action) registration.recordable_actions

-- `ReasonerRegistration.binding`
unfoldable pub binding : ReasonerRegistration → String → Option GateBinding
binding registration gate_id = first (λ b. b.gate_id == gate_id) registration.gates

-- `ReasonerRegistration.bypass_rule`
unfoldable pub bypass_rule : ReasonerRegistration → String → Option BypassRule
bypass_rule registration rule_id = first (λ r. r.rule_id == rule_id) registration.bypass_rules

-- `ReasonerRegistration.native_namespace`
unfoldable pub native_namespace : ReasonerRegistration → String → Option NativeNamespace
native_namespace registration name =
    first (λ n. n.native_namespace == name) registration.native_namespaces

pub data RegistrationViolation : Type 0 where
  repeated_gates repeated_rules repeated_namespaces unrecordable : RegistrationViolation

-- `_gate_set_and_rules_are_consistent`
unfoldable pub check_registration :
    ReasonerRegistration → Outcome RegistrationViolation ReasonerRegistration
check_registration registration = do
  require (distinct (gate_ids registration)) repeated_gates
  require (distinct (rule_ids registration.bypass_rules)) repeated_rules
  require (distinct (map (λ n. n.native_namespace) registration.native_namespaces))
      repeated_namespaces
  require (all (λ r. recordable registration r.action) registration.bypass_rules) unrecordable
  ok registration

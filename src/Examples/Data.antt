-- ===== src/Examples/Data.antt =====
-- The data of the runs.
use decision_ledger.Prelude.{
  refl, ◌==◌, if◌then◌else◌, String, Bool, true, false, none, some, [], ◌∷◌,
}
use decision_ledger.Prelude.Number.{pos, Ratio}
use decision_ledger.Actions.{DecisionAction, allow, challenge, hold}
use decision_ledger.Json
use decision_ledger.Predicate.{integer, ge, scalar, compare}
use decision_ledger.Gate.{GateVerdict, GateOutput}
use decision_ledger.Identity.{ResolvedIdentity, unresolved, no_resolver}
use decision_ledger.Registration.{GateBinding, BypassRule, ReasonerRegistration}
use decision_ledger.Registry.{RegisteredReasoner}
use decision_ledger.Submission.{record_mode, gate_mode, ReasonerContext, Submission}
use decision_ledger.Invocation.{GateRequest, returned, cut_off, ComposedGate}
use decision_ledger.Bundle.{DecisionBundle}
use decision_ledger.Submit.{External, Deployment, Call}
use decision_ledger.Store.{Codec, Tables}

abbrev pub empty : Json.Json
empty = Json.object Json.end

abbrev pub half : Ratio
half = record { numerator = pos 1; below = 1 }

abbrev pub verdict_of : String → DecisionAction → GateVerdict
verdict_of gate_id action = record {
  gate_id = gate_id;
  permitted_actions = action ∷ [];
  required_controls = [];
  confidence = half;
  escalate_to_human = false;
  escalation_reason = none;
}

abbrev pub output_of : String → DecisionAction → GateOutput
output_of gate_id action = record {
  gate_id = gate_id;
  deterministic = true;
  verdict = some (verdict_of gate_id action);
  evidence = [];
  evidence_snapshot = none;
}

abbrev pub gate_of : String → Bool → DecisionAction → ComposedGate
gate_of gate_id mandatory action = record {
  gate_id = gate_id;
  deterministic = true;
  mandatory = mandatory;
  accepts_config = λ config. true;
  authorizes = λ config reasoner_id. true;
  evaluate = λ request. returned (output_of gate_id action) 12 false;
}

abbrev pub late_gate : ComposedGate
late_gate = record (gate_of "aml" true allow) { evaluate = λ request. cut_off 5000 }

abbrev pub bind_velocity : GateBinding
bind_velocity = record { gate_id = "velocity"; mandatory = false; config = empty }

abbrev pub mandatory_aml : GateBinding
mandatory_aml = record { gate_id = "aml"; mandatory = true; config = empty }

abbrev pub trusted : BypassRule
trusted = record {
  rule_id = "trusted";
  version = "1";
  description = "";
  predicate =
      compare (record { field = "feature_set.age"; op = ge; value = scalar (integer (pos 5)) });
  action = allow;
}

abbrev pub cards : ReasonerRegistration
cards = record {
  reasoner_id = "cards";
  reasoner_name = "Cards";
  gates = bind_velocity ∷ [];
  bypass_rules = trusted ∷ [];
  recordable_actions = allow ∷ [];
  native_namespaces = [];
  novel_entity_feature = none;
  jurisdiction_conflict_groups = [];
}

abbrev pub entry_of : ReasonerRegistration → String → RegisteredReasoner
entry_of registration source = record {
  registration = registration;
  version = registration.reasoner_name;
  source = source;
  registered_by = none;
  registered_at = none;
  updated_at = none;
}

abbrev pub evidence : ReasonerContext
evidence = record {
  reasoner_id = "cards";
  subject = record { label_value = integer (pos 1); feature_set = ("age", integer (pos 3)) ∷ [] };
}

abbrev pub payment : Submission
payment = record {
  reasoner_id = "cards";
  event_id = "e1";
  timestamp = 7;
  entity_id = 9;
  entity_type = "card";
  native_subject = some (record { native_namespace = "core"; native_subject_id = "c9" });
  mode = gate_mode;
  proposed_action = some challenge;
  bypass = none;
  reasoner_context = evidence;
  gate_contexts = record { gate_id = "velocity"; gate_config = none } ∷ [];
}

abbrev pub waved_through : Submission
waved_through = record payment {
  mode = record_mode;
  proposed_action = some allow;
  bypass = some (record { rule_id = "trusted"; rule_version = none });
}

-- Documents with a schema version, and the bundle of those of version 2.
abbrev pub copies : Codec
copies = record {
  Document = String × DecisionBundle;
  serialize = λ b. ("2", b);
  deserialize =
      λ (document : String × DecisionBundle). if document.0 == "2" then some document.1 else none;
  is_reloaded = λ b. yes refl;
}

abbrev pub library : External
library = record {
  uuid5 = λ namespace name. 5;
  survives = λ identity. true;
  storable = λ output. true;
  version_of = λ registration. registration.reasoner_name;
  codec = copies;
}

abbrev pub deployment : Deployment
deployment = record {
  gates = gate_of "velocity" false hold ∷ late_gate ∷ [];
  registry = entry_of cards "file" ∷ [];
  resolver = none;
  identity_budget_ms = 100;
  gate_budget_ms = 500;
}

abbrev pub call : Call
call = record {
  decision_id = "d1";
  idempotency_key = none;
  ingestion_timestamp = 8;
  resolved_at = 8;
  created_at = 9;
}

abbrev pub no_tables : Tables (String × DecisionBundle)
no_tables = record { bundles = []; links = []; replay_logs = []; snapshots = [] }

abbrev pub known_card : ResolvedIdentity
known_card = record {
  entity_id = 9;
  entity_type = "card";
  derivation = none;
  provenance = record {
    native_namespace = none;
    native_subject_id = none;
    resolved_by = "passthrough";
    method = unresolved;
    confidence = none;
    resolved_at = 8;
    reason = some no_resolver;
  };
  related = [];
}

abbrev pub request : GateRequest
request = record {
  decision_id = "d1";
  submission = payment;
  gate_context = record { gate_id = "aml"; gate_config = none };
  budget_ms = 500;
  identity = known_card;
  binding_config = empty;
}

abbrev pub bundle : String → DecisionBundle
bundle decision_id = record {
  decision_id = decision_id;
  created_at = 9;
  submission = payment;
  identity = some known_card;
  idempotency_key = "e1";
  ingestion_timestamp = 8;
  gates = [];
  decision_action = hold;
  decision_level_rule = none;
  override_log = [];
  bypass_rule_holds = none;
  bypass_check = none;
  other_bypass_checks = [];
  registration_version = some "Cards";
}

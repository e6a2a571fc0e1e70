-- ===== src/Examples/Evaluates.antt =====
-- Runs of the rules gate and of the composition of gates.
use mathlib.Core.List.{Memᴰ}
use decision_ledger.Prelude.{
  ◌≡◌, refl, String, true, false, none, some, Bool-cases, [], ◌∷◌, map, ◌==◌, if◌then◌else◌, ok,
  inl, inr,
}
use decision_ledger.Prelude.Number.{pos}
use decision_ledger.Prelude.Names.{sorted_set, without}
use decision_ledger.Prelude.Text.{remove_prefix}
use decision_ledger.Actions.{allow, hold}
use decision_ledger.Predicate.{Subject, integer, compare, ge, scalar}
use decision_ledger.Predicate as Predicate
use decision_ledger.Gate.{GateVerdict, intact, source_changed}
use decision_ledger.Intake.{effective_gate_set}
use decision_ledger.Invocation.{invoke_gate, composed_gate}
use decision_ledger.Submit.{mandated_gates}
use decision_ledger.Enforcement.{resolve_gate_output}
use decision_ledger.Artifacts.{Bytes, is_digest, is_blank, put}
use decision_ledger.Rules.{
  Rule, RuleSet, rule_ids_are_unique, RulesGateSnapshot, Formats, RulesGate, Evaluated, lookup,
  digest_of, evaluate_ruleset,
}
use decision_ledger.Rules.Enforced.{Ruled, evaluate_ruleset-Ruled}
use decision_ledger.Rules.Tenant.{SameFor, evaluate_ruleset-isolated}
use decision_ledger.Rules.Verify.{is_mapping, read_ruleset, verify}
use decision_ledger.Rules.Verify.Statuses.{KeepsSnapshot}
use decision_ledger.Rules.Verify.Intact.{verify-evaluate_ruleset, verify-live}
use decision_ledger.Rules.Load.{Loaded, load_rulesets, Sound, load_rulesets-Sound}
use decision_ledger.Gates.{
  ServedGate, GatePlugin, built, build_gates, build_each, served_gate, check_gate_sets,
  check_gate_set, check_composed, check_unbound, takes_empty_config, check_bound,
}
use decision_ledger.Gates.Serves.{composed_gates, build_gates-invoked}
use decision_ledger.Examples.Data.{cards, request, gate_of, empty, mandatory_aml}

abbrev young : Rule
young = record {
  rule_id = "young";
  description = "";
  when = compare (record { field = "feature_set.age"; op = ge; value = scalar (integer (pos 2)) });
  action = hold;
  required_controls = "review" ∷ [];
}

abbrev guardrails : RuleSet
guardrails = record {
  ruleset_id = "guardrails";
  version = "1";
  reasoner_id = "cards";
  description = "";
  default_action = allow;
  rules = young ∷ [];
}

abbrev zeros : String
zeros = "0000000000000000000000000000000000000000000000000000000000000000"

abbrev applied_snapshot : RulesGateSnapshot
applied_snapshot = record {
  ruleset_id = "guardrails";
  rule_set = some guardrails;
  matched_rule_ids = "young" ∷ [];
  default_applied = false;
  observed = ("feature_set.age", integer (pos 3)) ∷ [];
  ruleset_hash = some zeros;
}

abbrev ones : String
ones = "1111111111111111111111111111111111111111111111111111111111111111"

-- A digest that tells some contents apart.
digest : Bytes → String
digest [] = ones
digest (b ∷ content) = zeros

digest-is_digest : (content : Bytes) → is_digest (digest content) ≡ true
unfolding digest is_digest
digest-is_digest [] = refl
digest-is_digest (b ∷ content) = refl

abbrev formats : Formats
formats = record {
  sha256 = digest;
  canonical_json = λ value. 7 ∷ [];
  dump_ruleset = λ rule_set. empty;
  dump_snapshot = λ snapshot. empty;
  read_snapshot = λ value. some applied_snapshot;
  read_config = λ value. some "guardrails";
  read_fields = λ value. some guardrails;
}

abbrev gate : RulesGate
gate = record {
  rule_sets = ("guardrails", guardrails) ∷ [];
  origins = ("guardrails", "guardrails.yaml") ∷ [];
  escrow = some true;
}

evaluated : (result : Evaluated) × (evaluate_ruleset formats gate request [] ≡ ok result)
unfolding digest evaluate_ruleset Predicate.evaluate Predicate.resolve Predicate.lookup
    remove_prefix Predicate.compare_node put is_blank
evaluated = (_, refl)

verdict : GateVerdict
verdict = record {
  gate_id = "rules";
  permitted_actions = hold ∷ [];
  required_controls = "review" ∷ [];
  confidence = record { numerator = pos 1; below = 0 };
  escalate_to_human = false;
  escalation_reason = none;
}

has_verdict : evaluated.0.output.verdict ≡ some verdict
unfolding evaluated verdict sorted_set
has_verdict = refl

evaluate_ruleset-Ruled_example :
    (rule_set : RuleSet) × ((ruleset_id : String) × (lookup ruleset_id gate.rule_sets
        ≡ some rule_set))
    × (rule_set.reasoner_id ≡ "cards")
    × Ruled rule_set request.submission.reasoner_context.subject
        (resolve_gate_output (some (evaluated.0.output)) cards none).decision_action
evaluate_ruleset-Ruled_example =
    evaluate_ruleset-Ruled formats gate request [] (evaluated.0) verdict cards none (evaluated.1)
      has_verdict

-- Another tenant's rule set under the id that the request names.
abbrev foreign : String → RuleSet
foreign version = record guardrails { reasoner_id = "loans"; version = version }

abbrev foreign_gate : String → RulesGate
foreign_gate version = record gate { rule_sets = ("guardrails", foreign version) ∷ [] }

both_foreign : SameFor "cards" (foreign_gate "1") (foreign_gate "2")
both_foreign ruleset_id = elim (Bool-cases ("guardrails" == ruleset_id)) [
  | inl same ↦ inr (
      rw same (record {
        left = foreign "1";
        right = foreign "2";
        is_left = refl;
        is_right = refl;
        left_foreign = refl;
        right_foreign = refl;
        same_id = refl;
      }))
  | inr other ↦ inl (rw other refl)
]

evaluate_ruleset-isolated_example :
    evaluate_ruleset formats (foreign_gate "1") request []
    ≡ evaluate_ruleset formats (foreign_gate "2") request []
evaluate_ruleset-isolated_example =
    evaluate_ruleset-isolated formats (foreign_gate "1") (foreign_gate "2") request [] refl
      both_foreign

keeps : KeepsSnapshot formats (evaluated.0.snapshot)
unfolding evaluated digest is_mapping
keeps = record {
  writes = refl;
  back = applied_snapshot;
  reads = refl;
  same_id = refl;
  same_hash = refl;
}

verify-evaluate_ruleset_example :
    verify formats (λ path. none) gate false (evaluated.0.artifacts) (evaluated.0.output)
    ≡ map (λ evidence. intact) (evaluated.0.output.evidence)
verify-evaluate_ruleset_example =
    verify-evaluate_ruleset formats (λ path. none) gate request [] (evaluated.0.artifacts)
      (evaluated.0) verdict digest-is_digest keeps refl refl (evaluated.1) has_verdict (λ h c e. e)

recorded_set : evaluated.0.snapshot.rule_set ≡ some guardrails
unfolding evaluated
recorded_set = refl

reads_again : read_ruleset formats (λ path. some empty) "guardrails.yaml" ≡ ok guardrails
unfolding read_ruleset rule_ids_are_unique
reads_again = refl

verify-live_example :
    verify formats (λ path. some empty) gate true [] (evaluated.0.output)
    ≡ map
        (λ evidence.
          if digest_of formats guardrails == digest_of formats guardrails
          then intact
          else source_changed)
        (evaluated.0.output.evidence)
verify-live_example =
    verify-live formats (λ path. some empty) gate request [] [] (evaluated.0) verdict guardrails
      guardrails "guardrails.yaml" keeps (evaluated.1) has_verdict recorded_set refl reads_again

loaded_one :
    (loaded : Loaded) × (load_rulesets formats (λ path. some empty) (some ("guardrails.yaml" ∷ []))
      ≡ ok loaded)
unfolding load_rulesets read_ruleset rule_ids_are_unique
loaded_one = (_, refl)

load_rulesets-Sound_example :
    Sound formats (λ path. some empty) ("guardrails.yaml" ∷ []) (loaded_one.0)
load_rulesets-Sound_example =
    load_rulesets-Sound formats (λ path. some empty) ("guardrails.yaml" ∷ []) (loaded_one.0)
      (loaded_one.1)

abbrev aml : ServedGate
aml = record {
  composed = gate_of "aml" false hold;
  binding_config_model = none;
  validate_binding = none;
  serves = none;
}

abbrev aml_plugin : GatePlugin
aml_plugin = record { gate_id = "aml"; well_formed = true; build = built aml }

abbrev aml_mandated : ServedGate
aml_mandated = record aml { composed = gate_of "aml" true hold }

builds : (build_gates (aml_plugin ∷ []) (cards ∷ []) ("aml" ∷ [])).outcome ≡ ok (aml_mandated ∷ [])
unfolding build_gates sorted_set without build_each served_gate check_gate_sets check_gate_set
    check_composed check_unbound takes_empty_config check_bound
builds = refl

in_gate_set :
    Memᴰ mandatory_aml
      (effective_gate_set cards (mandated_gates (composed_gates (aml_mandated ∷ []))))
unfolding effective_gate_set mandated_gates sorted_set without
in_gate_set = Memᴰ.tail (Memᴰ.head refl)

build_gates-invoked_example :
    (invoke_gate
      (λ output. true)
      (composed_gate (composed_gates (aml_mandated ∷ [])) "aml")
      request).invoked
    ≡ true
build_gates-invoked_example =
    build_gates-invoked (aml_plugin ∷ []) (cards ∷ []) ("aml" ∷ []) (aml_mandated ∷ []) cards
      mandatory_aml (λ output. true) request builds (Memᴰ.head refl) in_gate_set refl

-- ===== src/Rules.antt =====
-- gates/rules/src/rules_gate/{ruleset, gate}.py: the gate that evaluates a registered rule set on a
-- reasoner's evidence. The code outside the repository (SHA-256, JSON, YAML and the reading and
-- writing of models) is the record `Formats`; the gate's escrow is the table of Artifacts. `extra`
-- and the snapshot before it is written to JSON stand beside the output.
mod Model
unfoldable pub use Model.*
pub mod Verify
pub mod Load
pub mod Verdict
pub mod Enforced
pub mod Tenant
use decision_ledger.Prelude.{
  ℕ, suc, String, Bool, true, false, not, ◌&&◌, Option, none, some, List, [], ◌∷◌, ◌++◌, map, any,
  first, distinct, ◌==◌, if◌then◌else◌, Outcome, ok, raised, require, ◌>>=◌, ◌>>◌,
}
use Prim.Native.String.{◌++◌ as join}
use decision_ledger.Prelude.Number.{pos, Ratio}
use decision_ledger.Prelude.Names.{sorted_set}
use decision_ledger.Actions.{DecisionAction}
use decision_ledger.Json
use decision_ledger.Json.{Json}
use decision_ledger.Predicate.{
  Predicate, Scalar, Subject, PredicateError, evaluate, referenced_fields,
}
use decision_ledger.Gate.{GateVerdict, EvidenceRef, GateOutput}
use decision_ledger.Bypass.{observed_values}
use decision_ledger.Invocation.{GateRequest}
use decision_ledger.Artifacts.{Bytes, Artifact, EscrowError, put}

unfoldable pub referenced_by_rules : List Rule → List String
referenced_by_rules [] = []
referenced_by_rules (rule ∷ rules) = referenced_fields rule.when ++ referenced_by_rules rules

-- `_observed_values`
unfoldable pub observed_fields : RuleSet → Subject → List (String × Scalar)
unfolding referenced_by_rules
observed_fields rule_set subject =
    observed_values (sorted_set (referenced_by_rules rule_set.rules)) subject

-- `[rule for rule in rules if evaluate_predicate(rule.when, subject)]`
unfoldable pub matched_rules : List Rule → Subject → Outcome PredicateError (List Rule)
matched_rules [] subject = ok []
matched_rules (rule ∷ rules) subject =
    let rest = matched_rules rules subject in
    do holds ← evaluate rule.when subject; found ← rest; ok (if holds then rule ∷ found else found)

-- `[rule.action for rule in matched] or [rule_set.default_action]`
unfoldable pub permitted : RuleSet → List Rule → List DecisionAction
permitted rule_set [] = rule_set.default_action ∷ []
permitted rule_set (rule ∷ rules) = map (λ r. r.action) (rule ∷ rules)

controls_of : List Rule → List String
controls_of [] = []
controls_of (rule ∷ rules) = rule.required_controls ++ controls_of rules

unfoldable pub verdict_for : RuleSet → List Rule → GateVerdict
unfolding permitted controls_of
verdict_for rule_set matched = record {
  gate_id = rules_gate_id;
  permitted_actions = permitted rule_set matched;
  required_controls = sorted_set (controls_of matched);
  confidence = record { numerator = pos 1; below = 0 };
  escalate_to_human = false;
  escalation_reason = none;
}

pub locators : List Rule → List String
locators [] = "default_action" ∷ []
locators (rule ∷ rules) = rule_ids (rule ∷ rules)

pub cite : String → String → Option String → String → EvidenceRef
cite source content_hash artifact_hash locator = record {
  source_id = source;
  locator = some locator;
  jurisdictions = [];
  content_hash = some content_hash;
  artifact_hash = artifact_hash;
}

-- `_evidence`
unfoldable pub evidence_for : RuleSet → List Rule → String → Option String → List EvidenceRef
unfolding ref locators cite
evidence_for rule_set matched content_hash artifact_hash =
    map (cite (ref rule_set) content_hash artifact_hash) (locators matched)

is_empty : List Rule → Bool
is_empty [] = true
is_empty (rule ∷ rules) = false

pub data EvaluateError : Type 0 where
  config_invalid : EvaluateError
  not_escrowed : EscrowError → EvaluateError

-- What `evaluate` returns, its snapshot and `extra` beside it, and the escrow's rows after it.
pub record Evaluated : Type 0 where
  pub output : GateOutput
  pub snapshot : RulesGateSnapshot
  pub extra : Option RulesGateFailure
  pub artifacts : List Artifact

-- `gate_config or {}`
unfoldable pub config : Option Json → Json
config none = Json.object Json.end
config (some value) = value

module _ (formats : Formats) where
  -- `canonical_ruleset`
  unfoldable pub canonical_ruleset : RuleSet → Bytes
  canonical_ruleset rule_set = formats.canonical_json (formats.dump_ruleset rule_set)

  unfoldable pub digest_of : RuleSet → String
  unfolding canonical_ruleset
  digest_of rule_set = formats.sha256 (canonical_ruleset rule_set)

  -- `_failed`
  unfoldable pub failed :
      RulesGateFailure
      → String
      → Option RuleSet
      → List (String × Scalar)
      → List Artifact
      → Evaluated
  failed failure ruleset_id rule_set observed artifacts =
      let snapshot : RulesGateSnapshot = record {
        ruleset_id = ruleset_id;
        rule_set = rule_set;
        matched_rule_ids = [];
        default_applied = false;
        observed = observed;
        ruleset_hash = none;
      } in
      record {
        output = record {
          gate_id = rules_gate_id;
          deterministic = true;
          verdict = none;
          evidence = [];
          evidence_snapshot = some (formats.dump_snapshot snapshot);
        };
        snapshot = snapshot;
        extra = some failure;
        artifacts = artifacts;
      }

  unfoldable pub snapshot_for : RuleSet → List Rule → Subject → RulesGateSnapshot
  unfolding observed_fields is_empty digest_of
  snapshot_for rule_set matched subject = record {
    ruleset_id = rule_set.ruleset_id;
    rule_set = some rule_set;
    matched_rule_ids = rule_ids matched;
    default_applied = is_empty matched;
    observed = observed_fields rule_set subject;
    ruleset_hash = some (digest_of rule_set);
  }

  -- The output of a rule set that was evaluated, with the digest that the escrow returned.
  unfoldable pub applied : RuleSet → List Rule → Subject → List Artifact × Option String → Evaluated
  unfolding verdict_for evidence_for snapshot_for digest_of
  applied rule_set matched subject (artifacts, artifact_hash) = record {
    output = record {
      gate_id = rules_gate_id;
      deterministic = true;
      verdict = some (verdict_for rule_set matched);
      evidence = evidence_for rule_set matched (digest_of rule_set) artifact_hash;
      evidence_snapshot = some (formats.dump_snapshot (snapshot_for rule_set matched subject));
    };
    snapshot = snapshot_for rule_set matched subject;
    extra = none;
    artifacts = artifacts;
  }

  lift_escrow : {A : Type 0} → Outcome EscrowError A → Outcome EvaluateError A
  lift_escrow (ok a) = ok a
  lift_escrow (raised e) = raised (not_escrowed e)

  -- `self._escrow.put(...)`, if there is an escrow.
  unfoldable pub escrowed :
      Option Bool
      → RuleSet
      → String
      → List Artifact
      → Outcome EvaluateError (List Artifact × Option String)
  unfolding canonical_ruleset lift_escrow
  escrowed none rule_set decision_id artifacts = ok (artifacts, none)
  escrowed (some enabled) rule_set decision_id artifacts = lift_escrow (
      put formats.sha256 enabled (canonical_ruleset rule_set) "application/json" decision_id
        rules_gate_id artifacts)

  module _ (gate : RulesGate) (request : GateRequest) (artifacts : List Artifact) where
    subject : Subject
    subject = request.submission.reasoner_context.subject

    pub decided : RuleSet → Outcome PredicateError (List Rule) → Outcome EvaluateError Evaluated
    unfolding subject failed applied escrowed observed_fields
    decided rule_set (raised e) = ok (
        failed (predicate_error e) rule_set.ruleset_id (some rule_set)
          (observed_fields rule_set subject) artifacts)
    decided rule_set (ok matched) = do
      kept ← escrowed gate.escrow rule_set request.decision_id artifacts
      ok (applied rule_set matched subject kept)

    pub selected : String → Option RuleSet → Outcome EvaluateError Evaluated
    unfolding decided failed matched_rules subject
    selected ruleset_id none = ok (failed (unknown_ruleset ruleset_id) ruleset_id none [] artifacts)
    selected ruleset_id (some rule_set) =
        if rule_set.reasoner_id == request.submission.reasoner_context.reasoner_id
        then decided rule_set (matched_rules rule_set.rules subject)
        else ok (
            failed
              (ruleset_reasoner_mismatch rule_set.ruleset_id
                request.submission.reasoner_context.reasoner_id)
              rule_set.ruleset_id none [] artifacts)

    pub configured : Option String → Outcome EvaluateError Evaluated
    unfolding selected
    configured none = raised config_invalid
    configured (some ruleset_id) = selected ruleset_id (lookup ruleset_id gate.rule_sets)

    -- `RulesGate.evaluate`
    unfoldable pub evaluate_ruleset : Outcome EvaluateError Evaluated
    unfolding configured config
    evaluate_ruleset = configured (formats.read_config (config request.gate_context.gate_config))

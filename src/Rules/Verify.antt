-- ===== src/Rules/Verify.antt =====
-- gates/rules/src/rules_gate/gate.py, `verify`, and the reading of rule-set files that it shares with
-- `load_rulesets` (ruleset.py). Reading a file and parsing it as YAML is a parameter; `none` is any
-- exception.
pub mod Statuses
pub mod Intact
use decision_ledger.Prelude.{
  String, Bool, true, false, ◌&&◌, Option, none, some, List, [], ◌∷◌, ◌==◌, if◌then◌else◌, Outcome,
  ok, raised, require, ◌>>=◌, ◌>>◌,
}
use decision_ledger.Json
use decision_ledger.Json.{Json}
use decision_ledger.Gate.{
  EvidenceRef, EvidenceStatus, intact, source_changed, source_unavailable, not_verifiable,
  GateOutput,
}
use decision_ledger.Artifacts.{Bytes, Artifact, get}
use decision_ledger.Rules.{
  RuleSet, rule_ids_are_unique, RulesGateSnapshot, Formats, RulesGate, lookup, digest_of,
}

pub data ReadError : Type 0 where
  unreadable not_a_mapping not_well_formed repeated_rule_id : ReadError

unfoldable pub is_mapping : Json → Bool
is_mapping (Json.object fields) = true
is_mapping _ = false

module _ (formats : Formats) where
  checked : Option RuleSet → Outcome ReadError RuleSet
  checked none = raised not_well_formed
  checked (some rule_set) = do require (rule_ids_are_unique rule_set) repeated_rule_id; ok rule_set

  -- `parse_ruleset`
  unfoldable pub parse_ruleset : Json → Outcome ReadError RuleSet
  unfolding checked
  parse_ruleset value = checked (formats.read_fields value)

  parsed : Option Json → Outcome ReadError RuleSet
  unfolding is_mapping parse_ruleset
  parsed none = raised unreadable
  parsed (some value) = do require (is_mapping value) not_a_mapping; parse_ruleset value

  module _ (yaml : String → Option Json) where
    -- `read_ruleset`
    unfoldable pub read_ruleset : String → Outcome ReadError RuleSet
    unfolding parsed
    read_ruleset path = parsed (yaml path)

    compared : String → Outcome ReadError RuleSet → EvidenceStatus
    compared recorded (raised e) = source_unavailable
    compared recorded (ok now) =
        if digest_of formats now == recorded then intact else source_changed

    status_of_file : String → Option String → EvidenceStatus
    unfolding read_ruleset compared
    status_of_file recorded none = source_unavailable
    status_of_file recorded (some path) = compared recorded (read_ruleset path)

    -- `_status_now`
    unfoldable pub status_now : RulesGate → String → String → EvidenceStatus
    unfolding status_of_file
    status_now gate ruleset_id recorded = status_of_file recorded (lookup ruleset_id gate.origins)

  status_of_content : String → Option Bytes → EvidenceStatus
  status_of_content recorded none = not_verifiable
  status_of_content recorded (some content) =
      if formats.sha256 content == recorded then intact else source_changed

  status_of_artifact : Option Bool → Option String → List Artifact → String → EvidenceStatus
  unfolding status_of_content
  status_of_artifact (some enabled) (some artifact_hash) artifacts recorded =
      status_of_content recorded (get artifacts artifact_hash)
  status_of_artifact _ _ artifacts recorded = not_verifiable

  -- `_stored_status`
  unfoldable pub stored_status : RulesGate → List Artifact → EvidenceRef → String → EvidenceStatus
  unfolding status_of_artifact
  stored_status gate artifacts evidence recorded =
      status_of_artifact gate.escrow evidence.artifact_hash artifacts recorded

  read_mapping : Option Json → Option RulesGateSnapshot
  unfolding is_mapping
  read_mapping none = none
  read_mapping (some raw) = if is_mapping raw then formats.read_snapshot raw else none

  -- `_stored_snapshot`
  unfoldable pub stored_snapshot : GateOutput → Option RulesGateSnapshot
  unfolding read_mapping
  stored_snapshot output = read_mapping output.evidence_snapshot

  module _ (yaml : String → Option Json) (gate : RulesGate) (live : Bool)
      (artifacts : List Artifact) where
    pub seen_now : Option EvidenceStatus → String → String → EvidenceStatus
    unfolding status_now
    seen_now (some now) ruleset_id recorded = now
    seen_now none ruleset_id recorded = status_now yaml gate ruleset_id recorded

    pub names : Option String → String → Bool
    names none recorded = false
    names (some content_hash) recorded = content_hash == recorded

    pub status_of : String → String → Option EvidenceStatus → EvidenceRef → EvidenceStatus
    unfolding seen_now names stored_status
    status_of ruleset_id recorded now evidence =
        if names evidence.content_hash recorded
        then (if live
            then seen_now now ruleset_id recorded
            else stored_status gate artifacts evidence recorded)
        else not_verifiable

    -- The live status is taken once, at the first reference that needs it.
    pub now_after : String → String → Option EvidenceStatus → EvidenceRef → Option EvidenceStatus
    unfolding seen_now names
    now_after ruleset_id recorded now evidence =
        if names evidence.content_hash recorded && live
        then some (seen_now now ruleset_id recorded)
        else now

    pub statuses_of :
        String → String → Option EvidenceStatus → List EvidenceRef → List EvidenceStatus
    unfolding status_of now_after
    statuses_of ruleset_id recorded now [] = []
    statuses_of ruleset_id recorded now (evidence ∷ rest) =
        status_of ruleset_id recorded now evidence
        ∷ statuses_of ruleset_id recorded (now_after ruleset_id recorded now evidence) rest

    statuses_without : List EvidenceRef → List EvidenceStatus
    statuses_without [] = []
    statuses_without (evidence ∷ rest) = not_verifiable ∷ statuses_without rest

    statuses_by : List EvidenceRef → String → Option String → List EvidenceStatus
    unfolding statuses_of statuses_without
    statuses_by refs ruleset_id none = statuses_without refs
    statuses_by refs ruleset_id (some recorded) = statuses_of ruleset_id recorded none refs

    statuses_under : List EvidenceRef → Option RulesGateSnapshot → List EvidenceStatus
    unfolding statuses_by
    statuses_under refs none = statuses_without refs
    statuses_under refs (some snapshot) = statuses_by refs snapshot.ruleset_id snapshot.ruleset_hash

    -- `_verify`
    unfoldable pub verify : GateOutput → List EvidenceStatus
    unfolding statuses_under stored_snapshot
    verify output = statuses_under output.evidence (stored_snapshot output)

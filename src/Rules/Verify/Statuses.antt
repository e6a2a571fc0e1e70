-- ===== src/Rules/Verify/Statuses.antt =====
-- gates/rules/src/rules_gate/gate.py, `verify`: the statuses of references.
use decision_ledger.Prelude.{
  ◌≡◌, refl, String, Bool, true, false, Option, none, some, List, [], ◌∷◌, map, length, arith,
  eq_iff, ok, ap, suc,
}
use decision_ledger.Json.{Json}
use decision_ledger.Predicate.{Subject}
use decision_ledger.Gate.{EvidenceRef, EvidenceStatus, GateOutput, intact}
use decision_ledger.Artifacts.{Bytes, Artifact, get, put}
use decision_ledger.Rules.{
  Rule, RuleSet, RulesGateSnapshot, Formats, RulesGate, applied, evidence_for, cite, digest_of,
  snapshot_for, rules_gate_id, escrowed, lift_escrow, canonical_ruleset,
}
use decision_ledger.Rules.Verify.{
  is_mapping, stored_snapshot, read_mapping, stored_status, status_of_artifact, status_of_content,
  names, status_of, now_after, seen_now, statuses_of, statuses_without, statuses_by, statuses_under,
  verify,
}

-- The snapshot is written as an object, and read back it has the same rule set id and digest; other
-- parts may come back otherwise.
pub record KeepsSnapshot (formats : Formats) (s : RulesGateSnapshot) : Type 0 where
  pub writes : is_mapping (formats.dump_snapshot s) ≡ true
  pub back : RulesGateSnapshot
  pub reads : formats.read_snapshot (formats.dump_snapshot s) ≡ some back
  pub same_id : back.ruleset_id ≡ s.ruleset_id
  pub same_hash : back.ruleset_hash ≡ s.ruleset_hash

module _ (formats : Formats) (yaml : String → Option Json) (gate : RulesGate) (live : Bool)
    (rows : List Artifact) where
  length-statuses_of :
      (ruleset_id recorded : String) (now : Option EvidenceStatus) (refs : List EvidenceRef)
      → length (statuses_of formats yaml gate live rows ruleset_id recorded now refs) ≡ length refs
  unfolding statuses_of
  length-statuses_of ruleset_id recorded now [] = refl
  length-statuses_of ruleset_id recorded now (evidence ∷ refs) = ap suc (
      length-statuses_of ruleset_id recorded
        (now_after formats yaml gate live rows ruleset_id recorded now evidence) refs)

  length-statuses_without :
      (refs : List EvidenceRef)
      → length (statuses_without formats yaml gate live rows refs) ≡ length refs
  unfolding statuses_without
  length-statuses_without [] = refl
  length-statuses_without (evidence ∷ refs) = ap suc (length-statuses_without refs)

  length-statuses_by :
      (refs : List EvidenceRef) (ruleset_id : String) (o : Option String)
      → length (statuses_by formats yaml gate live rows refs ruleset_id o) ≡ length refs
  unfolding statuses_by
  length-statuses_by refs ruleset_id none = length-statuses_without refs
  length-statuses_by refs ruleset_id (some recorded) =
      length-statuses_of ruleset_id recorded none refs

  length-statuses_under :
      (refs : List EvidenceRef) (o : Option RulesGateSnapshot)
      → length (statuses_under formats yaml gate live rows refs o) ≡ length refs
  unfolding statuses_under
  length-statuses_under refs none = length-statuses_without refs
  length-statuses_under refs (some s) = length-statuses_by refs s.ruleset_id s.ruleset_hash

  -- Whatever the output, there is one status for each of its references.
  pub length-verify :
      (output : GateOutput)
      → length (verify formats yaml gate live rows output) ≡ length output.evidence
  unfolding verify
  length-verify output = length-statuses_under output.evidence _

  -- The references of one rule set with one status.
  pub statuses-cite :
      (ruleset_id recorded source : String) (artifact_hash : Option String)
      (status : EvidenceStatus) (now : Option EvidenceStatus) (listed : List String)
      → ((n : String)
          → status_of formats yaml gate live rows ruleset_id recorded now
              (cite source recorded artifact_hash n)
            ≡ status)
      → ((n : String)
          → now_after formats yaml gate live rows ruleset_id recorded now
              (cite source recorded artifact_hash n)
            ≡ now)
      → statuses_of formats yaml gate live rows ruleset_id recorded now
          (map (cite source recorded artifact_hash) listed)
        ≡ map (λ evidence. status) (map (cite source recorded artifact_hash) listed)
  unfolding statuses_of
  statuses-cite ruleset_id recorded source artifact_hash status now [] h k = refl
  statuses-cite ruleset_id recorded source artifact_hash status now (n ∷ listed) h k =
      rw (h n, k n, statuses-cite ruleset_id recorded source artifact_hash status now listed h k)
        refl

  -- Verifying what was applied comes down to the statuses of its references.
  pub verify-applied :
      (rule_set : RuleSet) (matched : List Rule) (subject : Subject)
      (kept : List Artifact × Option String)
      → KeepsSnapshot formats (snapshot_for formats rule_set matched subject)
      → verify formats yaml gate live rows (applied formats rule_set matched subject kept).output
        ≡ statuses_of formats yaml gate live rows rule_set.ruleset_id
            (digest_of formats rule_set)
            none
            (evidence_for rule_set matched (digest_of formats rule_set) kept.1)
  unfolding verify applied stored_snapshot read_mapping statuses_under statuses_by snapshot_for
  verify-applied rule_set matched subject (artifacts, digest) keeps =
      rw (keeps.writes, keeps.reads, keeps.same_id, keeps.same_hash) refl

module _ (formats : Formats) (yaml : String → Option Json) (gate : RulesGate)
    (rows : List Artifact) where
  -- Stored: the escrow, now with the rows `rows`, still has the rule set.
  pub stored-intact :
      (recorded source h n : String) (c : Bytes)
      → gate.escrow ≡ some true
      → get rows h ≡ some c
      → formats.sha256 c ≡ recorded
      → (ruleset_id : String)
      → status_of formats yaml gate false rows ruleset_id recorded none
          (cite source recorded (some h) n)
        ≡ intact
  unfolding status_of names stored_status status_of_artifact status_of_content cite
  stored-intact recorded source h n c on holds e ruleset_id =
      rw (on, holds, e, (eq_iff recorded recorded).1 refl) refl

  pub live-statuses :
      (ruleset_id recorded source : String) (artifact_hash : Option String)
      (status : EvidenceStatus) (now : Option EvidenceStatus) (listed : List String)
      → seen_now formats yaml gate true rows now ruleset_id recorded ≡ status
      → statuses_of formats yaml gate true rows ruleset_id recorded now
          (map (cite source recorded artifact_hash) listed)
        ≡ map (λ evidence. status) (map (cite source recorded artifact_hash) listed)
  unfolding statuses_of status_of now_after seen_now names cite
  live-statuses ruleset_id recorded source artifact_hash status now [] e = refl
  live-statuses ruleset_id recorded source artifact_hash status now (n ∷ listed) e =
      rw
        (
          (eq_iff recorded recorded).1 refl,
          e,
          live-statuses ruleset_id recorded source artifact_hash status (some status) listed refl,
        )
        refl

  pub put-of-escrowed :
      (rule_set : RuleSet) (decision_id : String) (before : List Artifact)
      (kept : List Artifact × Option String)
      → escrowed formats (some true) rule_set decision_id before ≡ ok kept
      → put formats.sha256 true
          (canonical_ruleset formats rule_set)
          "application/json"
          decision_id
          rules_gate_id
          before
        ≡ ok kept
  unfolding escrowed lift_escrow
  put-of-escrowed rule_set decision_id before kept h = ground arith

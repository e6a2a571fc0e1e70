-- ===== src/Rules/Verify/Intact.antt =====
-- gates/rules/src/rules_gate/gate.py, `verify` of an output that the gate returned.
use mathlib.Core.Path.{subst}
use mathlib.Core.Option.{some-injective}
use decision_ledger.Prelude.{
  ◌≡◌, refl, sym, ◌∙◌, String, true, false, Option, none, some, List, map, ◌==◌, eq_iff,
  if◌then◌else◌, ok, ap,
}
use decision_ledger.Json.{Json}
use decision_ledger.Predicate.{Subject}
use decision_ledger.Gate.{GateVerdict, intact, source_changed}
use decision_ledger.Invocation.{GateRequest}
use decision_ledger.Artifacts.{Bytes, Artifact, is_digest, get}
use decision_ledger.Artifacts.Laws.{is_addressed, put-get}
use decision_ledger.Rules.{
  Rule, RuleSet, Formats, RulesGate, Evaluated, lookup, evaluate_ruleset, applied, evidence_for,
  cite, locators, ref, digest_of, snapshot_for, rules_gate_id, canonical_ruleset,
}
use decision_ledger.Rules.Verdict.{evaluate_ruleset-Applies}
use decision_ledger.Rules.Verify.{
  read_ruleset, status_now, status_of_file, compared, names, now_after, seen_now, verify,
}
use decision_ledger.Rules.Verify.Statuses.{
  KeepsSnapshot, verify-applied, statuses-cite, stored-intact, live-statuses, put-of-escrowed,
}

-- `rows` holds all that `before` holds.
abbrev pub Keeps : List Artifact → List Artifact → Type 0
Keeps before rows = (h : String) (c : Bytes) → get before h ≡ some c → get rows h ≡ some c

module _ (formats : Formats) (yaml : String → Option Json) (gate : RulesGate) (rows : List Artifact)
    (rule_set : RuleSet) (matched : List Rule) (subject : Subject) where
  applied-intact :
      (kept : List Artifact × Option String) (c : Bytes)
      → KeepsSnapshot formats (snapshot_for formats rule_set matched subject)
      → gate.escrow ≡ some true
      → kept.1 ≡ some (digest_of formats rule_set)
      → get rows (digest_of formats rule_set) ≡ some c
      → formats.sha256 c ≡ digest_of formats rule_set
      → verify formats yaml gate false rows (applied formats rule_set matched subject kept).output
        ≡ map (λ evidence. intact) (applied formats rule_set matched subject kept).output.evidence
  unfolding applied evidence_for now_after names cite
  applied-intact (artifacts, digest) c keeps on named held same =
      let recorded = digest_of formats rule_set in
      verify-applied formats yaml gate false rows rule_set matched subject (artifacts, digest) keeps
      ∙ statuses-cite formats yaml gate false rows rule_set.ruleset_id recorded (ref rule_set)
          digest intact none (locators matched)
          (λ n. rw named (
            stored-intact formats yaml gate rows recorded (ref rule_set) recorded n c on held same
              rule_set.ruleset_id))
          (λ n. rw ((eq_iff recorded recorded).1 refl) refl)

  -- Live: what the file of the rule set holds now.
  applied-live :
      (kept : List Artifact × Option String)
      → KeepsSnapshot formats (snapshot_for formats rule_set matched subject)
      → verify formats yaml gate true rows (applied formats rule_set matched subject kept).output
        ≡ map
            (λ evidence.
              status_now formats yaml gate rule_set.ruleset_id (digest_of formats rule_set))
            (applied formats rule_set matched subject kept).output.evidence
  unfolding applied evidence_for status_now seen_now
  applied-live (artifacts, digest) keeps =
      verify-applied formats yaml gate true rows rule_set matched subject (artifacts, digest) keeps
      ∙ live-statuses formats yaml gate rows rule_set.ruleset_id (digest_of formats rule_set)
          (ref rule_set) digest _ none (locators matched) refl

-- An escrow that is on, holds its rows under their digests and drops none proves what the gate
-- relied on: every reference of an output with a verdict, verified against it later, is intact, if
-- the snapshot reads back as it was written and SHA-256 gives digests.
pub verify-evaluate_ruleset :
    (formats : Formats) (yaml : String → Option Json) (gate : RulesGate) (request : GateRequest)
    (artifacts rows : List Artifact) (result : Evaluated) (verdict : GateVerdict)
    → ((c : Bytes) → is_digest (formats.sha256 c) ≡ true)
    → KeepsSnapshot formats result.snapshot
    → gate.escrow ≡ some true
    → is_addressed formats.sha256 artifacts ≡ true
    → evaluate_ruleset formats gate request artifacts ≡ ok result
    → result.output.verdict ≡ some verdict
    → Keeps result.artifacts rows
    → verify formats yaml gate false rows result.output
      ≡ map (λ evidence. intact) result.output.evidence
unfolding applied evidence_for digest_of
verify-evaluate_ruleset formats yaml gate request artifacts rows result verdict hex keeps on
      addressed h v later =
    let a = evaluate_ruleset-Applies formats gate request artifacts result verdict h v in
    let puts =
      put-of-escrowed formats yaml gate rows a.rule_set request.decision_id artifacts a.kept
        (rw on at a.stored) in
    let (named, (c, held, same)) =
      put-get formats.sha256 (canonical_ruleset formats a.rule_set) "application/json"
        request.decision_id rules_gate_id true artifacts (a.kept.0) (a.kept.1) hex addressed puts in
    rw a.returned (
      applied-intact formats yaml gate rows a.rule_set a.matched
        request.submission.reasoner_context.subject a.kept c
        (subst (KeepsSnapshot formats) (ap (λ r. r.snapshot) a.returned) keeps) on named
        (later _ c (rw a.returned held)) same)

-- Verified live, every reference of an output with a verdict is intact if the file that the rule set
-- came from now holds a rule set of the same digest, and changed if it holds another, provided that
-- the snapshot reads back as it was written.
pub verify-live :
    (formats : Formats) (yaml : String → Option Json) (gate : RulesGate) (request : GateRequest)
    (artifacts rows : List Artifact) (result : Evaluated) (verdict : GateVerdict)
    (rule_set now : RuleSet) (path : String)
    → KeepsSnapshot formats result.snapshot
    → evaluate_ruleset formats gate request artifacts ≡ ok result
    → result.output.verdict ≡ some verdict
    → result.snapshot.rule_set ≡ some rule_set
    → lookup rule_set.ruleset_id gate.origins ≡ some path
    → read_ruleset formats yaml path ≡ ok now
    → verify formats yaml gate true rows result.output
      ≡ map
          (λ evidence.
            if digest_of formats now == digest_of formats rule_set then intact else source_changed)
          result.output.evidence
unfolding applied snapshot_for status_now status_of_file compared
verify-live formats yaml gate request artifacts rows result verdict rule_set now path keeps h v
      recorded registered read =
    let a = evaluate_ruleset-Applies formats gate request artifacts result verdict h v in
    let same : a.rule_set ≡ rule_set =
      some-injective _ _ (sym (ap (λ r. r.snapshot.rule_set) a.returned) ∙ recorded) in
    rw a.returned (
      applied-live formats yaml gate rows a.rule_set a.matched
        request.submission.reasoner_context.subject a.kept
        (subst (KeepsSnapshot formats) (ap (λ r. r.snapshot) a.returned) keeps)
      ∙ rw (same, registered, read) refl)

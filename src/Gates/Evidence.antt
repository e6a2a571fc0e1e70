-- ===== src/Gates/Evidence.antt =====
-- app/gates.py, `verify_evidence`: asking a gate how the evidence of its output stands.
pub mod Verified
use decision_ledger.Prelude.{
  ℕ, ◌*◌, ◌||◌, Bool, Option, none, some, List, [], ◌∷◌, length, ltb, eqb, if◌then◌else◌,
}
use decision_ledger.Gate.{EvidenceRef, EvidenceStatus, not_verifiable, GateOutput}

-- How `await gate.verify(output, live=live)` ended: its statuses (`none` for what is no status),
-- after how long, and whether the deadline had passed; or an answer that is no sequence; or not at
-- all.
pub data VerifyAnswer : Type 0 where
  answered : List (Option EvidenceStatus) → ℕ → Bool → VerifyAnswer
  no_sequence verify_failed : VerifyAnswer

known : List (Option EvidenceStatus) → Option (List EvidenceStatus)
known [] = some []
known (none ∷ rest) = none
known (some status ∷ rest) = elim (known rest) [
  | none ↦ none
  | some statuses ↦ some (status ∷ statuses)
]

unverifiable : List EvidenceRef → List EvidenceStatus
unverifiable [] = []
unverifiable (evidence ∷ refs) = not_verifiable ∷ unverifiable refs

taken : List EvidenceRef → Option (List EvidenceStatus) → List EvidenceStatus
unfolding unverifiable
taken refs none = unverifiable refs
taken refs (some statuses) =
    if eqb (length statuses) (length refs) then statuses else unverifiable refs

heard : List EvidenceRef → ℕ → VerifyAnswer → List EvidenceStatus
unfolding unverifiable known taken
heard refs budget_ms no_sequence = unverifiable refs
heard refs budget_ms verify_failed = unverifiable refs
heard refs budget_ms (answered statuses elapsed expired) =
    if expired || ltb (budget_ms * 10) elapsed
    then unverifiable refs
    else taken refs (known statuses)

-- `verify_evidence`, of a gate that is composed and verifies, or of one that does not.
unfoldable pub verify_evidence :
    Option (GateOutput → VerifyAnswer) → GateOutput → ℕ → List EvidenceStatus
unfolding heard unverifiable
verify_evidence none output budget_ms = unverifiable output.evidence
verify_evidence (some verify) output budget_ms = heard output.evidence budget_ms (verify output)

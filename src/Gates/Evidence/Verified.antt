-- ===== src/Gates/Evidence/Verified.antt =====
-- app/gates.py, `verify_evidence`: what comes back, whatever the gate answers.
use decision_ledger.Prelude.{
  ◌≡◌, refl, ap, ℕ, ◌*◌, suc, false, Option, none, some, List, [], ◌∷◌, map, length, ltb, arith,
}
use decision_ledger.Gate.{EvidenceRef, EvidenceStatus, GateOutput}
use decision_ledger.Gates.Evidence.{
  VerifyAnswer, answered, no_sequence, verify_failed, known, unverifiable, taken, heard,
  verify_evidence,
}

length-unverifiable : (refs : List EvidenceRef) → length (unverifiable refs) ≡ length refs
unfolding unverifiable
length-unverifiable [] = refl
length-unverifiable (r ∷ refs) = ap suc (length-unverifiable refs)

length-taken :
    (refs : List EvidenceRef) (o : Option (List EvidenceStatus))
    → length (taken refs o) ≡ length refs
unfolding taken
length-taken refs none = length-unverifiable refs
length-taken refs (some statuses) = ground (arith, length-unverifiable refs)

length-heard :
    (refs : List EvidenceRef) (budget_ms : ℕ) (a : VerifyAnswer)
    → length (heard refs budget_ms a) ≡ length refs
unfolding heard
length-heard refs budget_ms no_sequence = length-unverifiable refs
length-heard refs budget_ms verify_failed = length-unverifiable refs
length-heard refs budget_ms (answered statuses elapsed expired) =
    ground (arith, length-unverifiable refs, length-taken refs (known statuses))

-- Whatever a gate answers to `verify`, there is one status for each reference of its output.
pub length-verify_evidence :
    (verify : Option (GateOutput → VerifyAnswer)) (output : GateOutput) (budget_ms : ℕ)
    → length (verify_evidence verify output budget_ms) ≡ length output.evidence
unfolding verify_evidence
length-verify_evidence none output budget_ms = length-unverifiable output.evidence
length-verify_evidence (some verify) output budget_ms =
    length-heard output.evidence budget_ms (verify output)

known-some : (statuses : List EvidenceStatus) → known (map some statuses) ≡ some statuses
unfolding known
known-some [] = refl
known-some (s ∷ statuses) = rw (known-some statuses) refl

-- A gate's answer in time, with one status for each reference, comes back as it was given.
pub verify_evidence-answered :
    (verify : GateOutput → VerifyAnswer) (output : GateOutput) (budget_ms elapsed : ℕ)
    (statuses : List EvidenceStatus)
    → verify output ≡ answered (map some statuses) elapsed false
    → ltb (budget_ms * 10) elapsed ≡ false
    → length statuses ≡ length output.evidence
    → verify_evidence (some verify) output budget_ms ≡ statuses
unfolding verify_evidence heard taken
verify_evidence-answered verify output budget_ms elapsed statuses e soon count =
    rw (e, soon, known-some statuses, count) (ground arith)

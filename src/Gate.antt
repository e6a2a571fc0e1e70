-- ===== src/Gate.antt =====
-- core/gate/verdict.py and core/gate/output.py: what a gate returns. `extra` is stored verbatim
-- and read by nothing in the ledger; it is left out.
use decision_ledger.Prelude.{ℕ, String, Bool, true, Option, none, some, List, [], ◌∷◌, ◌++◌, ◌==◌}
use decision_ledger.Prelude.Number.{Ratio}
use decision_ledger.Actions.{DecisionAction}
use decision_ledger.Json.{Json}

pub record GateVerdict : Type 0 where
  pub gate_id : String
  pub permitted_actions : List DecisionAction
  pub required_controls : List String
  pub confidence : Ratio
  pub escalate_to_human : Bool
  pub escalation_reason : Option String

pub record EvidenceRef : Type 0 where
  pub source_id : String
  pub locator : Option String
  pub jurisdictions : List String
  pub content_hash : Option String
  pub artifact_hash : Option String

pub data EvidenceStatus : Type 0 where
  intact source_changed source_unavailable not_verifiable : EvidenceStatus

pub record GateOutput : Type 0 where
  pub gate_id : String
  pub deterministic : Bool
  pub verdict : Option GateVerdict
  pub evidence : List EvidenceRef
  pub evidence_snapshot : Option Json

-- Why `_output_problem` (app/gates.py) refuses an output. What is not the universal type at all
-- cannot be written here.
pub data OutputProblem : Type 0 where
  for_gate : String → OutputProblem
  declared_otherwise : Bool → OutputProblem
  unstorable : OutputProblem

-- Why a gate was skipped (app/submit.py) or failed (app/gates.py), with the values of the text.
pub data Reason : Type 0 where
  skipped_for_record skipped_for_block : Reason
  not_composed : String → Reason
  timed_out : ℕ → Reason
  ignored_cancellation exceeded_budget : ℕ → ℕ → Reason
  raised_error : String → Reason
  malformed : OutputProblem → Reason

-- `_verdict_belongs_to_this_gate`
unfoldable pub verdict_belongs : GateOutput → Bool
verdict_belongs output = elim output.verdict [
  | none ↦ true
  | some verdict ↦ verdict.gate_id == output.gate_id
]

-- The union of the tags of the references.
unfoldable pub evidence_jurisdictions : List EvidenceRef → List String
evidence_jurisdictions [] = []
evidence_jurisdictions (ref ∷ refs) = ref.jurisdictions ++ evidence_jurisdictions refs

-- ===== src/Submission.antt =====
-- core/submission.py and core/observation/{reasoner_context, gate_context}.py: what a reasoner hands
-- the ledger, the shape rules of the model, and the bypass rules that a record cites. Fields that
-- the ledger stores and never reads (model identity, attribution, raw event) are left out, and so is
-- the validator `_storable`, which refuses text and numbers that Postgres cannot hold.
use decision_ledger.Prelude.{
  ℕ, String, Option, none, some, List, [], ◌∷◌, first, distinct, is_some, ◌==◌, Outcome, ok, raised,
  require, ◌>>◌,
}
use decision_ledger.Actions.{DecisionAction}
use decision_ledger.Predicate.{Subject}
use decision_ledger.Json.{Json}
use decision_ledger.Identity.{Uuid, NativeSubject}

pub data SubmissionMode : Type 0 where
  record_mode gate_mode : SubmissionMode

pub record BypassCitation : Type 0 where
  pub rule_id : String
  pub rule_version : Option String

pub record GateContext : Type 0 where
  pub gate_id : String
  pub gate_config : Option Json

-- The evidence: its `label_value` and `feature_set` are what a predicate reads.
pub record ReasonerContext : Type 0 where
  pub reasoner_id : String
  pub subject : Subject

pub record Submission : Type 0 where
  pub reasoner_id : String
  pub event_id : String
  pub timestamp : ℕ
  pub entity_id : Uuid
  pub entity_type : String
  pub native_subject : Option NativeSubject
  pub mode : SubmissionMode
  pub proposed_action : Option DecisionAction
  pub bypass : Option BypassCitation
  pub reasoner_context : ReasonerContext
  pub gate_contexts : List GateContext

abbrev pub addressed_by : List GateContext → List String
addressed_by [] = []
addressed_by (c ∷ contexts) = c.gate_id ∷ addressed_by contexts

-- The gates that a submission addresses.
abbrev pub addressed : Submission → List String
addressed submission = addressed_by submission.gate_contexts

pub data ShapeViolation : Type 0 where
  record_without_citation record_without_action citation_when_gated : ShapeViolation
  foreign_evidence repeated_context : ShapeViolation

unfoldable pub check_mode_of :
    SubmissionMode
    → Option BypassCitation
    → Option DecisionAction
    → Outcome ShapeViolation (Unit {0})
check_mode_of record_mode bypass proposed = do
  require (is_some bypass) record_without_citation
  require (is_some proposed) record_without_action
check_mode_of gate_mode none proposed = ok tt
check_mode_of gate_mode (some citation) proposed = raised citation_when_gated

-- `_mode_fields_are_consistent`
unfoldable pub check_mode : Submission → Outcome ShapeViolation (Unit {0})
unfolding check_mode_of
check_mode s = check_mode_of s.mode s.bypass s.proposed_action

-- `_one_reasoner_and_one_context_per_gate`
unfoldable pub check_contexts : Submission → Outcome ShapeViolation (Unit {0})
check_contexts s = do
  require (s.reasoner_context.reasoner_id == s.reasoner_id) foreign_evidence
  require (distinct (addressed s)) repeated_context

unfoldable pub check_submission : Submission → Outcome ShapeViolation Submission
unfolding check_mode check_contexts
check_submission s = do check_mode s; check_contexts s; ok s

-- `Submission.gate_context`
unfoldable pub gate_context : Submission → String → Option GateContext
gate_context s gate_id = first (λ c. c.gate_id == gate_id) s.gate_contexts

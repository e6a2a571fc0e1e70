-- ===== src/Bundle.antt =====
-- core/bundle.py and app/audit/bundle.py: the decision record, its validators and its assembly. The
-- latency breakdown is stored and read by nothing; it is left out.
pub mod Laws
use decision_ledger.Prelude.{
  ℕ, String, Bool, true, false, ◌&&◌, ◌||◌, not, Option, none, some, List, [], ◌∷◌, any, contains,
  distinct, is_some, ◌==◌, if◌then◌else◌, Outcome, ok, raised, require, ◌>>=◌, ◌>>◌,
}
use decision_ledger.Actions.{DecisionAction}
use decision_ledger.Gate.{GateOutput, Reason}
use decision_ledger.Identity.{ResolvedIdentity, NativeSubject, same}
use decision_ledger.Submission.{Submission, SubmissionMode, record_mode, gate_mode}
use decision_ledger.Bypass.{BypassCheck}
use decision_ledger.Enforcement.{Rule, LogLine, EnforcementDecision}

pub data GateStatus : Type 0 where
  ran skipped failed : GateStatus

-- `input` is the gate id of the framework's record that it invoked the gate.
pub record GateRecord : Type 0 where
  pub gate_id : String
  pub mandatory : Bool
  pub status : GateStatus
  pub reason : Option Reason
  pub input : Option String
  pub output : Option GateOutput
  pub enforcement : Option EnforcementDecision
  pub duration_ms : Option ℕ

unfoldable pub belongs : GateRecord → Option String → Option GateOutput → Bool
belongs r (some invoked) (some output) = output.gate_id == r.gate_id && invoked == r.gate_id
belongs r _ _ = false

unfoldable pub status_fits : GateRecord → GateStatus → Bool
unfolding belongs
status_fits r ran = belongs r r.input r.output && is_some r.enforcement
status_fits r failed = not (is_some r.output) && is_some r.enforcement && is_some r.reason
status_fits r skipped =
    not (is_some r.input)
    && not (is_some r.output)
    && not (is_some r.enforcement)
    && is_some r.reason

-- `_fields_match_status`
unfoldable pub fields_match_status : GateRecord → Bool
unfolding status_fits
fields_match_status r = status_fits r r.status

-- `enforced_action`
abbrev pub enforced_action : GateRecord → Option DecisionAction
enforced_action r = elim r.enforcement [ none ↦ none | some e ↦ some e.decision_action ]

pub record DecisionBundle : Type 0 where
  pub decision_id : String
  pub created_at : ℕ
  pub submission : Submission
  pub identity : Option ResolvedIdentity
  pub idempotency_key : String
  pub ingestion_timestamp : ℕ
  pub gates : List GateRecord
  pub decision_action : DecisionAction
  pub decision_level_rule : Option Rule
  pub override_log : List LogLine
  pub bypass_rule_holds : Option Bool
  pub bypass_check : Option BypassCheck
  pub other_bypass_checks : List BypassCheck
  pub registration_version : Option String

abbrev pub is_record : SubmissionMode → Bool
is_record record_mode = true
is_record gate_mode = false

abbrev pub holds_of : Option BypassCheck → Option Bool
holds_of none = none
holds_of (some check) = some check.holds

unfoldable pub same_holds : Option Bool → Option Bool → Bool
same_holds none none = true
same_holds (some a) (some b) = same a b
same_holds _ _ = false

unfoldable pub no_checks : List BypassCheck → Bool
no_checks [] = true
no_checks (c ∷ checks) = false

abbrev pub recorded_ids : List GateRecord → List String
recorded_ids [] = []
recorded_ids (r ∷ records) = r.gate_id ∷ recorded_ids records

-- `_record_layer_matches_mode`
unfoldable pub record_layer_matches : DecisionBundle → Bool
unfolding same_holds no_checks
record_layer_matches b =
    same (is_record b.submission.mode) (is_some b.bypass_check)
    && same_holds b.bypass_rule_holds (holds_of b.bypass_check)
    && (no_checks b.other_bypass_checks || is_record b.submission.mode)
    && distinct (recorded_ids b.gates)

unfoldable pub same_text : Option String → Option String → Bool
same_text none none = true
same_text (some a) (some b) = a == b
same_text _ _ = false

abbrev pub namespace_of : Option NativeSubject → Option String
namespace_of none = none
namespace_of (some n) = some n.native_namespace

abbrev pub subject_id_of : Option NativeSubject → Option String
subject_id_of none = none
subject_id_of (some n) = some n.native_subject_id

unfoldable pub names_subject : Option NativeSubject → Option ResolvedIdentity → Bool
unfolding same_text
names_subject native none = true
names_subject native (some i) =
    same_text i.provenance.native_namespace (namespace_of native)
    && same_text i.provenance.native_subject_id (subject_id_of native)

-- `_identity_resolves_the_submitted_subject`
unfoldable pub identity_matches : DecisionBundle → Bool
unfolding names_subject
identity_matches b = names_subject b.submission.native_subject b.identity

pub data BundleViolation : Type 0 where
  record_fields_mismatch record_layer_mismatch identity_mismatch : BundleViolation

unfoldable pub all_fit : List GateRecord → Bool
all_fit [] = true
all_fit (r ∷ records) = fields_match_status r && all_fit records

unfoldable pub check_bundle : DecisionBundle → Outcome BundleViolation DecisionBundle
unfolding all_fit
check_bundle b = do
  require (all_fit b.gates) record_fields_mismatch
  require (record_layer_matches b) record_layer_mismatch
  require (identity_matches b) identity_mismatch
  ok b

-- What the framework knows of a decision beside its layers.
pub record DecisionMeta : Type 0 where
  pub decision_id : String
  pub created_at : ℕ
  pub idempotency_key : String
  pub ingestion_timestamp : ℕ
  pub registration_version : Option String

-- The bundle, before its validators ran.
abbrev pub assembled :
    DecisionMeta
    → Submission
    → Option ResolvedIdentity
    → List GateRecord
    → EnforcementDecision
    → Option BypassCheck
    → List BypassCheck
    → DecisionBundle
assembled about submission identity gates decision bypass_check other_checks = record {
  decision_id = about.decision_id;
  created_at = about.created_at;
  submission = submission;
  identity = identity;
  idempotency_key = about.idempotency_key;
  ingestion_timestamp = about.ingestion_timestamp;
  gates = gates;
  decision_action = decision.decision_action;
  decision_level_rule = decision.enforcement_rule_applied;
  override_log = decision.override_log;
  bypass_rule_holds = holds_of bypass_check;
  bypass_check = bypass_check;
  other_bypass_checks = other_checks;
  registration_version = about.registration_version;
}

unfoldable pub build_bundle :
    DecisionMeta
    → Submission
    → Option ResolvedIdentity
    → List GateRecord
    → EnforcementDecision
    → Option BypassCheck
    → List BypassCheck
    → Outcome BundleViolation DecisionBundle
unfolding check_bundle
build_bundle about submission identity gates decision bypass_check other_checks =
    check_bundle (assembled about submission identity gates decision bypass_check other_checks)

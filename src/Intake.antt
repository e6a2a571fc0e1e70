-- ===== src/Intake.antt =====
-- core/submission.py: the gate set of a decision, and the checks of a submission against its
-- reasoner's registration. The uuid5 derivation of an entity id is a parameter.
pub mod GateSet
pub mod Accepts
use decision_ledger.Prelude.{
  ℕ, String, Bool, true, false, ◌&&◌, ◌||◌, not, Option, none, some, List, [], ◌∷◌, ◌++◌, map,
  contains, ◌==◌, eqb, if◌then◌else◌, Outcome, ok, raised, require, ◌>>=◌, ◌>>◌,
}
use decision_ledger.Prelude.Names.{sorted_set, without}
use decision_ledger.Actions.{DecisionAction, same_action}
use decision_ledger.Json
use decision_ledger.Identity.{Uuid, NativeSubject, NativeNamespace}
use decision_ledger.Registration.{
  GateBinding, BypassRule, ReasonerRegistration, gate_ids, recordable, bypass_rule,
  native_namespace,
}
use decision_ledger.Submission.{
  Submission, SubmissionMode, record_mode, gate_mode, BypassCitation, addressed,
}

-- A registered binding, upgraded when the deployment mandates its gate.
unfoldable pub upgraded : List String → GateBinding → GateBinding
upgraded mandated b =
    if b.mandatory || not (contains mandated b.gate_id) then b else record b { mandatory = true }

unfoldable pub upgrade_all : List String → List GateBinding → List GateBinding
unfolding upgraded
upgrade_all mandated [] = []
upgrade_all mandated (b ∷ bindings) = upgraded mandated b ∷ upgrade_all mandated bindings

-- Mandatory bindings without configuration.
unfoldable pub mandated_only : List String → List GateBinding
mandated_only [] = []
mandated_only (g ∷ gates) =
    record { gate_id = g; mandatory = true; config = Json.object Json.end } ∷ mandated_only gates

unfoldable pub effective_gate_set : ReasonerRegistration → List String → List GateBinding
unfolding upgrade_all mandated_only
effective_gate_set registration mandated =
    upgrade_all mandated registration.gates
    ++ mandated_only (sorted_set (without mandated (gate_ids registration)))

-- The codes of `SubmissionContractError`; its texts are left out.
pub data ContractError : Type 0 where
  submission_invalid bypass_rule_unregistered action_not_recordable : ContractError
  bypass_action_mismatch bypass_rule_version_mismatch native_subject_mismatch : ContractError
  gate_not_bound gate_context_missing no_gates : ContractError
  gate_config_invalid gate_config_unauthorized : ContractError

-- `proposed not in registration.recordable_actions`, for an optional proposal.
pub proposes : (DecisionAction → Bool) → Option DecisionAction → Bool
proposes test none = false
proposes test (some action) = test action

pub pinned_to : String → Option String → Bool
pinned_to version none = true
pinned_to version (some pin) = pin == version

pub check_cited :
    Submission
    → ReasonerRegistration
    → BypassCitation
    → Option BypassRule
    → Outcome ContractError (Option BypassRule)
unfolding proposes pinned_to
check_cited s registration citation none = raised bypass_rule_unregistered
check_cited s registration citation (some rule) = do
  require (proposes (recordable registration) s.proposed_action) action_not_recordable
  require (proposes (same_action rule.action) s.proposed_action) bypass_action_mismatch
  require (pinned_to rule.version citation.rule_version) bypass_rule_version_mismatch
  ok (some rule)

pub check_citation_of :
    Submission
    → ReasonerRegistration
    → SubmissionMode
    → Option BypassCitation
    → Outcome ContractError (Option BypassRule)
unfolding check_cited
check_citation_of s registration record_mode (some citation) =
    check_cited s registration citation (bypass_rule registration citation.rule_id)
check_citation_of s registration _ _ = ok none

-- `_validate_citation`
unfoldable pub validate_citation :
    Submission → ReasonerRegistration → Outcome ContractError (Option BypassRule)
unfolding check_citation_of
validate_citation s registration = check_citation_of s registration s.mode s.bypass

pub is_gated : SubmissionMode → Bool
is_gated record_mode = false
is_gated gate_mode = true

abbrev pub is_empty {ℓ} : {A : Type ℓ} → List A → Bool
is_empty [] = true
is_empty (x ∷ xs) = false

module _ (uuid5 : Uuid → String → Uuid) where
  check_declared : Submission → NativeSubject → Option NativeNamespace → Bool
  check_declared s subject none = true
  check_declared s subject (some namespace) =
      eqb s.entity_id (uuid5 namespace.namespace_uuid subject.native_subject_id)
      && s.entity_type == namespace.entity_type

  check_native : Submission → ReasonerRegistration → Option NativeSubject → Bool
  unfolding check_declared
  check_native s registration none = true
  check_native s registration (some subject) =
      check_declared s subject (native_namespace registration subject.native_namespace)

  -- `_validate_native_subject`
  unfoldable pub validate_native_subject :
      Submission → ReasonerRegistration → Outcome ContractError (Unit {0})
  unfolding check_native
  validate_native_subject s registration =
      require (check_native s registration s.native_subject) native_subject_mismatch

  unfoldable pub validate_submission :
      Submission → ReasonerRegistration → List String → Outcome ContractError (Option BypassRule)
  unfolding is_gated
  validate_submission s registration mandated = do
    require (registration.reasoner_id == s.reasoner_id) submission_invalid
    rule ← validate_citation s registration
    validate_native_subject s registration
    require (is_empty (without (addressed s) (gate_ids registration))) gate_not_bound
    require (is_empty (without (gate_ids registration) (addressed s))) gate_context_missing
    require (not (is_gated s.mode && is_empty (effective_gate_set registration mandated))) no_gates
    ok rule

-- ===== src/Submit.antt =====
-- app/submit.py: the decision path, from the intake of a submission to its bundle.
pub mod Records
pub mod Layers
pub mod Total
pub mod Floors
pub mod Decides
pub mod Replays
pub mod Stored
use decision_ledger.Prelude.{
  ℕ, String, Bool, true, false, ◌&&◌, not, Option, none, some, List, [], ◌∷◌, ◌++◌, any, select,
  is_some, contains, ◌==◌, if◌then◌else◌, Outcome, ok, raised, require, ◌>>=◌, ◌>>◌,
}
use decision_ledger.Actions.{block, same_action}
use decision_ledger.Json
use decision_ledger.Json.{Json}
use decision_ledger.Gate.{GateOutput, Reason, skipped_for_record, skipped_for_block}
use decision_ledger.Identity.{Uuid, ResolvedIdentity}
use decision_ledger.Identity.Step.{ComposedResolver, identify}
use decision_ledger.Registration.{GateBinding, BypassRule, ReasonerRegistration, gate_ids}
use decision_ledger.Registry.{RegistryError, Registry, get}
use decision_ledger.Submission.{
  Submission, SubmissionMode, record_mode, gate_mode, GateContext, ReasonerContext, gate_context,
}
use decision_ledger.Bypass.{BypassCheck, evaluate_bypass, evaluate_competing_rules}
use decision_ledger.Intake.{
  effective_gate_set, ContractError, gate_config_invalid, gate_config_unauthorized,
  validate_submission,
}
use decision_ledger.Enforcement.{EnforcementDecision, resolve_gate_output}
use decision_ledger.Bundle.{
  GateStatus, ran, skipped, failed, GateRecord, enforced_action, DecisionBundle, BundleViolation,
  DecisionMeta, build_bundle,
}
use decision_ledger.Invocation.{
  GateRequest, ComposedGate, composed_gate, GateInvocation, has_run, invoke_gate,
}
use decision_ledger.Decision.{DecisionError, resolve_decision}
use decision_ledger.Store.{StoreError, Codec, Tables, write}

-- What the decision path uses of code outside it: `uuid5`, whether an identity and an output can be
-- stored, the content address of a registration, and the JSON of a bundle.
pub record External : Type 1 where
  pub uuid5 : Uuid → String → Uuid
  pub survives : ResolvedIdentity → Bool
  pub storable : GateOutput → Bool
  pub version_of : ReasonerRegistration → String
  pub codec : Codec

-- The deployment: `gates`, `registry`, the identity service and the budgets.
pub record Deployment : Type 0 where
  pub gates : List ComposedGate
  pub registry : Registry
  pub resolver : Option ComposedResolver
  pub identity_budget_ms : ℕ
  pub gate_budget_ms : ℕ

-- The keyword arguments of one call, with the UUID and the clock readings that it takes.
pub record Call : Type 0 where
  pub decision_id : String
  pub idempotency_key : Option String
  pub ingestion_timestamp : ℕ
  pub resolved_at : ℕ
  pub created_at : ℕ

pub data SubmitError : Type 0 where
  unregistered_reasoner : RegistryError → SubmitError
  contract : ContractError → SubmitError
  decision_error : DecisionError → SubmitError
  bundle_error : BundleViolation → SubmitError
  store_error : StoreError → SubmitError

-- An exception of a callee, as one of `decide`.
abbrev pub lift {ℓ} :
    {E : Type 0} {A : Type ℓ} → (E → SubmitError) → Outcome E A → Outcome SubmitError A
lift wrap (ok a) = ok a
lift wrap (raised e) = raised (wrap e)

-- `frozenset(g for g, c in gates.items() if c.mandatory)`
unfoldable pub mandated_gates : List ComposedGate → List String
mandated_gates [] = []
mandated_gates (g ∷ gates) =
    let rest = mandated_gates gates in if g.mandatory then g.gate_id ∷ rest else rest

addressed_or_empty : String → Option GateContext → GateContext
addressed_or_empty gate_id (some context) = context
addressed_or_empty gate_id none = record { gate_id = gate_id; gate_config = none }

-- The context of a gate, an empty one if the submission has none.
unfoldable pub context_for : Submission → String → GateContext
unfolding addressed_or_empty
context_for s gate_id = addressed_or_empty gate_id (gate_context s gate_id)

-- `gate_context.gate_config or {}`
config_or_empty : Option Json → Json
config_or_empty none = Json.object Json.end
config_or_empty (some config) = config

-- `_validate_gate_config`
unfoldable pub validate_gate_config :
    ComposedGate → GateContext → String → Outcome ContractError (Unit {0})
unfolding config_or_empty
validate_gate_config composed context reasoner_id = do
  require (composed.accepts_config (config_or_empty context.gate_config)) gate_config_invalid
  require (composed.authorizes (config_or_empty context.gate_config) reasoner_id)
      gate_config_unauthorized

validate_composed :
    Submission → GateBinding → Option ComposedGate → Outcome ContractError (Unit {0})
validate_composed s b none = ok tt
validate_composed s b (some composed) =
    validate_gate_config composed (context_for s b.gate_id) s.reasoner_id

-- The loop over the gate set.
unfoldable pub validate_configs :
    List ComposedGate → Submission → List GateBinding → Outcome ContractError (Unit {0})
unfolding validate_composed
validate_configs gates s [] = ok tt
validate_configs gates s (b ∷ bindings) = do
  validate_composed s b (composed_gate gates b.gate_id)
  validate_configs gates s bindings

-- `{binding.gate_id: binding.config for binding in gate_set}`, read at a gate id.
unfoldable pub config_of : List GateBinding → String → Option Json
config_of [] gate_id = none
config_of (b ∷ bindings) gate_id = elim (config_of bindings gate_id) [
  | some config ↦ some config
  | none ↦ if b.gate_id == gate_id then some b.config else none
]

-- `_request`
unfoldable pub request_for :
    Call → ℕ → Submission → List GateBinding → ResolvedIdentity → String → GateRequest
unfolding config_or_empty
request_for call budget s gate_set subject gate_id = record {
  decision_id = call.decision_id;
  submission = s;
  gate_context = context_for s gate_id;
  budget_ms = budget;
  identity = subject;
  binding_config = config_or_empty (config_of gate_set gate_id);
}

-- The record of one invocation, with its gate-level enforcement.
unfoldable pub record_invocation : ReasonerRegistration → GateBinding → GateInvocation → GateRecord
record_invocation registration b invocation = record {
  gate_id = b.gate_id;
  mandatory = b.mandatory;
  status = if has_run invocation then ran else failed;
  reason = invocation.reason;
  input = if invocation.invoked then some b.gate_id else none;
  output = invocation.output;
  enforcement = some (resolve_gate_output invocation.output registration invocation.reason);
  duration_ms = invocation.duration_ms;
}

-- The gates are independent and the records come back in the order of the bindings.
unfoldable pub run_gate_set :
    (GateOutput → Bool)
    → List ComposedGate
    → (String → GateRequest)
    → ReasonerRegistration
    → List GateBinding
    → List GateRecord
run_gate_set storable gates request registration [] = []
run_gate_set storable gates request registration (b ∷ bindings) =
    record_invocation registration b
      (invoke_gate storable (composed_gate gates b.gate_id) (request b.gate_id))
    ∷ run_gate_set storable gates request registration bindings

-- `_skipped`
unfoldable pub skipped_record : Reason → GateBinding → GateRecord
skipped_record reason b = record {
  gate_id = b.gate_id;
  mandatory = b.mandatory;
  status = skipped;
  reason = some reason;
  input = none;
  output = none;
  enforcement = none;
  duration_ms = none;
}

unfoldable pub skip_all : Reason → List GateBinding → List GateRecord
skip_all reason [] = []
skip_all reason (b ∷ bindings) = skipped_record reason b ∷ skip_all reason bindings

-- `_blocked_by_mandatory_gate`
unfoldable pub blocked_by_mandatory_gate : List GateRecord → Bool
blocked_by_mandatory_gate records =
    any (λ r. elim (enforced_action r) [ none ↦ false | some a ↦ same_action a block ]) records

-- The records of the advisory gates, given those of the mandatory ones.
pub advisory_records :
    (List GateBinding → List GateRecord)
    → SubmissionMode
    → Bool
    → List GateBinding
    → List GateRecord
advisory_records run record_mode blocked bindings = skip_all skipped_for_record bindings
advisory_records run gate_mode true bindings = skip_all skipped_for_block bindings
advisory_records run gate_mode false bindings = run bindings

-- The mandatory gates run first, then the advisory ones run or are skipped.
unfoldable pub gate_records :
    (List GateBinding → List GateRecord) → SubmissionMode → List GateBinding → List GateRecord
unfolding advisory_records
gate_records run mode gate_set =
    let mandatory = run (select (λ b. b.mandatory) gate_set) in
    mandatory
    ++ advisory_records run mode (blocked_by_mandatory_gate mandatory)
        (select (λ b. not b.mandatory) gate_set)

pub check_of : Option BypassRule → ReasonerContext → Option BypassCheck
check_of none context = none
check_of (some rule) context = some (evaluate_bypass rule context)

pub competing_of : ReasonerRegistration → Option BypassRule → ReasonerContext → List BypassCheck
competing_of registration none context = []
competing_of registration (some rule) context = evaluate_competing_rules registration rule context

-- `idempotency_key or submission.event_id`
pub key_or_event : Option String → String → String
key_or_event none event_id = event_id
key_or_event (some key) event_id = if key == "" then event_id else key

module _ (ext : External) (deployment : Deployment) where
  -- Identity, gates, enforcement and assembly of an accepted submission.
  unfoldable pub decide_accepted :
      Submission
      → Call
      → ReasonerRegistration
      → Option BypassRule
      → Outcome SubmitError DecisionBundle
  unfolding check_of competing_of key_or_event
  decide_accepted s call registration rule =
      let gate_set = effective_gate_set registration (mandated_gates deployment.gates) in
      let subject =
        identify ext.uuid5 ext.survives deployment.resolver deployment.identity_budget_ms s
          registration call.resolved_at in
      let check = check_of rule s.reasoner_context in
      let competing = competing_of registration rule s.reasoner_context in
      let records =
        gate_records
          (run_gate_set ext.storable deployment.gates
            (request_for call deployment.gate_budget_ms s gate_set subject) registration)
          s.mode gate_set in
      lift decision_error (resolve_decision s records registration check competing) >>= λ decision.
      lift bundle_error (
        build_bundle
          (record {
            decision_id = call.decision_id;
            created_at = call.created_at;
            idempotency_key = key_or_event call.idempotency_key s.event_id;
            ingestion_timestamp = call.ingestion_timestamp;
            registration_version = some (ext.version_of registration);
          })
          s (some subject) records decision check competing)

  -- What `decide` checks before it calls anything: the rule that the submission cites.
  unfoldable pub admit :
      Submission → ReasonerRegistration → Outcome ContractError (Option BypassRule)
  admit s registration = do
    rule ← validate_submission ext.uuid5 s registration (mandated_gates deployment.gates)
    validate_configs deployment.gates s
        (effective_gate_set registration (mandated_gates deployment.gates))
    ok rule

  unfoldable pub decide : Submission → Call → Outcome SubmitError DecisionBundle
  decide s call = do
    registration ← lift unregistered_reasoner (get deployment.registry s.reasoner_id)
    rule ← lift contract (admit s registration)
    decide_accepted s call registration rule

  -- The bundle after it was written to the store.
  unfoldable pub submit :
      Submission
      → Call
      → Tables ext.codec.Document
      → Outcome SubmitError (Tables ext.codec.Document × DecisionBundle)
  submit s call tables = do
    bundle ← decide s call
    tables' ← lift store_error (write ext.codec bundle tables)
    ok (tables', bundle)

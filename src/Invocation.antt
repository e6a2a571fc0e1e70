-- ===== src/Invocation.antt =====
-- app/gates.py: one invocation of a composed gate, and its fail-closed outcomes. The gate is the
-- deployment's, so it is a function; its answer says how the call under the deadline ended. Times
-- are in tenths of a millisecond, as `duration_ms` rounds them. The cancellation of the caller
-- itself ends the decision and is left out.
pub mod Laws
use decision_ledger.Prelude.{
  ℕ, ◌*◌, String, Bool, true, false, ◌&&◌, not, Option, none, some, List, [], ◌∷◌, first, ltb,
  is_some, ◌==◌, if◌then◌else◌,
}
use decision_ledger.Json.{Json}
use decision_ledger.Gate.{
  GateOutput, OutputProblem, for_gate, declared_otherwise, unstorable, Reason, not_composed,
  timed_out, ignored_cancellation, exceeded_budget, raised_error, malformed,
}
use decision_ledger.Identity.{ResolvedIdentity, same}
use decision_ledger.Submission.{Submission, GateContext}

pub record GateRequest : Type 0 where
  pub decision_id : String
  pub submission : Submission
  pub gate_context : GateContext
  pub budget_ms : ℕ
  pub identity : ResolvedIdentity
  pub binding_config : Json

-- How `await composed.gate.evaluate(request)` ended, and after how long.
pub data Answer : Type 0 where
  -- An output, and whether the deadline had passed.
  returned : GateOutput → ℕ → Bool → Answer
  -- An exception of the gate, with its text.
  failed_with : String → ℕ → Answer
  -- Cancelled at the deadline.
  cut_off : ℕ → Answer

-- A composed gate: what its plugin declares, its configuration checks, and its evaluation.
pub record ComposedGate : Type 0 where
  pub gate_id : String
  pub deterministic : Bool
  pub mandatory : Bool
  -- Whether `config_model`, if the plugin declares one, accepts a configuration.
  pub accepts_config : Json → Bool
  -- Whether `authorize_config`, if the gate has one, lets the reasoner send it.
  pub authorizes : Json → String → Bool
  pub evaluate : GateRequest → Answer

-- `gates.get(gate_id)`
unfoldable pub composed_gate : List ComposedGate → String → Option ComposedGate
composed_gate gates gate_id = first (λ g. g.gate_id == gate_id) gates

pub data FailureKind : Type 0 where
  kind_not_composed kind_timeout kind_error kind_malformed_output : FailureKind

pub record GateInvocation : Type 0 where
  pub gate_id : String
  pub output : Option GateOutput
  pub invoked : Bool
  pub failure : Option FailureKind
  pub reason : Option Reason
  pub duration_ms : Option ℕ

-- `GateInvocation.ran`
abbrev pub has_run : GateInvocation → Bool
has_run i = not (is_some i.failure)

-- `_failed`
abbrev pub failed_invocation : String → FailureKind → Reason → Option ℕ → Bool → GateInvocation
failed_invocation gate_id kind reason elapsed invoked = record {
  gate_id = gate_id;
  output = none;
  invoked = invoked;
  failure = some kind;
  reason = some reason;
  duration_ms = elapsed;
}

module _ (storable : GateOutput → Bool) where
  -- `_output_problem`; `storable` stands for `_storage_problem`.
  unfoldable pub output_problem : ComposedGate → GateOutput → Option OutputProblem
  output_problem composed output =
      if not (output.gate_id == composed.gate_id)
      then some (for_gate output.gate_id)
      else if not (same output.deterministic composed.deterministic)
      then some (declared_otherwise output.deterministic)
      else if storable output
      then none
      else some unstorable

  pub kept_output : String → GateOutput → ℕ → Option OutputProblem → GateInvocation
  kept_output gate_id output elapsed (some problem) =
      failed_invocation gate_id kind_malformed_output (malformed problem) (some elapsed) true
  kept_output gate_id output elapsed none = record {
    gate_id = gate_id;
    output = some output;
    invoked = true;
    failure = none;
    reason = none;
    duration_ms = some elapsed;
  }

  pub heard_answer : ComposedGate → GateRequest → Answer → GateInvocation
  unfolding kept_output
  heard_answer composed request (cut_off elapsed) =
      failed_invocation request.gate_context.gate_id kind_timeout (timed_out request.budget_ms)
        (some elapsed) true
  heard_answer composed request (failed_with text elapsed) =
      failed_invocation request.gate_context.gate_id kind_error (raised_error text) (some elapsed)
        true
  heard_answer composed request (returned output elapsed expired) =
      if expired
      then failed_invocation request.gate_context.gate_id kind_timeout
          (ignored_cancellation request.budget_ms elapsed) (some elapsed) true
      else if ltb (request.budget_ms * 10) elapsed
      then failed_invocation request.gate_context.gate_id kind_timeout
          (exceeded_budget elapsed request.budget_ms) (some elapsed) true
      else kept_output request.gate_context.gate_id output elapsed (output_problem composed output)

  unfoldable pub invoke_gate : Option ComposedGate → GateRequest → GateInvocation
  unfolding heard_answer
  invoke_gate none request =
      failed_invocation request.gate_context.gate_id kind_not_composed
        (not_composed request.gate_context.gate_id) none false
  invoke_gate (some composed) request = heard_answer composed request (composed.evaluate request)

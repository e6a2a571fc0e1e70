-- ===== src/Gates.antt =====
-- app/gates.py: composing the gates of a deployment and checking that they serve the registrations.
-- A plugin is what its attributes are found to be and what its `build` returns; `close` of a gate is
-- the name of the gate in a list.
pub mod Evidence
pub mod Serves
use decision_ledger.Prelude.{
  ℕ, ◌*◌, String, Bool, true, false, not, ◌&&◌, ◌||◌, Option, none, some, is_some, List, [], ◌∷◌,
  ◌++◌, map, all, first, length, contains, ltb, eqb, ◌==◌, if◌then◌else◌, Outcome, ok, raised,
  require, ◌>>=◌, ◌>>◌,
}
use decision_ledger.Prelude.Names.{sorted_set, without}
use decision_ledger.Json
use decision_ledger.Json.{Json}
use decision_ledger.Gate.{EvidenceRef, EvidenceStatus, not_verifiable, GateOutput}
use decision_ledger.Registration.{GateBinding, ReasonerRegistration, gate_ids}
use decision_ledger.Invocation.{ComposedGate}

-- A composed gate with what it and its plugin say of bindings.
pub record ServedGate : Type 0 where
  pub composed : ComposedGate
  -- Which configurations `binding_config_model`, if the plugin declares one, accepts.
  pub binding_config_model : Option (Json → Bool)
  -- Which bindings `validate_binding`, if the gate has one, accepts.
  pub validate_binding : Option (String → Json → Bool)
  -- Whom the gate says it serves, if it says so.
  pub serves : Option (String → Bool)

-- The reasons of a `GatePluginError`.
pub data GateSetProblem : Type 0 where
  mandatory_not_composed refuses_empty_config refuses_binding : GateSetProblem
  does_not_serve malformed_plugin duplicate_gate not_a_gate build_failed : GateSetProblem

pub data GatePluginError : Type 0 where
  plugin_error : String → GateSetProblem → GatePluginError
  mandates_missing : List String → GatePluginError

-- `gates.get(gate_id)`
unfoldable pub served_gate : List ServedGate → String → Option ServedGate
served_gate gates gate_id = first (λ g. g.composed.gate_id == gate_id) gates

accepts : Option (Json → Bool) → Json → Bool
accepts none config = true
accepts (some model) config = model config

is_empty_config : Json → Bool
is_empty_config (Json.object Json.end) = true
is_empty_config _ = false

-- The gate's own word on a binding; without one, and without a model, only an empty configuration.
gate_admits : Option (String → Json → Bool) → Bool → String → Json → Bool
unfolding is_empty_config
gate_admits (some validates) modelled reasoner_id config = validates reasoner_id config
gate_admits none modelled reasoner_id config = modelled || is_empty_config config

-- `admit_binding`
unfoldable pub admit_binding : ServedGate → GateBinding → String → Bool
unfolding accepts gate_admits
admit_binding g b reasoner_id =
    accepts g.binding_config_model b.config
    && gate_admits g.validate_binding (is_some g.binding_config_model) reasoner_id b.config

-- `_check_unbound_mandate`
unfoldable pub takes_empty_config : ServedGate → String → Bool
unfolding accepts
takes_empty_config g reasoner_id =
    accepts g.binding_config_model (Json.object Json.end)
    && g.composed.accepts_config (Json.object Json.end)
    && g.composed.authorizes (Json.object Json.end) reasoner_id

is_served : Option (String → Bool) → String → Bool
is_served none reasoner_id = true
is_served (some serves) reasoner_id = serves reasoner_id

module _ (registration : ReasonerRegistration) (gates : List ServedGate) where
  -- The first loop of `check_gate_set`.
  unfoldable pub check_composed : List GateBinding → Outcome GatePluginError (Unit {0})
  check_composed [] = ok tt
  check_composed (b ∷ bindings) = do
    require (is_some (served_gate gates b.gate_id) || not b.mandatory)
        (plugin_error b.gate_id mandatory_not_composed)
    check_composed bindings

  -- The second loop.
  unfoldable pub check_unbound : List ServedGate → Outcome GatePluginError (Unit {0})
  check_unbound [] = ok tt
  check_unbound (g ∷ rest) = do
    require
        (not g.composed.mandatory
          || contains (gate_ids registration) g.composed.gate_id
          || takes_empty_config g registration.reasoner_id)
        (plugin_error g.composed.gate_id refuses_empty_config)
    check_unbound rest

  check_admitted : GateBinding → Option ServedGate → Outcome GatePluginError (Unit {0})
  unfolding is_served
  check_admitted b none = ok tt
  check_admitted b (some g) = do
    require (admit_binding g b registration.reasoner_id) (plugin_error b.gate_id refuses_binding)
    require (is_served g.serves registration.reasoner_id) (plugin_error b.gate_id does_not_serve)

  -- The third loop.
  unfoldable pub check_bound : List GateBinding → Outcome GatePluginError (Unit {0})
  unfolding check_admitted
  check_bound [] = ok tt
  check_bound (b ∷ bindings) = do
    check_admitted b (served_gate gates b.gate_id)
    check_bound bindings

  unfoldable pub check_gate_set : Outcome GatePluginError (Unit {0})
  check_gate_set = do
    check_composed registration.gates
    check_unbound gates
    check_bound registration.gates

-- `_check_gate_sets`
unfoldable pub check_gate_sets :
    List ReasonerRegistration → List ServedGate → Outcome GatePluginError (Unit {0})
check_gate_sets [] gates = ok tt
check_gate_sets (r ∷ rs) gates = do check_gate_set r gates; check_gate_sets rs gates

pub data Built : Type 0 where
  built : ServedGate → Built
  no_gate build_raised : Built

pub record GatePlugin : Type 0 where
  pub gate_id : String
  -- Whether `check_gate_plugin` finds its attributes well formed.
  pub well_formed : Bool
  pub build : Built

-- How the loop of `build_gates` ended: the gates composed until then, and after an error the object
-- that was rejected, if there was one.
pub data Building : Type 0 where
  composed_all : List ServedGate → Building
  stopped : GatePluginError → List String → List ServedGate → Building

-- The gate is filed under its plugin's id.
composed_as : List String → String → ServedGate → ServedGate
composed_as mandated gate_id g = record g {
  composed = record (g.composed) { gate_id = gate_id; mandatory = contains mandated gate_id };
}

build_one : List String → GatePlugin → List ServedGate → Built → Building
unfolding composed_as
build_one mandated plugin gates (built g) =
    composed_all (gates ++ composed_as mandated plugin.gate_id g ∷ [])
build_one mandated plugin gates no_gate =
    stopped (plugin_error plugin.gate_id not_a_gate) (plugin.gate_id ∷ []) gates
build_one mandated plugin gates build_raised =
    stopped (plugin_error plugin.gate_id build_failed) [] gates

-- The body of the loop.
build_plugin : List String → GatePlugin → List ServedGate → Building
unfolding build_one
build_plugin mandated plugin gates =
    if not plugin.well_formed
    then stopped (plugin_error plugin.gate_id malformed_plugin) [] gates
    else if is_some (served_gate gates plugin.gate_id)
    then stopped (plugin_error plugin.gate_id duplicate_gate) [] gates
    else build_one mandated plugin gates plugin.build

and_then : Building → (List ServedGate → Building) → Building
and_then (stopped e rejected gates) next = stopped e rejected gates
and_then (composed_all gates) next = next gates

unfoldable pub build_each : List String → List GatePlugin → List ServedGate → Building
unfolding build_plugin and_then
build_each mandated [] gates = composed_all gates
build_each mandated (plugin ∷ plugins) gates =
    and_then (build_plugin mandated plugin gates) (build_each mandated plugins)

-- The ids of gates, the last one first.
unfoldable pub reversed_ids : List ServedGate → List String
reversed_ids [] = []
reversed_ids (g ∷ gates) = reversed_ids gates ++ g.composed.gate_id ∷ []

-- The result of `build_gates`, and the gates that were closed in it.
pub record BuildResult : Type 0 where
  pub outcome : Outcome GatePluginError (List ServedGate)
  pub closed : List String

checked_sets : List ServedGate → Outcome GatePluginError (Unit {0}) → BuildResult
checked_sets gates (ok done) = record { outcome = ok gates; closed = [] }
checked_sets gates (raised e) = record { outcome = raised e; closed = reversed_ids gates }

concluded : List ReasonerRegistration → Building → BuildResult
unfolding checked_sets
concluded registrations (stopped e rejected gates) = record {
  outcome = raised e;
  closed = rejected ++ reversed_ids gates;
}
concluded registrations (composed_all gates) =
    checked_sets gates (check_gate_sets registrations gates)

plugin_ids : List GatePlugin → List String
plugin_ids = map (λ p. p.gate_id)

built_if_known :
    List GatePlugin → List ReasonerRegistration → List String → List String → BuildResult
unfolding concluded
built_if_known plugins registrations mandated [] =
    concluded registrations (build_each mandated plugins [])
built_if_known plugins registrations mandated (m ∷ missing) = record {
  outcome = raised (mandates_missing (m ∷ missing));
  closed = [];
}

-- `build_gates`
unfoldable pub build_gates : List GatePlugin → List ReasonerRegistration → List String → BuildResult
unfolding built_if_known plugin_ids
build_gates plugins registrations mandatory =
    built_if_known plugins registrations mandatory
      (sorted_set (without mandatory (plugin_ids plugins)))

-- The gates that `close_gates` closed, in order, and the first of their errors.
pub record CloseResult (E : Type 0) : Type 0 where
  pub closed : List String
  pub error : Option E

or_else : {E : Type 0} → Option E → Option E → Option E
or_else none e = e
or_else (some e) later = some e

close_after : {E : Type 0} → (String → Option E) → CloseResult E → List String → CloseResult E
unfolding or_else
close_after close result [] = result
close_after close result (gate_id ∷ rest) =
    close_after close
      (record {
        closed = result.closed ++ gate_id ∷ [];
        error = or_else result.error (close gate_id);
      })
      rest

-- `close_gates`: `close` is what closing a gate raises, if anything.
unfoldable pub close_gates : {E : Type 0} → (String → Option E) → List ServedGate → CloseResult E
unfolding close_after
close_gates close gates =
    close_after close (record { closed = []; error = none }) (reversed_ids gates)

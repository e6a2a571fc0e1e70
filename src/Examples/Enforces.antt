-- ===== src/Examples/Enforces.antt =====
-- Runs of the enforcement of one gate, and of one invocation.
use decision_ledger.Prelude.{
  ◌≤◌, ◌<◌, min, ◌≡◌, refl, true, false, none, some, [], ◌∷◌, arith, distinct,
}
use decision_ledger.Actions.{challenge, hold, block, severity}
use decision_ledger.Gate.{GateOutput, GateVerdict}
use decision_ledger.Submission.{gate_mode}
use decision_ledger.Enforcement.{resolve_gate_output, most_conservative}
use decision_ledger.Enforcement.Bounds.{
  LetsThrough, resolve_gate_output-LetsThrough, resolve_gate_output-never_relaxes,
}
use decision_ledger.Bundle.{all_fit, recorded_ids}
use decision_ledger.Invocation.{invoke_gate}
use decision_ledger.Invocation.Laws.{Ended, invoke_gate-Ended}
use decision_ledger.Submit.{gate_records, run_gate_set}
use decision_ledger.Submit.Layers.{gate_records-fit}
use decision_ledger.Examples.Data.{
  cards, output_of, verdict_of, late_gate, gate_of, bind_velocity, mandatory_aml, request,
}

mild :
    severity
      (resolve_gate_output (some (output_of "velocity" challenge)) cards none).decision_action
    < 2
unfolding resolve_gate_output most_conservative
mild = omega arith

resolve_gate_output-LetsThrough_example :
    (o : GateOutput) × (some (output_of "velocity" challenge) ≡ some o)
    × ((v : GateVerdict) × LetsThrough o cards
          (resolve_gate_output (some (output_of "velocity" challenge)) cards none).decision_action
          v)
resolve_gate_output-LetsThrough_example =
    resolve_gate_output-LetsThrough (some (output_of "velocity" challenge)) cards none mild

resolve_gate_output-never_relaxes_example :
    min 2 (severity (most_conservative (block ∷ [])))
    ≤ severity (resolve_gate_output (some (output_of "velocity" block)) cards none).decision_action
resolve_gate_output-never_relaxes_example =
    resolve_gate_output-never_relaxes (output_of "velocity" block) (verdict_of "velocity" block)
      cards none refl

invoke_gate-Ended_example :
    Ended
      (λ output. true)
      request
      (some late_gate)
      (invoke_gate (λ output. true) (some late_gate) request)
invoke_gate-Ended_example = invoke_gate-Ended (λ output. true) request (some late_gate)

gate_records-fit_example :
    (all_fit (
        gate_records
          (run_gate_set
            (λ output. true)
            (gate_of "velocity" false hold ∷ late_gate ∷ [])
            (λ gate_id. request)
            cards)
          gate_mode
          (bind_velocity ∷ mandatory_aml ∷ []))
      ≡ true)
    × (recorded_ids (
          gate_records
            (run_gate_set
              (λ output. true)
              (gate_of "velocity" false hold ∷ late_gate ∷ [])
              (λ gate_id. request)
              cards)
            gate_mode
            (bind_velocity ∷ mandatory_aml ∷ []))
        ≡ "aml" ∷ "velocity" ∷ [])
    × (distinct (
          recorded_ids (
            gate_records
              (run_gate_set
                (λ output. true)
                (gate_of "velocity" false hold ∷ late_gate ∷ [])
                (λ gate_id. request)
                cards)
              gate_mode
              (bind_velocity ∷ mandatory_aml ∷ [])))
        ≡ true)
gate_records-fit_example =
    gate_records-fit (λ output. true) (gate_of "velocity" false hold ∷ late_gate ∷ [])
      (λ gate_id. request) cards gate_mode (bind_velocity ∷ mandatory_aml ∷ []) refl

-- ===== src/Examples/Decides.antt =====
-- Runs of the decision path.
use decision_ledger.Prelude.{◌≡◌, refl, none, ok}
use decision_ledger.Prelude.Names.{dedupe, insert_name, sort_names, sorted_set, without}
use decision_ledger.Bundle.{DecisionBundle}
use decision_ledger.Registration.{check_registration, native_namespace}
use decision_ledger.Registry.{get, entry, find}
use decision_ledger.Submission.{check_submission, check_mode, check_mode_of, check_contexts}
use decision_ledger.Intake.{
  validate_submission, validate_citation, validate_native_subject, effective_gate_set,
}
use decision_ledger.Invocation.{composed_gate}
use decision_ledger.Submit.{decide, admit, validate_configs, mandated_gates, validate_gate_config}
use decision_ledger.Submit.Total.{decide-total}
use decision_ledger.Submit.Replays.{decide-replay, Replays}
use decision_ledger.Examples.Data.{cards, payment, library, deployment, call}

payment-shape : check_submission payment ≡ ok payment
unfolding check_submission check_mode check_mode_of check_contexts
payment-shape = refl

cards-consistent : check_registration cards ≡ ok cards
unfolding check_registration
cards-consistent = refl

cards-served : get deployment.registry "cards" ≡ ok cards
unfolding get entry find
cards-served = refl

payment-admitted : admit library deployment payment cards ≡ ok none
unfolding admit validate_submission validate_citation validate_native_subject native_namespace
    without effective_gate_set validate_configs composed_gate mandated_gates validate_gate_config
    sorted_set dedupe insert_name sort_names
payment-admitted = refl

decide-total_example : (b : DecisionBundle) × (decide library deployment payment call ≡ ok b)
decide-total_example =
    decide-total library deployment payment call cards none payment-shape cards-consistent
      cards-served payment-admitted

pub decided_payment : (b : DecisionBundle) × (decide library deployment payment call ≡ ok b)
decided_payment =
    decide-total library deployment payment call cards none payment-shape cards-consistent
      cards-served payment-admitted

decide-replay_example : Replays library deployment payment call cards decided_payment.0
decide-replay_example =
    decide-replay library deployment payment call decided_payment.0 cards decided_payment.1
      cards-served

-- ===== src/Examples/Fails.antt =====
-- A run of the decision path with a mandatory gate that times out.
use mathlib.Core.List.{Mem, mem-cons}
use mathlib.Core.Logic.Or
use mathlib.Core.Path.{subst}
use decision_ledger.Prelude.{
  ◌≡◌, refl, sym, ap, ◌∙◌, ◌≤◌, true, none, some, [], ◌∷◌, ok, ok-injective,
}
use decision_ledger.Prelude.Names.{dedupe, insert_name, sort_names, sorted_set, without}
use decision_ledger.Actions.{hold, severity}
use decision_ledger.Gate.{timed_out}
use decision_ledger.Registry.{get, entry, find}
use decision_ledger.Intake.{effective_gate_set}
use decision_ledger.Enforcement.{
  EnforcementDecision, tier1_schema_failure, schema_failed, resolve_gate_output,
}
use decision_ledger.Bundle.{DecisionBundle, GateRecord, failed}
use decision_ledger.Invocation.{composed_gate, invoke_gate}
use decision_ledger.Submit.{
  gate_records, run_gate_set, record_invocation, mandated_gates, request_for, context_for,
}
use decision_ledger.Submit.Decides.{Decided, decide-Decided, records_of, bundle_of}
use decision_ledger.Submit.Floors.{decide-fails_closed}
use decision_ledger.Examples.Data.{cards, payment, library, deployment, call}
use decision_ledger.Examples.Decides.{decided_payment}

abbrev closed : EnforcementDecision
closed = record {
  decision_action = hold;
  enforcement_rule_applied = some tier1_schema_failure;
  override_log = schema_failed (some (timed_out 500)) ∷ [];
}

abbrev aml_failed : GateRecord
aml_failed = record {
  gate_id = "aml";
  mandatory = true;
  status = failed;
  reason = some (timed_out 500);
  input = some "aml";
  output = none;
  enforcement = some closed;
  duration_ms = some 5000;
}

aml_recorded : Mem aml_failed (records_of library deployment payment call cards)
unfolding gate_records run_gate_set record_invocation invoke_gate composed_gate effective_gate_set
    mandated_gates sorted_set dedupe insert_name sort_names without request_for context_for
    resolve_gate_output
aml_recorded = mem-cons.1 (Or.inl refl)

abbrev made : Decided library deployment payment call decided_payment.0
made = decide-Decided library deployment payment call decided_payment.0 decided_payment.1

cards-served : get deployment.registry "cards" ≡ ok cards
unfolding get entry find
cards-served = refl

gates-eq : records_of library deployment payment call cards ≡ decided_payment.0.gates
unfolding bundle_of
gates-eq =
    ap (records_of library deployment payment call) (ok-injective (sym cards-served ∙ made.served))
    ∙ ap (λ (b : DecisionBundle). b.gates) made.bundle

aml_listed : Mem aml_failed decided_payment.0.gates
aml_listed = subst (Mem aml_failed) gates-eq aml_recorded

decide-fails_closed_example : severity hold ≤ severity decided_payment.0.decision_action
decide-fails_closed_example =
    decide-fails_closed library deployment payment call decided_payment.0 aml_failed closed
      decided_payment.1 aml_listed refl refl refl

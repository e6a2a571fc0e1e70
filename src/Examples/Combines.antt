-- ===== src/Examples/Combines.antt =====
-- Runs of the combinator and of the decision level.
use mathlib.Core.List.{Mem, mem-cons}
use mathlib.Core.List.Perm
use mathlib.Core.Logic.Or
use decision_ledger.Prelude.{
  ◌≤◌, max, ◌≡◌, ◌≢◌, refl, ◌↔◌, String, Bool, true, false, none, some, List, [], ◌∷◌, ok,
  if◌then◌else◌,
}
use decision_ledger.Actions.{
  DecisionAction, allow, challenge, hold, severity, candidates, most_restrictive,
}
use decision_ledger.Actions.Combinator.{most_restrictive-eq-some_iff}
use decision_ledger.Predicate.{lookup}
use decision_ledger.Bypass.{BypassCheck}
use decision_ledger.Registration.{ReasonerRegistration}
use decision_ledger.Enforcement.{EnforcementDecision}
use decision_ledger.Bundle.{GateRecord, ran}
use decision_ledger.Decision.{resolve_decision, is_novel, advisory_decisions}
use decision_ledger.Decision.Terms.{rank}
use decision_ledger.Decision.Order.{without_log, resolve_decision-perm}
use decision_ledger.Decision.Floors.{resolve_decision-floor}
use decision_ledger.Decision.Exact.{
  mandatory_worst, advisory_worst, justified, resolve_decision-recorded,
}
use decision_ledger.Decision.Gated.{novel_weight, resolve_decision-gated, resolve_decision-novel}
use decision_ledger.Examples.Data.{cards, payment, waved_through, trusted}

most_restrictive-eq-some_iff_example :
    (most_restrictive (some challenge) (hold ∷ []) ≡ some hold) ↔ (
      Mem hold (candidates (some challenge) (hold ∷ []))
      × ((a : DecisionAction)
          → Mem a (candidates (some challenge) (hold ∷ []))
          → severity a ≤ severity hold))
most_restrictive-eq-some_iff_example =
    most_restrictive-eq-some_iff (some challenge) (hold ∷ []) hold

hold_wins : most_restrictive (some challenge) (hold ∷ []) ≡ some hold
unfolding most_restrictive
hold_wins = refl

abbrev enforced_to : DecisionAction → EnforcementDecision
enforced_to action = record {
  decision_action = action;
  enforcement_rule_applied = none;
  override_log = [];
}

abbrev record_of : String → Bool → DecisionAction → GateRecord
record_of gate_id mandatory action = record {
  gate_id = gate_id;
  mandatory = mandatory;
  status = ran;
  reason = none;
  input = some gate_id;
  output = none;
  enforcement = some (enforced_to action);
  duration_ms = none;
}

abbrev two_records : List GateRecord
two_records = record_of "aml" true hold ∷ record_of "velocity" false challenge ∷ []

abbrev tracked : ReasonerRegistration
tracked = record cards { novel_entity_feature = some "age" }

decided_two :
    (d : EnforcementDecision) × (resolve_decision payment two_records cards none [] ≡ ok d)
unfolding resolve_decision most_restrictive
decided_two = (_, refl)

decided_novel :
    (d : EnforcementDecision) × (resolve_decision payment two_records tracked none [] ≡ ok d)
unfolding resolve_decision most_restrictive lookup
decided_novel = (_, refl)

resolve_decision-perm_example :
    without_log (resolve_decision payment two_records cards none [])
    ≡ without_log (
        resolve_decision payment
          (record_of "velocity" false challenge ∷ record_of "aml" true hold ∷ [])
          cards
          none
          [])
resolve_decision-perm_example = resolve_decision-perm payment cards none [] (Perm.swap _ _ _)

resolve_decision-floor_example :
    (rank (some challenge) ≤ severity decided_two.0.decision_action)
    × (severity hold ≤ severity decided_two.0.decision_action)
resolve_decision-floor_example =
    resolve_decision-floor payment two_records cards none [] decided_two.1
      (record_of "aml" true hold) (enforced_to hold) (mem-cons.1 (Or.inl refl)) refl refl

not_novel : is_novel cards payment ≢ some true
unfolding is_novel
not_novel h = cc

resolve_decision-gated_example :
    severity decided_two.0.decision_action
    ≡ max (rank (some challenge)) (max (mandatory_worst two_records) (advisory_worst two_records))
resolve_decision-gated_example =
    resolve_decision-gated payment two_records cards refl decided_two.1 not_novel

young_card : is_novel tracked payment ≡ some true
unfolding is_novel lookup
young_card = refl

resolve_decision-novel_example :
    severity decided_novel.0.decision_action
    ≡ max
        (rank (some challenge))
        (max (mandatory_worst two_records) (novel_weight (advisory_decisions two_records)))
resolve_decision-novel_example =
    resolve_decision-novel payment two_records tracked refl decided_novel.1 young_card

abbrev cited : BypassCheck
cited = record { rule = trusted; observed = []; holds = false; error = none }

decided_record :
    (d : EnforcementDecision) × (resolve_decision waved_through two_records cards (some cited) []
      ≡ ok d)
unfolding resolve_decision most_restrictive
decided_record = (_, refl)

resolve_decision-recorded_example :
    severity decided_record.0.decision_action
    ≡ max
        (severity allow)
        (max (mandatory_worst two_records) (max (if false then 0 else 2) (justified [])))
resolve_decision-recorded_example =
    resolve_decision-recorded waved_through two_records cards [] cited refl refl decided_record.1

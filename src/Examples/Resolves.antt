-- ===== src/Examples/Resolves.antt =====
-- Runs of the resolution journal.
use decision_ledger.Prelude.{◌≡◌, refl, ℕ, String, true, none, some, [], ◌∷◌, ◌++◌, ok}
use decision_ledger.Actions.{DecisionAction, allow, hold, block}
use decision_ledger.Resolution.{
  ResolutionAttempt, human, completed, Journal, record_attempt, realized_action, load_attempts,
  first_terminal,
}
use decision_ledger.Resolution.Laws.{realized_action-stable}

abbrev review : String → ℕ → DecisionAction → ResolutionAttempt
review attempt_id sequence action = record {
  decision_id = "d1";
  attempt_id = attempt_id;
  sequence = sequence;
  started_at = 1;
  completed_at = some 2;
  kind = human none none;
  resolver_id = "ann";
  status = completed;
  resolution_action = some action;
  note = "";
}

abbrev reviewed : Journal
reviewed = review "a" 0 hold ∷ review "b" 1 allow ∷ []

third_recorded :
    record_attempt (λ decision_id. true) (review "c" 2 block) reviewed
    ≡ ok (reviewed ++ review "c" 2 block ∷ [])
unfolding record_attempt
third_recorded = refl

allowed : realized_action reviewed "d1" hold ≡ some allow
unfolding realized_action load_attempts first_terminal
allowed = refl

realized_action-stable_example :
    realized_action (reviewed ++ review "c" 2 block ∷ []) "d1" hold ≡ some allow
realized_action-stable_example =
    realized_action-stable (λ decision_id. true) (review "c" 2 block) reviewed
      (reviewed ++ review "c" 2 block ∷ []) hold allow third_recorded refl allowed

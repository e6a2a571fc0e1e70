-- ===== src/Resolution.antt =====
-- core/resolution and app/audit/resolution_journal.py: the append-only journal of attempts to resolve
-- a decision that is not terminal, and the action that is realized. The table is a list of rows in
-- the order of insertion, with its keys, attempt_id and (decision_id, sequence), and its reference to the
-- table of bundles.
pub mod Laws
use decision_ledger.Prelude.{
  ℕ, String, Bool, true, false, ◌&&◌, Option, none, some, List, [], ◌∷◌, ◌++◌, any, select, eqb,
  leb, ◌==◌, if◌then◌else◌, not, Outcome, ok, raised, require, ◌>>=◌, ◌>>◌,
}
use decision_ledger.Actions.{DecisionAction, allow, challenge, hold, block}

pub data ResolutionStatus : Type 0 where
  pending completed escalated expired : ResolutionStatus

-- The two subclasses of `ResolutionAttempt`, with the fields that they add.
pub data AttemptKind : Type 0 where
  human : Option String → Option String → AttemptKind
  sla_default : String → ℕ → AttemptKind

pub record ResolutionAttempt : Type 0 where
  pub decision_id : String
  pub attempt_id : String
  pub sequence : ℕ
  pub started_at : ℕ
  pub completed_at : Option ℕ
  pub kind : AttemptKind
  pub resolver_id : String
  pub status : ResolutionStatus
  pub resolution_action : Option DecisionAction
  pub note : String

abbrev pub Journal : Type 0
Journal = List ResolutionAttempt

-- The violations of the table's constraints.
pub data JournalError : Type 0 where
  attempt_id_exists unknown_decision : String → JournalError
  attempt_exists : String → ℕ → JournalError

pub same_attempt : ResolutionAttempt → ResolutionAttempt → Bool
same_attempt a b = a.decision_id == b.decision_id && eqb a.sequence b.sequence

-- `record_attempt`; `is_stored` says which decisions the bundles' table holds, for the foreign key.
unfoldable pub record_attempt :
    (String → Bool) → ResolutionAttempt → Journal → Outcome JournalError Journal
unfolding same_attempt
record_attempt is_stored attempt rows = do
  require (not (any (λ a. a.attempt_id == attempt.attempt_id) rows))
      (attempt_id_exists attempt.attempt_id)
  require (not (any (same_attempt attempt) rows))
      (attempt_exists attempt.decision_id attempt.sequence)
  require (is_stored attempt.decision_id) (unknown_decision attempt.decision_id)
  ok (rows ++ attempt ∷ [])

-- One step of `ORDER BY attempt_sequence ASC`.
pub insert_attempt : ResolutionAttempt → List ResolutionAttempt → List ResolutionAttempt
insert_attempt a [] = a ∷ []
insert_attempt a (b ∷ attempts) =
    let rest = insert_attempt a attempts in
    if leb a.sequence b.sequence then a ∷ b ∷ attempts else b ∷ rest

pub in_sequence : List ResolutionAttempt → List ResolutionAttempt
unfolding insert_attempt
in_sequence [] = []
in_sequence (a ∷ attempts) = insert_attempt a (in_sequence attempts)

abbrev pub attempts_of : Journal → String → List ResolutionAttempt
attempts_of rows decision_id = select (λ a. a.decision_id == decision_id) rows

-- `load_attempts`
unfoldable pub load_attempts : Journal → String → List ResolutionAttempt
unfolding in_sequence
load_attempts rows decision_id = in_sequence (attempts_of rows decision_id)

abbrev pub is_terminal : DecisionAction → Bool
is_terminal allow = true
is_terminal challenge = false
is_terminal hold = false
is_terminal block = true

-- The first terminal `resolution_action` of the chain.
unfoldable pub first_terminal : List ResolutionAttempt → Option DecisionAction
first_terminal [] = none
first_terminal (a ∷ attempts) =
    let rest = first_terminal attempts in
    elim a.resolution_action [
      | none ↦ rest
      | some action ↦ if is_terminal action then some action else rest
    ]

-- `realized_action`
unfoldable pub realized_action : Journal → String → DecisionAction → Option DecisionAction
realized_action rows decision_id decision_action =
    if is_terminal decision_action
    then some decision_action
    else first_terminal (load_attempts rows decision_id)

last_status : List ResolutionAttempt → Option ResolutionStatus
last_status [] = none
last_status (a ∷ []) = some a.status
last_status (a ∷ b ∷ attempts) = last_status (b ∷ attempts)

-- `resolution_status`: of the most recent attempt.
unfoldable pub resolution_status : Journal → String → Option ResolutionStatus
unfolding last_status
resolution_status rows decision_id = last_status (load_attempts rows decision_id)

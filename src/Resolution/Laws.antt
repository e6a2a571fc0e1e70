-- ===== src/Resolution/Laws.antt =====
-- app/audit/resolution_journal.py: what later attempts do to the realized action.
use mathlib.Core.Path.{subst}
use decision_ledger.Prelude.{
  String, ◌≡◌, refl, ap, ◌∙◌, ◌≢◌, ◌⊎◌, Bool, true, false, some, List, [], ◌∷◌, ◌++◌, arith, any,
  all, ltb, ◌==◌, eq_iff, and-left, and-right, if◌then◌else◌, ok, ok-injective, not, require,
  >>=-eq-ok,
}
use decision_ledger.Actions.{DecisionAction}
use decision_ledger.Resolution.{
  ResolutionAttempt, Journal, attempt_exists, attempt_id_exists, unknown_decision, same_attempt,
  record_attempt, insert_attempt, in_sequence, attempts_of, load_attempts, is_terminal,
  first_terminal, realized_action,
}

insert_attempt-last :
    (x a : ResolutionAttempt) (attempts : List ResolutionAttempt)
    → ltb x.sequence a.sequence ≡ true
    → insert_attempt x (attempts ++ a ∷ []) ≡ insert_attempt x attempts ++ a ∷ []
unfolding insert_attempt
insert_attempt-last x a [] h = ground arith
insert_attempt-last x a (b ∷ attempts) h = ground (arith, insert_attempt-last x a attempts)

-- An attempt after all the others comes last.
in_sequence-last :
    (a : ResolutionAttempt) (attempts : List ResolutionAttempt)
    → all (λ x. ltb x.sequence a.sequence) attempts ≡ true
    → in_sequence (attempts ++ a ∷ []) ≡ in_sequence attempts ++ a ∷ []
unfolding in_sequence insert_attempt
in_sequence-last a [] h = refl
in_sequence-last a (x ∷ attempts) h =
    ap (insert_attempt x) (in_sequence-last a attempts (and-right (ltb x.sequence a.sequence) _ h))
    ∙ insert_attempt-last x a (in_sequence attempts) (and-left (ltb x.sequence a.sequence) _ h)

attempts_of-append :
    (rows : Journal) (a : ResolutionAttempt) (decision_id : String)
    → attempts_of (rows ++ a ∷ []) decision_id ≡ (
        if a.decision_id == decision_id
        then attempts_of rows decision_id ++ a ∷ []
        else attempts_of rows decision_id)
attempts_of-append [] a decision_id = ground arith
attempts_of-append (x ∷ rows) a decision_id = ground (arith, attempts_of-append rows a decision_id)

first_terminal-append :
    (xs ys : List ResolutionAttempt) (action : DecisionAction)
    → first_terminal xs ≡ some action
    → first_terminal (xs ++ ys) ≡ some action
unfolding first_terminal
first_terminal-append [] ys action h = cc
first_terminal-append (x ∷ xs) ys action h = ground (arith, first_terminal-append xs ys action)

record_attempt-ok :
    (is_stored : String → Bool) (a : ResolutionAttempt) (rows after : Journal)
    → record_attempt is_stored a rows ≡ ok after
    → rows ++ a ∷ [] ≡ after
unfolding record_attempt
record_attempt-ok is_stored a rows after h =
    let (_, _, h1) =
      >>=-eq-ok
        (require (not (any (λ x. x.attempt_id == a.attempt_id) rows))
          (attempt_id_exists a.attempt_id))
        _ h in
    let (_, _, h2) =
      >>=-eq-ok
        (require (not (any (same_attempt a) rows)) (attempt_exists a.decision_id a.sequence)) _
        h1 in
    let (_, _, h3) =
      >>=-eq-ok (require (is_stored a.decision_id) (unknown_decision a.decision_id)) _ h2 in
    ok-injective h3

load_attempts-last :
    (a : ResolutionAttempt) (rows : Journal)
    → all (λ x. ltb x.sequence a.sequence) (attempts_of rows a.decision_id) ≡ true
    → load_attempts (rows ++ a ∷ []) a.decision_id ≡ load_attempts rows a.decision_id ++ a ∷ []
unfolding load_attempts
load_attempts-last a rows later =
    ap in_sequence {y = attempts_of rows a.decision_id ++ a ∷ []} (
      attempts_of-append rows a a.decision_id
      ∙ rw ((eq_iff a.decision_id a.decision_id).1 refl) refl)
    ∙ in_sequence-last a (attempts_of rows a.decision_id) later

kept :
    (terminal : Bool) (taken : DecisionAction) (xs ys : List ResolutionAttempt)
    (action : DecisionAction)
    → (if terminal then some taken else first_terminal xs) ≡ some action
    → (if terminal then some taken else first_terminal (xs ++ ys)) ≡ some action
kept true taken xs ys action h = h
kept false taken xs ys action h = first_terminal-append xs ys action h

module _ (is_stored : String → Bool) (a : ResolutionAttempt) (rows after : Journal) where
  -- Once a decision has a realized action, an attempt that is recorded with a later sequence number
  -- than its others does not change it.
  pub realized_action-stable :
      (decision_action action : DecisionAction)
      → record_attempt is_stored a rows ≡ ok after
      → all (λ x. ltb x.sequence a.sequence) (attempts_of rows a.decision_id) ≡ true
      → realized_action rows a.decision_id decision_action ≡ some action
      → realized_action after a.decision_id decision_action ≡ some action
  unfolding realized_action load_attempts
  realized_action-stable decision_action action h later realized =
      subst (λ rs. realized_action rs a.decision_id decision_action ≡ some action)
        (record_attempt-ok is_stored a rows after h)
        (ap
            (λ chain.
              if is_terminal decision_action then some decision_action else first_terminal chain)
            (load_attempts-last a rows later)
          ∙ kept (is_terminal decision_action) decision_action (load_attempts rows a.decision_id)
              (a ∷ []) action realized)

  -- An attempt that is recorded for one decision changes the chain of no other.
  pub load_attempts-others :
      (decision_id : String)
      → record_attempt is_stored a rows ≡ ok after
      → a.decision_id ≢ decision_id
      → load_attempts after decision_id ≡ load_attempts rows decision_id
  unfolding load_attempts
  load_attempts-others decision_id h other =
      subst (λ rs. load_attempts rs decision_id ≡ load_attempts rows decision_id)
        (record_attempt-ok is_stored a rows after h)
        (ap in_sequence (
          attempts_of-append rows a decision_id
          ∙ unlisted (a.decision_id == decision_id) (λ is_it. other ((eq_iff _ _).0 is_it))))
    where
      unlisted :
          (b : Bool)
          → b ≢ true
          → (if b then attempts_of rows decision_id ++ a ∷ [] else attempts_of rows decision_id)
            ≡ attempts_of rows decision_id
      unlisted true n = absurd (n refl)
      unlisted false n = refl

terminal_only :
    (attempts : List ResolutionAttempt) (action : DecisionAction)
    → first_terminal attempts ≡ some action
    → is_terminal action ≡ true
unfolding first_terminal
terminal_only [] action h = cc
terminal_only (x ∷ attempts) action h = ground (arith, terminal_only attempts action)

-- The realized action of a decision is terminal: `allow` or `block`; and a terminal decision is its
-- own.
pub realized_action-terminal :
    (rows : Journal) (decision_id : String) (decision_action action : DecisionAction)
    → realized_action rows decision_id decision_action ≡ some action
    → (is_terminal action ≡ true)
      × ((is_terminal decision_action ≡ false) ⊎ (action ≡ decision_action))
unfolding realized_action
realized_action-terminal rows decision_id decision_action action h =
    ground (arith, terminal_only (load_attempts rows decision_id) action)

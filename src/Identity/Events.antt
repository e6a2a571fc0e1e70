-- ===== src/Identity/Events.antt =====
-- core/identity.py, the entity journal: its events, the intervals of membership, and their
-- validators. `EntityEvent` keeps what the projection reads; who appended it is left out.
use decision_ledger.Prelude.{
  ℕ, String, Bool, true, false, not, ◌&&◌, Option, none, some, is_some, ltb, eqb, Outcome, ok,
  require, ◌>>◌,
}
use decision_ledger.Identity.{Uuid, same}

pub data EntityEventType : Type 0 where
  merge detach relate unrelate : EntityEventType

pub record EntityEvent : Type 0 where
  pub event_type : EntityEventType
  pub subject_entity_id : Uuid
  pub object_entity_id : Uuid
  pub relationship_type : Option String
  pub effective_at : ℕ

-- `event_type in ("relate", "unrelate")`
abbrev pub is_typed : EntityEventType → Bool
is_typed relate = true
is_typed unrelate = true
is_typed _ = false

-- `event_type in ("relate", "merge")`
abbrev pub opens : EntityEventType → Bool
opens relate = true
opens merge = true
opens _ = false

-- `_well_formed`
unfoldable pub is_well_formed : EntityEvent → Bool
is_well_formed event =
    same (is_typed event.event_type) (is_some event.relationship_type)
    && not (eqb event.subject_entity_id event.object_entity_id)

pub record Membership : Type 0 where
  pub subject_entity_id : Uuid
  pub related_entity_id : Uuid
  pub relationship_type : Option String
  pub valid_from : ℕ
  pub valid_to : Option ℕ

pub data MembershipError : Type 0 where
  ends_before_it_begins links_one_id : MembershipError

ends_after : ℕ → Option ℕ → Bool
ends_after since none = true
ends_after since (some ended) = ltb since ended

-- `_interval_is_ordered`, when a `Membership` is made.
unfoldable pub checked : Membership → Outcome MembershipError Membership
unfolding ends_after
checked m = do
  require (ends_after m.valid_from m.valid_to) ends_before_it_begins
  require (not (eqb m.subject_entity_id m.related_entity_id)) links_one_id
  ok m

-- `current`
abbrev pub is_current : Membership → Bool
is_current m = not (is_some m.valid_to)

-- ===== src/Identity/Projection.antt =====
-- core/identity.py, `project_membership`: the fold of the journal and of the relationships that
-- decisions assert. A dictionary is the list of its entries in the order of insertion.
pub mod Links
pub mod Folds
pub mod Runs
pub mod Ordered
pub mod Chronology
pub mod Current
use Prim.Native.String.{compare}
use text.Mathlib.Text.{is_lt}
use decision_ledger.Prelude.{
  ℕ, suc, String, Bool, true, false, not, ◌&&◌, ◌||◌, Option, none, some, List, [], ◌∷◌, ◌++◌, ltb,
  eqb, ◌==◌, if◌then◌else◌, Outcome, ok, raised, ◌>>=◌,
}
use decision_ledger.Prelude.Sorting.{sort}
use decision_ledger.Identity.{Uuid, RelatedEntity, ResolvedIdentity}
use decision_ledger.Identity.Events.{
  EntityEventType, merge, detach, relate, unrelate, EntityEvent, is_typed, opens, Membership,
  MembershipError, checked,
}

-- One operation, with its place in the order of time.
pub record Operation : Type 0 where
  pub at : ℕ
  pub source : ℕ
  pub position : ℕ
  pub kind : EntityEventType
  pub subject : Uuid
  pub other : Uuid
  pub relationship : Option String

abbrev pub asserted : ℕ → ℕ → Uuid → RelatedEntity → Operation
asserted at position subject related = record {
  at = at;
  source = 0;
  position = position;
  kind = relate;
  subject = subject;
  other = related.entity_id;
  relationship = some related.relationship_type;
}

asserted_by : ℕ → ResolvedIdentity → List RelatedEntity → List Operation
asserted_by position identity [] = []
asserted_by position identity (related ∷ rest) =
    asserted identity.provenance.resolved_at position identity.entity_id related
    ∷ asserted_by position identity rest

asserted_from : ℕ → List ResolvedIdentity → List Operation
unfolding asserted_by
asserted_from position [] = []
asserted_from position (identity ∷ rest) =
    asserted_by position identity identity.related ++ asserted_from (suc position) rest

journal_from : ℕ → List EntityEvent → List Operation
journal_from position [] = []
journal_from position (event ∷ rest) =
    record {
      at = event.effective_at;
      source = 1;
      position = position;
      kind = event.event_type;
      subject = event.subject_entity_id;
      other = event.object_entity_id;
      relationship = event.relationship_type;
    }
    ∷ journal_from (suc position) rest

-- `operation[:3]` of `a` is not after that of `b`.
abbrev pub not_after : Operation → Operation → Bool
not_after a b =
    ltb a.at b.at
    || (eqb a.at b.at
        && (ltb a.source b.source || (eqb a.source b.source && not (ltb b.position a.position))))

-- The operations in the order in which they are applied.
unfoldable pub operations : List EntityEvent → List ResolvedIdentity → List Operation
unfolding asserted_from journal_from
operations events identities = sort not_after (asserted_from 0 identities ++ journal_from 0 events)

-- A key of `opened`: the triple of a relationship, the unordered pair of a merge.
pub data Link : Type 0 where
  related_by : Uuid → Uuid → Option String → Link
  merged_with : Uuid → Uuid → Link

same_relationship : Option String → Option String → Bool
same_relationship none none = true
same_relationship (some a) (some b) = a == b
same_relationship _ _ = false

unfoldable pub same_link : Link → Link → Bool
unfolding same_relationship
same_link (related_by a b r) (related_by c d s) = eqb a c && eqb b d && same_relationship r s
same_link (merged_with a b) (merged_with c d) = (eqb a c && eqb b d) || (eqb a d && eqb b c)
same_link _ _ = false

unfoldable pub link_of : Operation → Link
link_of o =
    if is_typed o.kind
    then related_by o.subject o.other o.relationship
    else merged_with o.subject o.other

-- The value of a key of `opened`.
pub record Opened : Type 0 where
  pub subject : Uuid
  pub other : Uuid
  pub relationship : Option String
  pub since : ℕ

abbrev pub Open : Type 0
Open = List (Link × Opened)

-- `opened.get(link)`
unfoldable pub find_open : Link → Open → Option Opened
find_open link [] = none
find_open link ((key, value) ∷ rest) =
    if same_link key link then some value else find_open link rest

-- `opened.pop(link, None)`, of a dictionary: no key is there twice.
unfoldable pub remove_open : Link → Open → Open
remove_open link [] = []
remove_open link ((key, value) ∷ rest) =
    let others = remove_open link rest in if same_link key link then rest else (key, value) ∷ others

set_default : Option Opened → Link → Opened → Open → Open
set_default (some there) link value opened = opened
set_default none link value opened = opened ++ (link, value) ∷ []

pub record Fold : Type 0 where
  pub opened : Open
  pub intervals : List Membership

closed_at : ℕ → Opened → Membership
closed_at at start = record {
  subject_entity_id = start.subject;
  related_entity_id = start.other;
  relationship_type = start.relationship;
  valid_from = start.since;
  valid_to = some at;
}

close : ℕ → Option Opened → Open → List Membership → Outcome MembershipError Fold
unfolding closed_at
close at none opened intervals = ok (record { opened = opened; intervals = intervals })
close at (some start) opened intervals =
    if ltb start.since at
    then (checked (closed_at at start) >>= λ m.
        ok (record { opened = opened; intervals = intervals ++ m ∷ [] }))
    else ok (record { opened = opened; intervals = intervals })

-- The body of the loop over the operations.
unfoldable pub apply : Operation → Fold → Outcome MembershipError Fold
unfolding set_default close
apply o fold =
    let link = link_of o in
    let there = find_open link fold.opened in
    if opens o.kind
    then ok (record fold {
      opened =
          set_default there link
            (record {
              subject = o.subject;
              other = o.other;
              relationship = o.relationship;
              since = o.at;
            })
            fold.opened;
    })
    else close o.at there (remove_open link fold.opened) fold.intervals

unfoldable pub apply_all : List Operation → Fold → Outcome MembershipError Fold
unfolding apply
apply_all [] fold = ok fold
apply_all (o ∷ os) fold = apply o fold >>= apply_all os

open_interval : Opened → Membership
open_interval o = record {
  subject_entity_id = o.subject;
  related_entity_id = o.other;
  relationship_type = o.relationship;
  valid_from = o.since;
  valid_to = none;
}

open_intervals : Open → Outcome MembershipError (List Membership)
unfolding open_interval
open_intervals [] = ok []
open_intervals ((link, o) ∷ rest) =
    let others = open_intervals rest in do m ← checked (open_interval o); ms ← others; ok (m ∷ ms)

text_or_empty : Option String → String
text_or_empty none = ""
text_or_empty (some text) = text

-- The key of the last sort: the ids, the relationship type and the start.
unfoldable pub not_after_interval : Membership → Membership → Bool
unfolding text_or_empty
not_after_interval m n =
    let left = text_or_empty m.relationship_type in
    let right = text_or_empty n.relationship_type in
    ltb m.subject_entity_id n.subject_entity_id
    || (eqb m.subject_entity_id n.subject_entity_id
        && (ltb m.related_entity_id n.related_entity_id
            || (eqb m.related_entity_id n.related_entity_id
                && (is_lt (compare left right)
                    || (left == right && not (ltb n.valid_from m.valid_from))))))

-- `project_membership`
unfoldable pub project_membership :
    List EntityEvent → List ResolvedIdentity → Outcome MembershipError (List Membership)
unfolding open_intervals
project_membership events identities = do
  fold ← apply_all (operations events identities) (record { opened = []; intervals = [] })
  current ← open_intervals fold.opened
  ok (sort not_after_interval (fold.intervals ++ current))

-- ===== src/Identity/Linked.antt =====
-- core/identity.py, `linked_entities`: the subjects whose decisions belong on one timeline. A set of
-- ids is the list of its elements; the walk over merged ids runs on fuel.
pub mod Ids
pub mod Walk
pub mod Exact
use decision_ledger.Prelude.{
  ℕ, zero, suc, String, Bool, true, false, not, ◌&&◌, ◌||◌, Option, none, some, is_some, List, [],
  ◌∷◌, ◌++◌, any, map, select, eqb, ◌==◌, if◌then◌else◌,
}
use decision_ledger.Identity.{Uuid}
use decision_ledger.Identity.Events.{Membership, is_current}

-- `x in ids`
abbrev pub has : List Uuid → Uuid → Bool
has ids x = any (λ y. eqb y x) ids

unfoldable pub add : Uuid → List Uuid → List Uuid
add x ids = if has ids x then ids else ids ++ x ∷ []

-- `a | b`
unfoldable pub union : List Uuid → List Uuid → List Uuid
unfolding add
union ids [] = ids
union ids (x ∷ xs) = union (add x ids) xs

unfoldable pub add_new : List Uuid → Uuid → List Uuid → List Uuid
unfolding add
add_new seen x reached = if has seen x then reached else add x reached

-- An interval that holds now and has the given relationship, `none` for a merge.
abbrev pub is_link : Option String → Membership → Bool
is_link none m = is_current m && not (is_some m.relationship_type)
is_link (some name) m =
    is_current m && elim m.relationship_type [ none ↦ false | some r ↦ r == name ]

-- `ends & ids`
abbrev pub touches : List Uuid → Membership → Bool
touches ids m = has ids m.subject_entity_id || has ids m.related_entity_id

-- The loop over the intervals: the ends outside `seen` of those links that touch `ids`.
unfoldable pub reached :
    Option String → List Uuid → List Uuid → List Membership → List Uuid → List Uuid
unfolding add_new
reached kind ids seen [] found = found
reached kind ids seen (m ∷ ms) found = reached kind ids seen ms (
    if is_link kind m && touches ids m
    then add_new seen m.related_entity_id (add_new seen m.subject_entity_id found)
    else found)

as_linked : Option String → List Uuid → List (Uuid × Option String)
as_linked kind = map (λ x. (x, kind))

module _ (edges : List Uuid → List Membership) where
  -- `_merged`: `none` when the fuel runs out.
  unfoldable pub merged : ℕ → List Uuid → List Uuid → Option (List Uuid)
  merged fuel seen [] = some seen
  merged zero seen (x ∷ frontier) = none
  merged (suc fuel) seen (x ∷ frontier) =
      let next = reached none (x ∷ frontier) seen (edges (x ∷ frontier)) [] in
      merged fuel (union seen next) next

  also : String → List Uuid → Option (List Uuid) → Option (List (Uuid × Option String))
  unfolding as_linked
  also kind own none = none
  also kind own (some related) =
      some (as_linked none own ++ as_linked (some kind) (select (λ x. not (has own x)) related))

  related_to : ℕ → String → List Uuid → List Uuid → Option (List (Uuid × Option String))
  unfolding also as_linked
  related_to fuel kind own [] = some (as_linked none own)
  related_to fuel kind own (x ∷ neighbors) =
      also kind own (merged fuel (x ∷ neighbors) (x ∷ neighbors))

  around : ℕ → Option String → Option (List Uuid) → Option (List (Uuid × Option String))
  unfolding related_to as_linked
  around fuel include_related none = none
  around fuel none (some own) = some (as_linked none own)
  around fuel (some kind) (some own) =
      related_to fuel kind own (reached (some kind) own own (edges own) [])

  -- `linked_entities`
  unfoldable pub linked_entities : ℕ → Uuid → Option String → Option (List (Uuid × Option String))
  unfolding around
  linked_entities fuel entity_id include_related =
      around fuel include_related (merged fuel (entity_id ∷ []) (entity_id ∷ []))

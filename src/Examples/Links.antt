-- ===== src/Examples/Links.antt =====
-- Runs of the entity journal's projection and of the walk over its intervals.
use decision_ledger.Prelude.{◌≡◌, refl, ℕ, true, none, some, List, [], ◌∷◌, all, ok}
use decision_ledger.Examples.Data.{known_card}
use decision_ledger.Identity.{Uuid, ResolvedIdentity, deterministic, is_valid_identity}
use decision_ledger.Identity.Events.{merge, detach, EntityEvent, Membership, is_well_formed}
use decision_ledger.Identity.Projection.{Operation, project_membership}
use decision_ledger.Identity.Projection.Chronology.{History}
use decision_ledger.Identity.Projection.Current.{Projects, project_membership-Projects}
use decision_ledger.Identity.Linked.Ids.{IsEdges}
use decision_ledger.Identity.Linked.Exact.{Timeline, linked_entities-exact}

abbrev merging : Uuid → Uuid → ℕ → EntityEvent
merging subject object at = record {
  event_type = merge;
  subject_entity_id = subject;
  object_entity_id = object;
  relationship_type = none;
  effective_at = at;
}

-- 1 and 2 are merged and detached again; 1 and 3 stay merged.
abbrev events : List EntityEvent
events = record (merging 1 2 7) { event_type = detach } ∷ merging 1 2 5 ∷ merging 1 3 6 ∷ []

-- A card whose decision says that it belongs to 5.
abbrev owned_card : ResolvedIdentity
owned_card = record known_card {
  entity_id = 0;
  derivation = some (record { namespace_uuid = 7; enterprise_key = "card" });
  provenance = record (known_card.provenance) { method = deterministic; reason = none };
  related = record { relationship_type = "owned_by"; entity_type = "person"; entity_id = 5 } ∷ [];
}

owned_card-is_valid : all (is_valid_identity (λ namespace name. 0)) (owned_card ∷ []) ≡ true
unfolding is_valid_identity
owned_card-is_valid = refl

well_formed : all is_well_formed events ≡ true
unfolding is_well_formed
well_formed = refl

project_membership-Projects_example :
    (os : List Operation) × History events (owned_card ∷ []) os
    × ((ms : List Membership) × (project_membership events (owned_card ∷ []) ≡ ok ms)
        × Projects os ms)
project_membership-Projects_example =
    project_membership-Projects (λ namespace name. 0) events (owned_card ∷ []) well_formed
      owned_card-is_valid

abbrev merged_now : Uuid → Uuid → Membership
merged_now subject other = record {
  subject_entity_id = subject;
  related_entity_id = other;
  relationship_type = none;
  valid_from = 5;
  valid_to = none;
}

abbrev table : List Membership
table =
    merged_now 1 3
    ∷ merged_now 4 3
    ∷ record (merged_now 4 9) { relationship_type = some "owns" }
    ∷ []

whole_table : IsEdges table (λ ids. table)
whole_table = record { sound = λ ids m there. there; complete = λ ids m there now near. there }

linked_entities-exact_example : Timeline table (λ ids. table) whole_table 1 (some "owns")
linked_entities-exact_example =
    linked_entities-exact table (λ ids. table) whole_table 1 (some "owns")

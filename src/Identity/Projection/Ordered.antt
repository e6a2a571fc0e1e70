-- ===== src/Identity/Projection/Ordered.antt =====
-- core/identity.py, `project_membership`: sorting, and the operations that well-formed sources give.
use decision_ledger.Prelude.{
  ◌≡◌, refl, ◌∙◌, ℕ, suc, Bool, true, false, not, List, [], ◌∷◌, ◌++◌, eqb, arith, all, any,
}
use decision_ledger.Intake.GateSet.{all-append}
use decision_ledger.Prelude.Sorting.{all-sort}
use decision_ledger.Identity.{RelatedEntity, ResolvedIdentity}
use decision_ledger.Identity.Events.{EntityEvent, is_well_formed}
use decision_ledger.Identity.Projection.{
  asserted_by, asserted_from, journal_from, not_after, operations,
}
use decision_ledger.Identity.Projection.Folds.{is_operation}

-- The validators of events and identities leave operations that link two ids.
unfoldable pub links_two : ResolvedIdentity → Bool
links_two i = not (any (λ r. eqb r.entity_id i.entity_id) i.related)

all-asserted_by :
    (position : ℕ) (identity : ResolvedIdentity) (rs : List RelatedEntity)
    → any (λ r. eqb r.entity_id identity.entity_id) rs ≡ false
    → all is_operation (asserted_by position identity rs) ≡ true
unfolding asserted_by
all-asserted_by position identity [] h = refl
all-asserted_by position identity (r ∷ rs) h = ground (arith, all-asserted_by position identity rs)

all-asserted_from :
    (position : ℕ) (identities : List ResolvedIdentity)
    → all links_two identities ≡ true
    → all is_operation (asserted_from position identities) ≡ true
unfolding asserted_from links_two
all-asserted_from position [] h = refl
all-asserted_from position (i ∷ is) h =
    rw
      (all-append is_operation (asserted_by position i i.related) (asserted_from (suc position) is))
      (ground (arith, all-asserted_by position i i.related, all-asserted_from (suc position) is))

all-journal_from :
    (position : ℕ) (events : List EntityEvent)
    → all is_well_formed events ≡ true
    → all is_operation (journal_from position events) ≡ true
unfolding journal_from is_well_formed
all-journal_from position [] h = refl
all-journal_from position (e ∷ es) h = ground (arith, all-journal_from (suc position) es)

pub all-operations :
    (events : List EntityEvent) (identities : List ResolvedIdentity)
    → all is_well_formed events ≡ true
    → all links_two identities ≡ true
    → all is_operation (operations events identities) ≡ true
unfolding operations
all-operations events identities h k =
    all-sort not_after is_operation (asserted_from 0 identities ++ journal_from 0 events)
    ∙ (all-append is_operation (asserted_from 0 identities) (journal_from 0 events)
        ∙ rw (all-asserted_from 0 identities k, all-journal_from 0 events h) refl)

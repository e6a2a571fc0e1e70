-- ===== src/Identity/Projection/Chronology.antt =====
-- core/identity.py, `project_membership`: the operations of the fold, described by what asserts them
-- and when.
use mathlib.Core.List.{Memᴰ}
use mathlib.Core.List.Memᴰ
use decision_ledger.Prelude.{
  ◌≡◌, refl, ap, ◌∙◌, ◌↔◌, ◌⊎◌, inl, inr, ◌≤◌, ◌<◌, ℕ, suc, Bool, true, false, some, List, [], ◌∷◌,
  ◌++◌, arith, all,
}
use decision_ledger.Prelude.Sorting.{mem-sort, ordered, ordered-sort}
use decision_ledger.Identity.{RelatedEntity, ResolvedIdentity}
use decision_ledger.Identity.Events.{relate, EntityEvent}
use decision_ledger.Identity.Projection.{
  Operation, asserted_by, asserted_from, journal_from, not_after, operations,
}

-- `(k, x)` is in `enumerate(xs, start)`.
abbrev pub Enumerated : {A : Type 0} → ℕ → List A → ℕ → A → Type 0
Enumerated start [] k x = ⊥
Enumerated start (y ∷ ys) k x = ((k ≡ start) × (x ≡ y)) ⊎ Enumerated (suc start) ys k x

-- What an event of the journal does, and what a decision's identity asserts of a relationship.
abbrev pub of_event : ℕ → EntityEvent → Operation
of_event k e = record {
  at = e.effective_at;
  source = 1;
  position = k;
  kind = e.event_type;
  subject = e.subject_entity_id;
  other = e.object_entity_id;
  relationship = e.relationship_type;
}

abbrev pub of_related : ℕ → ResolvedIdentity → RelatedEntity → Operation
of_related k i r = record {
  at = i.provenance.resolved_at;
  source = 0;
  position = k;
  kind = relate;
  subject = i.entity_id;
  other = r.entity_id;
  relationship = some r.relationship_type;
}

abbrev pub Journalled : ℕ → List EntityEvent → Operation → Type 0
Journalled start events o =
    (k : ℕ) × (e : EntityEvent) × Enumerated start events k e × (o ≡ of_event k e)

abbrev pub Asserted : ℕ → List ResolvedIdentity → Operation → Type 0
Asserted start identities o =
    (k : ℕ) × (i : ResolvedIdentity) × (r : RelatedEntity) × Enumerated start identities k i
    × Memᴰ r i.related
    × (o ≡ of_related k i r)

-- Earlier, or at the same time an assertion before an event, or of the same source at a place that is
-- not after.
abbrev pub NotLater : Operation → Operation → Type 0
NotLater a b =
    (a.at < b.at)
    ⊎ ((a.at ≡ b.at)
        × ((a.source < b.source) ⊎ ((a.source ≡ b.source) × (a.position ≤ b.position))))

abbrev pub IsChronological : List Operation → Type 0
IsChronological [] = Unit {0}
IsChronological (o ∷ os) = ((q : Operation) → Memᴰ q os → NotLater o q) × IsChronological os

-- The operations of the events and of the identities, all of them and no others, in order of time.
pub record History (events : List EntityEvent) (identities : List ResolvedIdentity)
    (os : List Operation) : Type 0 where
  pub in_order : IsChronological os
  pub listed : (o : Operation) → Memᴰ o os ↔ (Asserted 0 identities o ⊎ Journalled 0 events o)

mem-journal_from :
    (start : ℕ) (events : List EntityEvent) (o : Operation)
    → Memᴰ o (journal_from start events) ↔ Journalled start events o
unfolding journal_from
mem-journal_from start [] o = (λ m. absurd (Memᴰ.not-nil m), λ (k, e, never, same). absurd never)
mem-journal_from start (e ∷ es) o = (
  λ m. elim (Memᴰ.cases_cons m) [
    | inl same ↦ (start, e, inl (refl, refl), same)
    | inr later ↦
        let (k, x, there, same) = (mem-journal_from (suc start) es o).0 later in
        (k, x, inr there, same)
  ],
  λ (k, x, there, same). elim there [
    | inl (own, is_e) ↦ Memᴰ.head (rw (← own, ← is_e) same)
    | inr later ↦ Memᴰ.tail ((mem-journal_from (suc start) es o).1 (k, x, later, same))
  ],
)

mem-asserted_by :
    (k : ℕ) (i : ResolvedIdentity) (rs : List RelatedEntity) (o : Operation)
    → Memᴰ o (asserted_by k i rs) ↔ ((r : RelatedEntity) × Memᴰ r rs × (o ≡ of_related k i r))
unfolding asserted_by
mem-asserted_by k i [] o = (λ m. absurd (Memᴰ.not-nil m), λ (r, m, same). absurd (Memᴰ.not-nil m))
mem-asserted_by k i (r ∷ rs) o = (
  λ m. elim (Memᴰ.cases_cons m) [
    | inl same ↦ (r, Memᴰ.head refl, same)
    | inr later ↦
        let (q, there, same) = (mem-asserted_by k i rs o).0 later in (q, Memᴰ.tail there, same)
  ],
  λ (q, m, same). elim (Memᴰ.cases_cons m) [
    | inl e ↦ Memᴰ.head (same ∙ ap (of_related k i) e)
    | inr later ↦ Memᴰ.tail ((mem-asserted_by k i rs o).1 (q, later, same))
  ],
)

mem-asserted_from :
    (start : ℕ) (identities : List ResolvedIdentity) (o : Operation)
    → Memᴰ o (asserted_from start identities) ↔ Asserted start identities o
unfolding asserted_from
mem-asserted_from start [] o =
    (λ m. absurd (Memᴰ.not-nil m), λ (k, i, r, never, m, same). absurd never)
mem-asserted_from start (i ∷ is) o = (
  λ m. elim (Memᴰ.append_cases (asserted_by start i i.related) m) [
    | inl here ↦
        let (r, there, same) = (mem-asserted_by start i i.related o).0 here in
        (start, i, r, inl (refl, refl), there, same)
    | inr later ↦
        let (k, j, r, there, m, same) = (mem-asserted_from (suc start) is o).0 later in
        (k, j, r, inr there, m, same)
  ],
  λ (k, j, r, there, m, same). elim there [
    | inl (own, is_i) ↦
        Memᴰ.append_left _
          ((mem-asserted_by start i i.related o).1 (r, rw is_i at m, rw (own, is_i) at same))
    | inr later ↦
        Memᴰ.append_right (asserted_by start i i.related)
          ((mem-asserted_from (suc start) is o).1 (k, j, r, later, m, same))
  ],
)

all-of :
    {A : Type 0} (p : A → Bool) (xs : List A) (x : A) → all p xs ≡ true → Memᴰ x xs → p x ≡ true
all-of p [] x h m = absurd (Memᴰ.not-nil m)
all-of p (y ∷ ys) x h m = elim (Memᴰ.cases_cons m) [
  | inl e ↦ rw e (ground arith)
  | inr later ↦ all-of p ys x (ground arith) later
]

not_after_total : (a b : Operation) → not_after a b ≡ false → not_after b a ≡ true
not_after_total a b h = ground arith

not_after_trans :
    (a b c : Operation) → not_after a b ≡ true → not_after b c ≡ true → not_after a c ≡ true
not_after_trans a b c h k = ground arith

not_after-NotLater : (a b : Operation) → not_after a b ≡ true → NotLater a b
not_after-NotLater a b h = ground arith

ordered-IsChronological : (os : List Operation) → ordered not_after os ≡ true → IsChronological os
ordered-IsChronological [] h = tt
ordered-IsChronological (o ∷ os) h = (
  λ q m. not_after-NotLater o q (all-of (not_after o) os q (ground arith) m),
  ordered-IsChronological os (ground arith),
)

pub operations-History :
    (events : List EntityEvent) (identities : List ResolvedIdentity)
    → History events identities (operations events identities)
unfolding operations
operations-History events identities =
    let sources = asserted_from 0 identities ++ journal_from 0 events in
    record {
      in_order =
          ordered-IsChronological _
            (ordered-sort not_after not_after_total not_after_trans sources);
      listed = λ o. (
        λ m.
            elim (Memᴰ.append_cases (asserted_from 0 identities)
              ((mem-sort not_after o sources).0 m)) [
                | inl here ↦ inl ((mem-asserted_from 0 identities o).0 here)
                | inr there ↦ inr ((mem-journal_from 0 events o).0 there)
              ],
        λ source. (mem-sort not_after o sources).1 (elim source [
          | inl here ↦ Memᴰ.append_left _ ((mem-asserted_from 0 identities o).1 here)
          | inr there ↦
              Memᴰ.append_right (asserted_from 0 identities) ((mem-journal_from 0 events o).1 there)
        ]),
      );
    }

-- ===== src/Identity/Linked/Walk.antt =====
-- core/identity.py, `linked_entities`: the walk over merged ids ends, and finds exactly the ids that
-- merges join.
use mathlib.Core.List.{Memᴰ}
use decision_ledger.Prelude.{
  ◌≡◌, refl, sym, ◌∙◌, ◌↔◌, ◌<◌, ℕ, zero, suc, Bool, true, false, not, ◌&&◌, ◌||◌, none, some, List,
  [], ◌∷◌, length, eqb, arith, Bool-cases, inl, inr,
}
use mathlib.Core.Option.{some-injective}
use mathlib.Core.Path.{subst}
use mathlib.Core.Logic.{∥∥₁_elim}
use mathlib.Core.Bool.{Bool-set}
use decision_ledger.Identity.{Uuid}
use decision_ledger.Identity.Events.{Membership}
use decision_ledger.Identity.Linked.{has, union, is_link, touches, reached, merged}
use decision_ledger.Identity.Linked.Ids.{
  has-union, is_end, has-reached, IsEdges, ends_of, any-witness, any-of_mem, has-ends_of, unseen,
  unseen-le-length, unseen-lt,
}

-- `m` is a merge that holds now, of `u` and `v`.
abbrev pub joins : Membership → Uuid → Uuid → Bool
joins m u v =
    is_link none m
    && ((eqb m.subject_entity_id u && eqb m.related_entity_id v)
        || (eqb m.subject_entity_id v && eqb m.related_entity_id u))

-- The ids that merges join to some of `seeds`, directly or through others.
pub data Joined (table : List Membership) (seeds : List Uuid) : Uuid → Type 0 where
  seed : {x : Uuid} → has seeds x ≡ true → Joined table seeds x
  step :
      {u v : Uuid}
      → Joined table seeds u
      → (m : Membership) → Memᴰ m table
      → joins m u v ≡ true
      → Joined table seeds v

module _ (table : List Membership) (edges : List Uuid → List Membership)
    (answers : IsEdges table edges) where
  -- What one round reaches.
  abbrev next : List Uuid → List Uuid → List Uuid
  next seen frontier = reached none frontier seen (edges frontier) []

  abbrev new_end : List Uuid → List Uuid → Uuid → Membership → Bool
  new_end seen frontier x m =
      is_link none m && (touches frontier m && (is_end m x && not (has seen x)))

  next-witness :
      (seen frontier : List Uuid) (x : Uuid)
      → has (next seen frontier) x ≡ true
      → (m : Membership) × Memᴰ m table × (new_end seen frontier x m ≡ true)
  next-witness seen frontier x h =
      let (m, listed, new) =
        any-witness (new_end seen frontier x) (edges frontier)
          (sym (has-reached none frontier seen (edges frontier) [] x) ∙ h) in
      (m, answers.sound frontier m listed, new)

  merged-ends :
      (fuel : ℕ) (seen frontier : List Uuid)
      → unseen seen (ends_of table) < fuel
      → (out : List Uuid) × (merged edges fuel seen frontier ≡ some out)
  unfolding merged union
  merged-ends zero seen frontier h = absurd (omega arith)
  merged-ends (suc fuel) seen [] h = (seen, refl)
  merged-ends (suc fuel) seen (x ∷ frontier) h =
      go (merged-ends fuel) (next seen (x ∷ frontier)) refl
    where
      go :
          ((seen frontier : List Uuid)
            → unseen seen (ends_of table) < fuel
            → (out : List Uuid) × (merged edges fuel seen frontier ≡ some out))
          → (more : List Uuid) → next seen (x ∷ frontier) ≡ more
          → (out : List Uuid) × (merged edges fuel (union seen more) more ≡ some out)
      go ih [] e = (seen, refl)
      go ih (y ∷ more) e =
          let new : has (y ∷ more) y ≡ true = ground arith in
          let (m, listed, found) = next-witness seen (x ∷ frontier) y (rw e new) in
          ih (union seen (y ∷ more)) (y ∷ more) (
            omega (
              arith,
              unseen-lt seen (y ∷ more) (ends_of table) y
                  (has-ends_of table m y listed (ground arith)) (ground arith) new,
            ))

has-eq : (ids : List Uuid) (a b : Uuid) → eqb a b ≡ true → has ids a ≡ has ids b
has-eq ids a b h = let e : a ≡ b = ground (arith, h) in rw e refl

-- A new end of a merge that touches the frontier is joined to an id of the frontier.
new_end-joins :
    (seen frontier : List Uuid) (v : Uuid) (m : Membership)
    → ((w : Uuid) → has frontier w ≡ true → has seen w ≡ true)
    → (is_link none m && (touches frontier m && (is_end m v && not (has seen v)))) ≡ true
    → (u : Uuid) × (has frontier u ≡ true) × (joins m u v ≡ true)
new_end-joins seen frontier v m within h = elim (Bool-cases (has frontier m.subject_entity_id)) [
  | inl there ↦ (
    m.subject_entity_id,
    there,
    ground (arith, within m.subject_entity_id there, has-eq seen m.subject_entity_id v),
  )
  | inr absent ↦
      let there : has frontier m.related_entity_id ≡ true = ground arith in
      (
        m.related_entity_id,
        there,
        ground (arith, within m.related_entity_id there, has-eq seen m.related_entity_id v),
      )
]

module _ (table : List Membership) (edges : List Uuid → List Membership)
    (answers : IsEdges table edges) (seeds : List Uuid) where
  record Walking (seen frontier : List Uuid) : Type 0 where
    within : (v : Uuid) → has frontier v ≡ true → has seen v ≡ true
    seeded : (v : Uuid) → has seeds v ≡ true → has seen v ≡ true
    sound : (v : Uuid) → has seen v ≡ true → Joined table seeds v
    closed :
        (u v : Uuid) (m : Membership)
        → has seen u ≡ true
        → has frontier u ≡ false
        → Memᴰ m table
        → joins m u v ≡ true
        → has seen v ≡ true

  -- A merge that joins `v` to an id of the frontier reaches `v`.
  reached-joined :
      (seen frontier : List Uuid) (u v : Uuid) (m : Membership)
      → has frontier u ≡ true
      → has seen v ≡ false
      → Memᴰ m table
      → joins m u v ≡ true
      → has (next table edges answers seen frontier) v ≡ true
  reached-joined seen frontier u v m inside fresh listed joined =
      let touched : touches frontier m ≡ true =
        ground
          (arith, has-eq frontier m.subject_entity_id u, has-eq frontier m.related_entity_id u) in
      let ended : is_end m v ≡ true = ground arith in
      let link : is_link none m ≡ true = ground arith in
      let given = answers.complete frontier m listed (ground arith) touched in
      has-reached none frontier seen (edges frontier) [] v
      ∙ any-of_mem (new_end table edges answers seen frontier v) m (edges frontier) given
          (rw (link, touched, ended, fresh) refl)

  closed-next :
      (seen frontier : List Uuid)
      → Walking seen frontier
      → (u v : Uuid) (m : Membership)
      → has (union seen (next table edges answers seen frontier)) u ≡ true
      → has (next table edges answers seen frontier) u ≡ false
      → Memᴰ m table
      → joins m u v ≡ true
      → has (union seen (next table edges answers seen frontier)) v ≡ true
  closed-next seen frontier w u v m h out listed joined =
      let more = next table edges answers seen frontier in
      has-union v seen more ∙ (elim (Bool-cases (has seen v)) [
        | inl old ↦ rw old refl
        | inr fresh ↦ elim (Bool-cases (has frontier u)) [
          | inl inside ↦
              rw (fresh, reached-joined seen frontier u v m inside fresh listed joined) refl
          | inr outside ↦
              let old : has seen u ≡ true = ground (arith, has-union u seen more) in
              rw (w.closed u v m old outside listed joined) refl
        ]
      ])

  Walking-next :
      (seen frontier : List Uuid)
      → Walking seen frontier
      → Walking
          (union seen (next table edges answers seen frontier))
          (next table edges answers seen frontier)
  Walking-next seen frontier w =
      let more = next table edges answers seen frontier in
      record {
        within = λ v h. rw has-union (ground arith);
        seeded = λ v h. rw has-union (ground (arith, w.seeded v));
        sound = λ v h. elim (Bool-cases (has seen v)) [
          | inl old ↦ w.sound v old
          | inr fresh ↦
              let (m, listed, new) =
                next-witness table edges answers seen frontier v
                  (ground (arith, has-union v seen more)) in
              let (u, there, joined) = new_end-joins seen frontier v m w.within new in
              step (w.sound u (w.within u there)) m listed joined
        ];
        closed = λ u v m h out listed joined. closed-next seen frontier w u v m h out listed joined;
      }

  Walking-merged :
      (fuel : ℕ) (seen frontier out : List Uuid)
      → Walking seen frontier
      → merged edges fuel seen frontier ≡ some out
      → Walking out []
  unfolding merged
  Walking-merged fuel seen [] out w e = subst (λ s. Walking s []) (some-injective _ _ e) w
  Walking-merged zero seen (x ∷ frontier) out w e = cc
  Walking-merged (suc fuel) seen (x ∷ frontier) out w e =
      Walking-merged fuel (union seen (next table edges answers seen (x ∷ frontier)))
        (next table edges answers seen (x ∷ frontier)) out (Walking-next seen (x ∷ frontier) w) e

  Joined-found :
      (out : List Uuid) {x : Uuid} → Walking out [] → Joined table seeds x → has out x ≡ true
  Joined-found out w (seed h) = w.seeded _ h
  Joined-found out w (step {u} {v} before m listed joined) =
      w.closed u v m (Joined-found out w before) refl listed joined

  -- The walk ends within one round more than there are ends of intervals in the table, and finds
  -- exactly the ids that current merges join to the seeds, directly or through others.
  pub merged-exact :
      (out : List Uuid) × (merged edges (suc (length (ends_of table))) seeds seeds ≡ some out)
      × ((x : Uuid) → (has out x ≡ true) ↔ ∥ Joined table seeds x ∥₁)
  merged-exact =
      let (out, ends) =
        merged-ends table edges answers (suc (length (ends_of table))) seeds seeds
          (omega (arith, unseen-le-length seeds (ends_of table))) in
      let w = Walking-merged (suc (length (ends_of table))) seeds seeds out start ends in
      (out, ends, λ x. (λ h. ∣ w.sound x h ∣₁, λ j. ∥∥₁_elim j (Bool-set _ _) (Joined-found out w)))
    where
      start : Walking seeds seeds
      start = record {
        within = λ v h. h;
        seeded = λ v h. h;
        sound = λ v h. seed h;
        closed = λ u v m h out. absurd (both u h out);
      }
        where
          both : (u : Uuid) → has seeds u ≡ true → has seeds u ≡ false → ⊥
          both u h out = cc

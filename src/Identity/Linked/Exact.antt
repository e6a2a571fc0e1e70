-- ===== src/Identity/Linked/Exact.antt =====
-- core/identity.py, `linked_entities`: the subjects that it finds, and how it says that each is
-- linked.
use mathlib.Core.List.{Memᴰ}
use mathlib.Core.List.Memᴰ
use mathlib.Core.Bool.{Bool-set}
use mathlib.Core.Path.{subst}
use mathlib.Core.Option.{some-injective}
use mathlib.Core.Logic.{∥∥₁_elim, ∥∥₁_map, ∥∥₁_prop}
use mathlib.Core.HLevel.{⊥_prop}
use decision_ledger.Prelude.{
  ◌≡◌, refl, sym, ap, ◌∙◌, ◌↔◌, ◌⊎◌, ℕ, suc, String, Bool, true, false, not, ◌&&◌, Option, none,
  some, List, [], ◌∷◌, ◌++◌, select, length, eqb, arith, Bool-cases, inl, inr,
}
use decision_ledger.Identity.{Uuid}
use decision_ledger.Identity.Events.{Membership}
use decision_ledger.Identity.Linked.{
  has, is_link, touches, reached, as_linked, also, related_to, around, linked_entities,
}
use decision_ledger.Identity.Linked.Ids.{
  has-reached, is_end, IsEdges, ends_of, any-witness, any-of_mem,
}
use decision_ledger.Identity.Linked.Walk.{Joined, seed, step, merged-exact}

mem-has : (ids : List Uuid) (x : Uuid) → (has ids x ≡ true) ↔ Memᴰ x ids
mem-has ids x = (
  λ h. let (y, m, e) = any-witness (λ y. eqb y x) ids h in Memᴰ.cast (ground (arith, e)) m,
  λ m. any-of_mem (λ y. eqb y x) x ids m (ground arith),
)

mem-as_linked :
    (kind : Option String) (ids : List Uuid) (x : Uuid) (how : Option String)
    → Memᴰ (x, how) (as_linked kind ids) ↔ (Memᴰ x ids × (how ≡ kind))
unfolding as_linked
mem-as_linked kind ids x how = (
  λ m.
      let (y, listed, e) = Memᴰ.of_map (λ z. (z, kind)) ids m in
      (Memᴰ.cast (ap (λ p. p.0) (sym e)) listed, ap (λ p. p.1) (sym e)),
  λ (listed, e). rw e (Memᴰ.map (λ z. (z, kind)) listed),
)

true-ne-false : {b : Bool} → b ≡ true → b ≡ false → ⊥
true-ne-false e f = cc

mem-select :
    (p : Uuid → Bool) (ids : List Uuid) (x : Uuid)
    → Memᴰ x (select p ids) ↔ (Memᴰ x ids × (p x ≡ true))
mem-select p [] x = (λ m. absurd (Memᴰ.not-nil m), λ m. absurd (Memᴰ.not-nil (m.0)))
mem-select p (y ∷ ys) x = elim (Bool-cases (p y)) [
  | inl holds ↦ rw holds (
    λ m. elim (Memᴰ.cases_cons m) [
      | inl e ↦ (Memᴰ.head e, ap p e ∙ holds)
      | inr t ↦ let (listed, k) = (mem-select p ys x).0 t in (Memᴰ.tail listed, k)
    ],
    λ (m, k). elim (Memᴰ.cases_cons m) [
      | inl e ↦ Memᴰ.head e
      | inr t ↦ Memᴰ.tail ((mem-select p ys x).1 (t, k))
    ],
  )
  | inr fails ↦ rw fails (
    λ m. let (listed, k) = (mem-select p ys x).0 m in (Memᴰ.tail listed, k),
    λ (m, k). elim (Memᴰ.cases_cons m) [
      | inl e ↦ absurd (true-ne-false k (ap p e ∙ fails))
      | inr t ↦ (mem-select p ys x).1 (t, k)
    ],
  )
]

-- One step of the given relationship from the ids of `own`, out of them.
abbrev pub adjoins : String → List Uuid → Uuid → Membership → Bool
adjoins kind own x m = is_link (some kind) m && (touches own m && (is_end m x && not (has own x)))

-- The ids that are one step away, with the ids that merges join to them.
abbrev pub Related : List Membership → String → List Uuid → Uuid → Type 0
Related table kind own x =
    (v : Uuid) × ((m : Membership) × Memᴰ m table × (adjoins kind own v m ≡ true))
    × Joined table (v ∷ []) x

module _ (table : List Membership) (edges : List Uuid → List Membership)
    (answers : IsEdges table edges) where
  abbrev pub fuel : ℕ
  fuel = suc (length (ends_of table))

  abbrev pub neighbors : String → List Uuid → List Uuid
  neighbors kind own = reached (some kind) own own (edges own) []

  neighbor_iff :
      (kind : String) (own : List Uuid) (v : Uuid)
      → (has (neighbors kind own) v ≡ true)
        ↔ ∥ ((m : Membership) × Memᴰ m table × (adjoins kind own v m ≡ true)) ∥₁
  neighbor_iff kind own v = (
    λ h.
        let (m, listed, e) =
          any-witness (adjoins kind own v) (edges own)
            (sym (has-reached (some kind) own own (edges own) [] v) ∙ h) in
        ∣ (m, answers.sound own m listed, e) ∣₁,
    λ near. ∥∥₁_elim near (Bool-set _ _) (λ (m, listed, e).
        has-reached (some kind) own own (edges own) [] v
        ∙ any-of_mem (adjoins kind own v) m (edges own)
            (answers.complete own m listed (ground arith) (ground arith)) e),
  )

  -- What merges join to some neighbor, they join to one of them.
  Joined-one :
      (kind : String) (own : List Uuid) {x : Uuid}
      → Joined table (neighbors kind own) x
      → ∥ Related table kind own x ∥₁
  Joined-one kind own (seed {x} h) =
      ∥∥₁_map ((neighbor_iff kind own x).0 h) (λ near. (x, near, seed (ground arith)))
  Joined-one kind own (step before m listed e) =
      ∥∥₁_map (Joined-one kind own before) (λ (v, near, j). (v, near, step j m listed e))

  Joined-all :
      (kind : String) (own : List Uuid) (v : Uuid) {x : Uuid}
      → has (neighbors kind own) v ≡ true
      → Joined table (v ∷ []) x
      → Joined table (neighbors kind own) x
  Joined-all kind own v near (seed {x} h) = seed (let e : v ≡ x = ground arith in rw (← e) near)
  Joined-all kind own v near (step before m listed e) =
      step (Joined-all kind own v near before) m listed e

  -- How an id is on the timeline of the ids of `own`: as one of them, or as related to them.
  abbrev pub OnTimeline : Option String → List Uuid → Uuid → Option String → Type 0
  OnTimeline include_related own x how =
      ((how ≡ none) × (has own x ≡ true))
      ⊎ ((kind : String) × (include_related ≡ some kind)
          × (how ≡ some kind)
          × (has own x ≡ false)
          × ∥ Related table kind own x ∥₁)

  abbrev pub Lists : Option String → List Uuid → List (Uuid × Option String) → Type 0
  Lists include_related own out =
      (x : Uuid) (how : Option String) → Memᴰ (x, how) out ↔ OnTimeline include_related own x how

  Lists-alone :
      (include_related : Option String) (own : List Uuid)
      → ((kind : String) → include_related ≡ some kind → neighbors kind own ≡ [])
      → Lists include_related own (as_linked none own)
  Lists-alone include_related own alone x how = (
    λ m. let (listed, e) = (mem-as_linked none own x how).0 m in inl (e, (mem-has own x).1 listed),
    λ on. elim on [
      | inl (e, h) ↦ (mem-as_linked none own x how).1 ((mem-has own x).0 h, e)
      | inr (kind, given, _, _, related) ↦ absurd (
          ∥∥₁_elim related ⊥_prop (λ (v, near, _).
            let there : has (neighbors kind own) v ≡ true = (neighbor_iff kind own v).1 ∣ near ∣₁ in
            true-ne-false there (rw (alone kind given) refl)))
    ],
  )

  Lists-also :
      (kind : String) (own found : List Uuid)
      → ((x : Uuid) → (has found x ≡ true) ↔ ∥ Joined table (neighbors kind own) x ∥₁)
      → Lists
          (some kind)
          own
          (as_linked none own ++ as_linked (some kind) (select (λ x. not (has own x)) found))
  Lists-also kind own found exact x how = (
    λ m. elim (Memᴰ.append_cases (as_linked none own) m) [
      | inl first ↦
          let (listed, e) = (mem-as_linked none own x how).0 first in
          inl (e, (mem-has own x).1 listed)
      | inr second ↦
          let (chosen, e) =
            (mem-as_linked (some kind) (select (λ y. not (has own y)) found) x how).0 second in
          let (listed, out) = (mem-select (λ y. not (has own y)) found x).0 chosen in
          inr (
            kind,
            refl,
            e,
            ground arith,
            ∥∥₁_elim ((exact x).0 ((mem-has found x).1 listed)) ∥∥₁_prop (Joined-one kind own),
          )
    ],
    λ on. elim on [
      | inl (e, h) ↦ Memᴰ.append_left _ ((mem-as_linked none own x how).1 ((mem-has own x).0 h, e))
      | inr (k, given, e, out, related) ↦
          let same : k ≡ kind = some-injective _ _ (sym given) in
          let found_it : has found x ≡ true = (exact x).1 (
            ∥∥₁_map (subst (λ n. ∥ Related table n own x ∥₁) same related)
              (λ (v, near, j). Joined-all kind own v ((neighbor_iff kind own v).1 ∣ near ∣₁) j)) in
          Memᴰ.append_right (as_linked none own) (
            (mem-as_linked (some kind) _ x how).1 (
              (mem-select (λ y. not (has own y)) found x).1
                  ((mem-has found x).0 found_it, rw out refl),
              e ∙ ap some same,
            ))
    ],
  )

  -- A run that returned, with the ids that are the subject's own.
  abbrev pub Timeline : Uuid → Option String → Type 0
  Timeline entity_id include_related =
      (own : List Uuid) × (out : List (Uuid × Option String)) × (linked_entities edges fuel
          entity_id include_related
        ≡ some out)
      × ((x : Uuid) → (has own x ≡ true) ↔ ∥ Joined table (entity_id ∷ []) x ∥₁)
      × Lists include_related own out

  -- The timeline of a subject is found within the fuel: the subject and the ids that current merges
  -- join to it, directly or through others, and with `include_related` also the ids outside these that
  -- are joined to one that is one current relationship of that type away, each said to be linked so.
  pub linked_entities-exact :
      (entity_id : Uuid) (include_related : Option String) → Timeline entity_id include_related
  unfolding linked_entities around related_to also
  linked_entities-exact entity_id include_related =
      let (own, walks, exact) = merged-exact table edges answers (entity_id ∷ []) in
      let (out, e, lists) = find include_related own in (own, out, rw walks e, exact, lists)
    where
      find :
          (include_related : Option String) (own : List Uuid)
          → (out : List (Uuid × Option String)) × (around edges fuel include_related (some own)
              ≡ some out)
            × Lists include_related own out
      find none own = (as_linked none own, refl, Lists-alone none own (λ kind given. cc))
      find (some kind) own = go (neighbors kind own) refl
        where
          go :
              (near : List Uuid)
              → neighbors kind own ≡ near
              → (out : List (Uuid × Option String)) × (related_to edges fuel kind own near
                  ≡ some out)
                × Lists (some kind) own out
          go [] e = (
            as_linked none own,
            refl,
            Lists-alone (some kind) own (λ k given. rw (some-injective _ _ (sym given)) e),
          )
          go (v ∷ near) e =
              let (found, walks, exact) = merged-exact table edges answers (v ∷ near) in
              (
                as_linked none own ++ as_linked (some kind) (select (λ x. not (has own x)) found),
                rw walks refl,
                Lists-also kind own found (λ x. rw e (exact x)),
              )

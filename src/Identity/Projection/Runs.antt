-- ===== src/Identity/Projection/Runs.antt =====
-- core/identity.py, `project_membership`: the loop over all the operations, link by link.
use mathlib.Core.List.{Memᴰ}
use mathlib.Core.Path.{subst}
use mathlib.Core.Option.{some-injective}
use decision_ledger.Prelude.{
  ◌↔◌, ◌⊎◌, sym, ℕ, ◌≡◌, refl, ap, ◌∙◌, true, false, Option, some, List, [], ◌∷◌, ltb, all,
  Bool-cases, inl, inr, ok, >>=-ok, and-left, and-right,
}
use decision_ledger.Identity.{same}
use decision_ledger.Identity.Events.{opens, Membership}
use decision_ledger.Identity.Projection.{
  Operation, Link, same_link, link_of, Opened, Open, find_open, Fold, apply, apply_all,
}
use decision_ledger.Identity.Projection.Links.{
  same_link_sym, find_open-cong, link_of_opened, IsKeyed,
}
use decision_ledger.Identity.Projection.Folds.{
  is_operation, stepped, ended, Closes, IsFold, apply-Steps,
}

-- The open interval of a link after some operations: a machine of one link.
abbrev pub stepped_all : Link → List Operation → Option Opened → Option Opened
stepped_all link [] there = there
stepped_all link (o ∷ os) there = stepped_all link os (stepped link o there)

-- The intervals of a link that some operations close: of what was open, and when it ended.
abbrev pub Ends : Link → List Operation → Option Opened → Opened → ℕ → Type 0
Ends link [] there v t = ⊥
Ends link (o ∷ os) there v t =
    ((same_link (link_of o) link ≡ true)
      × (opens o.kind ≡ false)
      × (there ≡ some v)
      × (ltb v.since o.at ≡ true)
      × (t ≡ o.at))
    ⊎ Ends link os (stepped link o there) v t

abbrev pub EndedIn : List Operation → Open → Membership → Type 0
EndedIn os opened m =
    (v : Opened) × (t : ℕ) × (m ≡ ended t v)
    × Ends (link_of_opened v) os (find_open (link_of_opened v) opened) v t

same_link-found :
    (opened : Open) (l : Link) (v : Opened)
    → IsKeyed opened
    → find_open l opened ≡ some v
    → same_link l (link_of_opened v) ≡ true
unfolding find_open
same_link-found [] l v h e = cc
same_link-found ((key, value) ∷ rest) l v (own, _, _, h) e = elim (Bool-cases (same_link key l)) [
  | inl same ↦
      let is_v : value ≡ v = some-injective _ _ (rw same at e) in
      ap (same_link l) (ap link_of_opened (sym is_v) ∙ sym own) ∙ same_link_sym l key ∙ same
  | inr other ↦ same_link-found rest l v h (rw other at e)
]

module _ (o : Operation) (os : List Operation) (fold mid : Fold) (m : Membership) where
  Closes-EndedIn : IsKeyed fold.opened → Closes o fold m → EndedIn (o ∷ os) fold.opened m
  Closes-EndedIn keyed (v, is_m, closes, before, found) =
      let same = same_link-found fold.opened (link_of o) v keyed found in
      (
        v,
        o.at,
        is_m,
        inl (
          same,
          closes,
          sym (find_open-cong (link_of o) (link_of_opened v) fold.opened same) ∙ found,
          before,
          refl,
        ),
      )

  later-EndedIn :
      ((l : Link) → find_open l mid.opened ≡ stepped l o (find_open l fold.opened))
      → EndedIn os mid.opened m
      → EndedIn (o ∷ os) fold.opened m
  later-EndedIn finds (v, t, is_m, ends) = (
    v,
    t,
    is_m,
    inr (subst (λ x. Ends (link_of_opened v) os x v t) (finds (link_of_opened v)) ends),
  )

  EndedIn-cases :
      ((l : Link) → find_open l mid.opened ≡ stepped l o (find_open l fold.opened))
      → EndedIn (o ∷ os) fold.opened m
      → Closes o fold m ⊎ EndedIn os mid.opened m
  EndedIn-cases finds (v, t, is_m, inl (same, closes, found, before, now)) = inl (
    v,
    rw now at is_m,
    closes,
    before,
    find_open-cong (link_of o) (link_of_opened v) fold.opened same ∙ found,
  )
  EndedIn-cases finds (v, t, is_m, inr ends) = inr (
    v,
    t,
    is_m,
    subst (λ x. Ends (link_of_opened v) os x v t) (sym (finds (link_of_opened v))) ends,
  )

pub record Runs (os : List Operation) (fold : Fold) : Type 0 where
  pub after : Fold
  pub applied : apply_all os fold ≡ ok after
  pub kept : IsFold after
  pub finds : (l : Link) → find_open l after.opened ≡ stepped_all l os (find_open l fold.opened)
  pub ends :
      (m : Membership) → Memᴰ m after.intervals ↔ (Memᴰ m fold.intervals ⊎ EndedIn os fold.opened m)

pub apply_all-Runs :
    (os : List Operation) (fold : Fold) → all is_operation os ≡ true → IsFold fold → Runs os fold
unfolding apply_all
apply_all-Runs [] fold h inv = record {
  after = fold;
  applied = refl;
  kept = inv;
  finds = λ l. refl;
  ends = λ m. (λ h. inl h, λ h. elim h [ inl there ↦ there | inr (v, t, _, never) ↦ absurd never ]);
}
apply_all-Runs (o ∷ os) fold h inv =
    let step = apply-Steps o fold (and-left (is_operation o) (all is_operation os) h) inv in
    let rest =
      apply_all-Runs os step.after (and-right (is_operation o) (all is_operation os) h) step.kept in
    record {
      after = rest.after;
      applied = >>=-ok (apply o fold) (apply_all os) step.applied ∙ rest.applied;
      kept = rest.kept;
      finds = λ l. rest.finds l ∙ ap (stepped_all l os) (step.finds l);
      ends = λ m. (
        λ h. elim ((rest.ends m).0 h) [
          | inl there ↦ elim ((step.ends m).0 there) [
            | inl old ↦ inl old
            | inr now ↦ inr (Closes-EndedIn o os fold step.after m inv.keyed now)
          ]
          | inr later ↦ inr (later-EndedIn o os fold step.after m step.finds later)
        ],
        λ h. (rest.ends m).1 (elim h [
          | inl old ↦ inl ((step.ends m).1 (inl old))
          | inr by ↦ elim (EndedIn-cases o os fold step.after m step.finds by) [
            | inl now ↦ inl ((step.ends m).1 (inr now))
            | inr later ↦ inr later
          ]
        ]),
      );
    }

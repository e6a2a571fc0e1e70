-- ===== src/Identity/Projection/Current.antt =====
-- core/identity.py, `project_membership`: when it succeeds, and which intervals it gives.
use mathlib.Core.Path.{subst}
use mathlib.Core.Option.{some-injective}
use mathlib.Core.List.{Memᴰ}
use mathlib.Core.List.Memᴰ
use decision_ledger.Prelude.{
  ◌≡◌, refl, sym, ap, ◌∙◌, ◌↔◌, ℕ, String, Bool, true, false, not, Option, none, some, is_some,
  List, [], ◌∷◌, ◌++◌, arith, all, Bool-cases, inl, inr, ok, >>=-ok,
}
use decision_ledger.Prelude.Sorting.{sort, mem-sort}
use decision_ledger.Identity.{Uuid, ResolvedIdentity, is_valid_identity}
use decision_ledger.Identity.Events.{EntityEvent, is_well_formed, Membership, checked, is_current}
use decision_ledger.Identity.Projection.{
  Operation, operations, Link, same_link, Opened, Open, find_open, apply_all, open_interval,
  open_intervals, not_after_interval, project_membership,
}
use decision_ledger.Identity.Projection.Links.{
  same_link_refl, find_open-cong, link_of_opened, IsKeyed,
}
use decision_ledger.Identity.Projection.Folds.{checked-ok}
use decision_ledger.Identity.Projection.Runs.{stepped_all, Ends, EndedIn, apply_all-Runs}
use decision_ledger.Identity.Projection.Chronology.{History, operations-History}
use decision_ledger.Identity.Projection.Ordered.{links_two, all-operations}

current_of : Open → List Membership
unfolding open_interval
current_of [] = []
current_of ((link, o) ∷ rest) = open_interval o ∷ current_of rest

open_intervals-ok :
    (opened : Open) → IsKeyed opened → open_intervals opened ≡ ok (current_of opened)
unfolding open_intervals current_of open_interval
open_intervals-ok [] h = refl
open_intervals-ok ((link, o) ∷ rest) (_, apart, _, h) =
    rw (checked-ok (open_interval o) refl apart, open_intervals-ok rest h) refl

checked-current :
    (opened : Open) (m : Membership)
    → IsKeyed opened
    → Memᴰ m (current_of opened)
    → checked m ≡ ok m
unfolding current_of open_interval
checked-current [] m h listed = absurd (Memᴰ.not-nil listed)
checked-current ((link, o) ∷ rest) m (_, apart, _, h) listed = elim (Memᴰ.cases_cons listed) [
  | inl e ↦ rw e (checked-ok (open_interval o) refl apart)
  | inr later ↦ checked-current rest m h later
]

-- What an interval says of its link.
abbrev pub opened_of : Membership → Opened
opened_of m = record {
  subject = m.subject_entity_id;
  other = m.related_entity_id;
  relationship = m.relationship_type;
  since = m.valid_from;
}

find-current :
    (opened : Open) (m : Membership)
    → IsKeyed opened
    → Memᴰ m (current_of opened)
    → find_open (link_of_opened (opened_of m)) opened ≡ some (opened_of m)
unfolding current_of find_open open_interval
find-current [] m h listed = absurd (Memᴰ.not-nil listed)
find-current ((link, o) ∷ rest) m (own, apart, once, h) listed = elim (Memᴰ.cases_cons listed) [
  | inl e ↦ rw (e, own, same_link_refl (link_of_opened o)) refl
  | inr later ↦
      let found = find-current rest m h later in
      ground (arith, find_open-cong link (link_of_opened (opened_of m)) rest)
]

current-found :
    (opened : Open) (l : Link) (o : Opened)
    → find_open l opened ≡ some o
    → Memᴰ (open_interval o) (current_of opened)
unfolding current_of find_open
current-found [] l o e = cc
current-found ((link, v) ∷ rest) l o e = elim (Bool-cases (same_link link l)) [
  | inl same ↦ Memᴰ.head (ap open_interval (sym (some-injective _ _ (rw same at e))))
  | inr other ↦ Memᴰ.tail (current-found rest l o (rw other at e))
]

is_current-eq : (m : Membership) → is_current m ≡ true → open_interval (opened_of m) ≡ m
unfolding open_interval
is_current-eq m h = ap (λ v. record m { valid_to = v }) (none_of m.valid_to h)
  where
    none_of : (o : Option ℕ) → not (is_some o) ≡ true → none ≡ o
    none_of none e = refl
    none_of (some n) e = cc

links_two-is_valid_identity :
    (uuid5 : Uuid → String → Uuid) (identities : List ResolvedIdentity)
    → all (is_valid_identity uuid5) identities ≡ true
    → all links_two identities ≡ true
unfolding is_valid_identity links_two
links_two-is_valid_identity uuid5 [] h = refl
links_two-is_valid_identity uuid5 (i ∷ is) h = ground (arith, links_two-is_valid_identity uuid5 is)

-- The intervals of the projection pass their validator. One that holds now is there exactly when the
-- operations on its link, in their order, leave it open. One that ended is there exactly when an
-- operation on its link closed, at its end, what the earlier ones had left open.
pub record Projects (os : List Operation) (ms : List Membership) : Type 0 where
  pub valid : (m : Membership) → Memᴰ m ms → checked m ≡ ok m
  pub current :
      (m : Membership)
      → is_current m ≡ true
      → Memᴰ m ms ↔ (stepped_all (link_of_opened (opened_of m)) os none ≡ some (opened_of m))
  pub closed :
      (m : Membership) (t : ℕ)
      → m.valid_to ≡ some t
      → Memᴰ m ms ↔ Ends (link_of_opened (opened_of m)) os none (opened_of m) t

current-open : (opened : Open) (m : Membership) → Memᴰ m (current_of opened) → m.valid_to ≡ none
unfolding current_of open_interval
current-open [] m listed = absurd (Memᴰ.not-nil listed)
current-open ((link, o) ∷ rest) m listed = elim (Memᴰ.cases_cons listed) [
  | inl e ↦ ap (λ x. x.valid_to) e
  | inr later ↦ current-open rest m later
]

-- An interval that ended at a time is of one closed by the operations, and at that time.
EndedIn-Ends :
    (os : List Operation) (m : Membership) (t : ℕ)
    → m.valid_to ≡ some t
    → EndedIn os [] m ↔ Ends (link_of_opened (opened_of m)) os none (opened_of m) t
unfolding find_open
EndedIn-Ends os m t e = (
  λ (v, u, is_m, ends).
      let is_v : opened_of m ≡ v = ap opened_of is_m in
      let is_u : t ≡ u = some-injective _ _ (sym e ∙ ap (λ x. x.valid_to) is_m) in
      rw (is_v, is_u) ends,
  λ ends. (opened_of m, t, ap (λ x. record m { valid_to = x }) e, ends),
)

true-ne-false : {b : Bool} → b ≡ true → b ≡ false → ⊥
true-ne-false e f = cc

none-ne-some : {t : ℕ} → none ≡ some t → ⊥
none-ne-some e = cc

-- The projection of well-formed events and valid identities is made without an error. Its intervals
-- end after they begin and link two ids. An interval holds now exactly when the operations on its own
-- link leave it open, and one that ended is there exactly when one of them closed, at its end, what
-- the earlier ones had left open, where the operations are what the events and the identities' relationships
-- assert, all of them and nothing else, in the order of time; at one time a decision's relationships
-- come before events, and each of these in the order in which they are given.
pub project_membership-Projects :
    (uuid5 : Uuid → String → Uuid) (events : List EntityEvent) (identities : List ResolvedIdentity)
    → all is_well_formed events ≡ true
    → all (is_valid_identity uuid5) identities ≡ true
    → (os : List Operation) × History events identities os
      × ((ms : List Membership) × (project_membership events identities ≡ ok ms) × Projects os ms)
unfolding project_membership find_open
project_membership-Projects uuid5 events identities h k =
    let runs =
      apply_all-Runs (operations events identities) (record { opened = []; intervals = [] })
        (all-operations events identities h (links_two-is_valid_identity uuid5 identities k))
        (record { keyed = tt; closed = λ m listed. absurd (Memᴰ.not-nil listed) }) in
    let current = current_of runs.after.opened in
    let listed = runs.after.intervals ++ current in
    (
      operations events identities,
      operations-History events identities,
      (
        sort not_after_interval listed,
        >>=-ok (apply_all (operations events identities) _) _ runs.applied
            ∙ >>=-ok (open_intervals runs.after.opened) _
                (open_intervals-ok runs.after.opened runs.kept.keyed),
        record {
          valid = λ m there.
              elim (Memᴰ.append_cases runs.after.intervals
                ((mem-sort not_after_interval m listed).0 there)) [
                  | inl ended ↦ (runs.kept.closed m ended).0
                  | inr holds ↦ checked-current runs.after.opened m runs.kept.keyed holds
                ];
          current = λ m now. (
            λ there.
                elim (Memᴰ.append_cases runs.after.intervals
                  ((mem-sort not_after_interval m listed).0 there)) [
                    | inl ended ↦ absurd (true-ne-false now ((runs.kept.closed m ended).1))
                    | inr holds ↦
                        sym (runs.finds (link_of_opened (opened_of m)))
                        ∙ find-current runs.after.opened m runs.kept.keyed holds
                  ],
            λ e. (mem-sort not_after_interval m listed).1 (
                Memᴰ.append_right runs.after.intervals (
                  subst (λ x. Memᴰ x current) (is_current-eq m now)
                    (current-found runs.after.opened (link_of_opened (opened_of m)) (opened_of m)
                      (runs.finds (link_of_opened (opened_of m)) ∙ e)))),
          );
          closed = λ m t e. (
            λ there.
                elim (Memᴰ.append_cases runs.after.intervals
                  ((mem-sort not_after_interval m listed).0 there)) [
                    | inl done ↦ elim ((runs.ends m).0 done) [
                      | inl before ↦ absurd (Memᴰ.not-nil before)
                      | inr by ↦ (EndedIn-Ends (operations events identities) m t e).0 by
                    ]
                    | inr holds ↦
                        absurd (none-ne-some (sym (current-open runs.after.opened m holds) ∙ e))
                  ],
            λ by. (mem-sort not_after_interval m listed).1 (
                Memᴰ.append_left current (
                  (runs.ends m).1
                    (inr ((EndedIn-Ends (operations events identities) m t e).1 by)))),
          );
        },
      ),
    )

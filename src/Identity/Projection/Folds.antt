-- ===== src/Identity/Projection/Folds.antt =====
-- core/identity.py, `project_membership`: one operation of the loop.
use mathlib.Core.List.{Memᴰ}
use mathlib.Core.List.Memᴰ
use mathlib.Core.Option.{some-injective}
use decision_ledger.Prelude.{
  ◌↔◌, ◌⊎◌, sym, ℕ, ◌≡◌, refl, ap, ◌∙◌, Bool, true, false, not, ◌&&◌, Option, none, some, is_some,
  List, [], ◌∷◌, ◌++◌, ltb, eqb, arith, if◌then◌else◌, Bool-cases, Option-cases, inl, inr, ok,
}
use decision_ledger.Identity.{same}
use decision_ledger.Identity.Events.{is_typed, opens, Membership, checked, is_current}
use decision_ledger.Identity.Projection.{
  Operation, Link, same_link, link_of, Opened, Open, find_open, remove_open, set_default, Fold,
  closed_at, close, apply,
}
use decision_ledger.Identity.Projection.Links.{
  find_open-cong, find_open-append, link_of_opened, IsKeyed, find_open-remove_open,
  IsKeyed-remove_open, IsKeyed-append,
}

-- What the validators of the events and of the identities leave.
abbrev pub is_operation : Operation → Bool
is_operation o = same (is_typed o.kind) (is_some o.relationship) && not (eqb o.subject o.other)

abbrev pub opened_by : Operation → Opened
opened_by o = record {
  subject = o.subject;
  other = o.other;
  relationship = o.relationship;
  since = o.at;
}

-- What one operation makes of the open interval of a link.
abbrev pub stepped : Link → Operation → Option Opened → Option Opened
stepped link o there =
    if same_link (link_of o) link
    then (if opens o.kind then elim there [ none ↦ some (opened_by o) | some v ↦ some v ] else none)
    else there

-- The interval that an operation at `t` closes.
abbrev pub ended : ℕ → Opened → Membership
ended t v = record {
  subject_entity_id = v.subject;
  related_entity_id = v.other;
  relationship_type = v.relationship;
  valid_from = v.since;
  valid_to = some t;
}

-- What one operation closes.
abbrev pub Closes : Operation → Fold → Membership → Type 0
Closes o fold m =
    (v : Opened) × (m ≡ ended o.at v)
    × (opens o.kind ≡ false)
    × (ltb v.since o.at ≡ true)
    × (find_open (link_of o) fold.opened ≡ some v)

pub record IsFold (fold : Fold) : Type 0 where
  pub keyed : IsKeyed fold.opened
  pub closed :
      (m : Membership) → Memᴰ m fold.intervals → (checked m ≡ ok m) × (is_current m ≡ false)

link_of-opened_by :
    (o : Operation) → is_operation o ≡ true → link_of o ≡ link_of_opened (opened_by o)
unfolding link_of link_of_opened
link_of-opened_by o h = ground arith

pub checked-ok :
    (m : Membership)
    → elim m.valid_to [ none ↦ true | some ended ↦ ltb m.valid_from ended ] ≡ true
    → eqb m.subject_entity_id m.related_entity_id ≡ false
    → checked m ≡ ok m
unfolding checked
checked-ok m h apart = ground arith

-- One operation is applied without an error, keeps the invariant, and acts on its own link alone.
pub record Steps (o : Operation) (fold : Fold) : Type 0 where
  pub after : Fold
  pub applied : apply o fold ≡ ok after
  pub kept : IsFold after
  pub finds : (l : Link) → find_open l after.opened ≡ stepped l o (find_open l fold.opened)
  pub ends : (m : Membership) → Memᴰ m after.intervals ↔ (Memᴰ m fold.intervals ⊎ Closes o fold m)

opens-ends :
    (o : Operation) (fold : Fold) (m : Membership)
    → opens o.kind ≡ true
    → Memᴰ m fold.intervals ↔ (Memᴰ m fold.intervals ⊎ Closes o fold m)
opens-ends o fold m e =
    (λ h. inl h, λ h. elim h [ inl there ↦ there | inr (v, _, closes, _, _) ↦ cc ])

apply-opens :
    (o : Operation) (fold : Fold)
    → is_operation o ≡ true
    → opens o.kind ≡ true
    → IsFold fold
    → Steps o fold
unfolding apply set_default
apply-opens o fold h e inv = elim (Option-cases (find_open (link_of o) fold.opened)) [
  | inl fresh ↦ record {
    after = record fold { opened = fold.opened ++ (link_of o, opened_by o) ∷ [] };
    applied = rw (e, fresh) refl;
    kept = record {
      keyed = rw (link_of-opened_by o h) (
          IsKeyed-append (opened_by o) fold.opened (ground arith)
            (rw (link_of-opened_by o h) at fresh) inv.keyed);
      closed = inv.closed;
    };
    finds = λ l. ground (
      arith,
      e,
      find_open-append l (link_of o) (opened_by o) fold.opened,
      find_open-cong (link_of o) l fold.opened,
    );
    ends = λ m. opens-ends o fold m e;
  }
  | inr (v, there) ↦ record {
    after = fold;
    applied = rw (e, there) refl;
    kept = inv;
    finds = λ l. ground (arith, e, find_open-cong (link_of o) l fold.opened);
    ends = λ m. opens-ends o fold m e;
  }
]

EachClosed-append :
    (intervals : List Membership) (c : Membership)
    → (checked c ≡ ok c) × (is_current c ≡ false)
    → ((m : Membership) → Memᴰ m intervals → (checked m ≡ ok m) × (is_current m ≡ false))
    → (m : Membership) → Memᴰ m (intervals ++ c ∷ [])
    → (checked m ≡ ok m) × (is_current m ≡ false)
EachClosed-append [] c h each m listed = rw (Memᴰ.eq_of_singleton listed) h
EachClosed-append (x ∷ xs) c h each m listed = elim (Memᴰ.cases_cons listed) [
  | inl same ↦ each m (Memᴰ.head same)
  | inr later ↦ EachClosed-append xs c h (λ k t. each k (Memᴰ.tail t)) m later
]

apart-find_open :
    (opened : Open) (l : Link) (v : Opened)
    → IsKeyed opened
    → find_open l opened ≡ some v
    → eqb v.subject v.other ≡ false
unfolding find_open
apart-find_open [] l v h e = cc
apart-find_open ((key, value) ∷ rest) l v (_, apart, _, h) e =
    ground (arith, apart-find_open rest l v h)

apply-closes : (o : Operation) (fold : Fold) → opens o.kind ≡ false → IsFold fold → Steps o fold
unfolding apply close closed_at
apply-closes o fold e inv = go (find_open (link_of o) fold.opened) refl
  where
    left : Open
    left = remove_open (link_of o) fold.opened

    finds : (l : Link) → find_open l left ≡ stepped l o (find_open l fold.opened)
    finds l = rw (find_open-remove_open l (link_of o) fold.opened inv.keyed, e) refl

    go : (there : Option Opened) → find_open (link_of o) fold.opened ≡ there → Steps o fold
    go none absent = record {
      after = record { opened = left; intervals = fold.intervals };
      applied = rw (e, absent) refl;
      kept = record {
        keyed = IsKeyed-remove_open (link_of o) fold.opened inv.keyed;
        closed = inv.closed;
      };
      finds = finds;
      ends = λ m. (λ h. inl h, λ h. elim h [ inl listed ↦ listed | inr (v, _, _, _, found) ↦ cc ]);
    }
    go (some start) there = elim (Bool-cases (ltb start.since o.at)) [
      | inr at_once ↦ record {
        after = record { opened = left; intervals = fold.intervals };
        applied = rw (e, there, close, at_once) refl;
        kept = record {
          keyed = IsKeyed-remove_open (link_of o) fold.opened inv.keyed;
          closed = inv.closed;
        };
        finds = finds;
        ends = λ m. (
          λ h. inl h,
          λ h. elim h [
            | inl listed ↦ listed
            | inr (v, _, _, before, found) ↦
                let same : start ≡ v = some-injective _ _ (sym there ∙ found) in cc
          ],
        );
      }
      | inl later ↦
          let fine : checked (closed_at o.at start) ≡ ok (closed_at o.at start) =
            checked-ok (closed_at o.at start) later
              (apart-find_open fold.opened (link_of o) start inv.keyed there) in
          record {
            after = record {
              opened = left;
              intervals = fold.intervals ++ closed_at o.at start ∷ [];
            };
            applied = rw (e, there, close, later, fine) refl;
            kept = record {
              keyed = IsKeyed-remove_open (link_of o) fold.opened inv.keyed;
              closed =
                  EachClosed-append fold.intervals (closed_at o.at start) (fine, refl) inv.closed;
            };
            finds = finds;
            ends = λ m. (
              λ h. elim (Memᴰ.append_cases fold.intervals h) [
                | inl listed ↦ inl listed
                | inr now ↦ inr (start, Memᴰ.eq_of_singleton now, e, later, there)
              ],
              λ h. elim h [
                | inl listed ↦ Memᴰ.append_left _ listed
                | inr (v, is_m, _, _, found) ↦
                    Memᴰ.append_right fold.intervals
                      (Memᴰ.head (is_m ∙ ap (ended o.at) (some-injective _ _ (sym found ∙ there))))
              ],
            );
          }
    ]

pub apply-Steps : (o : Operation) (fold : Fold) → is_operation o ≡ true → IsFold fold → Steps o fold
apply-Steps o fold h inv = elim (Bool-cases (opens o.kind)) [
  | inl e ↦ apply-opens o fold h e inv
  | inr e ↦ apply-closes o fold e inv
]

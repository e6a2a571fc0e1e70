-- ===== src/Identity/Linked/Ids.antt =====
-- core/identity.py, `linked_entities`: the sets of ids of its walk.
use mathlib.Core.Path.{subst}
use mathlib.Core.List.{Memᴰ}
use mathlib.Core.List.Memᴰ
use decision_ledger.Prelude.{
  ◌≡◌, refl, sym, ◌∙◌, ◌≤◌, ◌<◌, ℕ, suc, String, Bool, true, false, not, ◌&&◌, ◌||◌, Option, List,
  [], ◌∷◌, any, length, eqb, arith, if◌then◌else◌, Bool-cases, inl, inr,
}
use decision_ledger.Prelude.Sets.{any-append}
use decision_ledger.Identity.{Uuid}
use decision_ledger.Identity.Events.{Membership, is_current}
use decision_ledger.Identity.Linked.{has, add, union, add_new, is_link, touches, reached}

has-add : (x y : Uuid) (ids : List Uuid) → has (add y ids) x ≡ (has ids x || eqb y x)
unfolding add
has-add x y ids = ground (arith, any-append (λ z. eqb z x) ids (y ∷ []))

pub has-union : (x : Uuid) (ids xs : List Uuid) → has (union ids xs) x ≡ (has ids x || has xs x)
unfolding union
has-union x ids [] = ground arith
has-union x ids (y ∷ xs) = ground (arith, has-union x (add y ids) xs, has-add x y ids)

has-add_new :
    (seen : List Uuid) (y : Uuid) (found : List Uuid) (x : Uuid)
    → has (add_new seen y found) x ≡ (has found x || (eqb y x && not (has seen x)))
unfolding add_new
has-add_new seen y found x = elim (Bool-cases (eqb y x)) [
  | inl same ↦
      let e : y ≡ x = ground (arith, same) in
      subst (λ z. has (add_new seen z found) x ≡ (has found x || (eqb z x && not (has seen x))))
        (sym e) (ground (arith, has-add x x found))
  | inr other ↦ ground (arith, has-add x y found)
]

abbrev pub is_end : Membership → Uuid → Bool
is_end m x = eqb m.subject_entity_id x || eqb m.related_entity_id x

-- What the loop finds.
pub has-reached :
    (kind : Option String) (ids seen : List Uuid) (ms : List Membership) (found : List Uuid)
    (x : Uuid)
    → has (reached kind ids seen ms found) x ≡ (
        has found x
        || any (λ m. is_link kind m && (touches ids m && (is_end m x && not (has seen x)))) ms)
unfolding reached
has-reached kind ids seen [] found x = ground arith
has-reached kind ids seen (m ∷ ms) found x = ground (
  arith,
  has-reached kind ids seen ms
      (if is_link kind m && touches ids m
        then add_new seen m.related_entity_id (add_new seen m.subject_entity_id found)
        else found)
      x,
  has-add_new seen m.related_entity_id (add_new seen m.subject_entity_id found) x,
  has-add_new seen m.subject_entity_id found x,
)

-- `edges` answers from a table: only with its intervals, and with all that hold now and touch an id
-- that it was given.
pub record IsEdges (table : List Membership) (edges : List Uuid → List Membership) : Type 0 where
  pub sound : (ids : List Uuid) (m : Membership) → Memᴰ m (edges ids) → Memᴰ m table
  pub complete :
      (ids : List Uuid) (m : Membership)
      → Memᴰ m table
      → is_current m ≡ true
      → touches ids m ≡ true
      → Memᴰ m (edges ids)

abbrev pub ends_of : List Membership → List Uuid
ends_of [] = []
ends_of (m ∷ ms) = m.subject_entity_id ∷ m.related_entity_id ∷ ends_of ms

pub any-witness {ℓ} :
    {A : Type ℓ} (p : A → Bool) (xs : List A) → any p xs ≡ true → (x : A) × Memᴰ x xs × (p x ≡ true)
any-witness p [] h = cc
any-witness p (x ∷ xs) h = elim (Bool-cases (p x)) [
  | inl holds ↦ (x, Memᴰ.head refl, holds)
  | inr fails ↦ let (y, m, holds) = any-witness p xs (ground arith) in (y, Memᴰ.tail m, holds)
]

pub any-of_mem {ℓ} :
    {A : Type ℓ} (p : A → Bool) (x : A) (xs : List A) → Memᴰ x xs → p x ≡ true → any p xs ≡ true
any-of_mem p x [] m h = absurd (Memᴰ.not-nil m)
any-of_mem p x (y ∷ ys) m h = elim (Memᴰ.cases_cons m) [
  | inl e ↦ rw (← e, h) refl
  | inr later ↦ ground (arith, any-of_mem p x ys later h)
]

pub has-ends_of :
    (table : List Membership) (m : Membership) (x : Uuid)
    → Memᴰ m table
    → is_end m x ≡ true
    → has (ends_of table) x ≡ true
has-ends_of [] m x listed h = absurd (Memᴰ.not-nil listed)
has-ends_of (k ∷ ks) m x listed h = elim (Memᴰ.cases_cons listed) [
  | inl e ↦ let h' : is_end k x ≡ true = rw (← e) h in ground arith
  | inr later ↦ ground (arith, has-ends_of ks m x later h)
]

-- The ids that a walk has not seen.
abbrev pub unseen : List Uuid → List Uuid → ℕ
unseen seen [] = 0
unseen seen (x ∷ xs) = let rest = unseen seen xs in if has seen x then rest else suc rest

pub unseen-le-length : (seen ids : List Uuid) → unseen seen ids ≤ length ids
unseen-le-length seen [] = omega arith
unseen-le-length seen (x ∷ xs) = ground (arith, unseen-le-length seen xs)

pub unseen-le : (seen more ids : List Uuid) → unseen (union seen more) ids ≤ unseen seen ids
unseen-le seen more [] = omega arith
unseen-le seen more (x ∷ xs) = ground (arith, unseen-le seen more xs, has-union x seen more)

pub unseen-lt :
    (seen more ids : List Uuid) (x : Uuid)
    → has ids x ≡ true
    → has seen x ≡ false
    → has more x ≡ true
    → unseen (union seen more) ids < unseen seen ids
unseen-lt seen more [] x listed out new = cc
unseen-lt seen more (y ∷ ys) x listed out new = elim (Bool-cases (eqb y x)) [
  | inl same ↦
      let e : y ≡ x = ground (arith, same) in
      let out' : has seen y ≡ false = rw e out in
      let in' : has (union seen more) y ≡ true =
        rw e (has-union x seen more ∙ rw new (ground arith)) in
      rw (out', in') (omega (arith, unseen-le seen more ys))
  | inr other ↦
      ground (arith, unseen-lt seen more ys x, unseen-le seen more ys, has-union y seen more)
]

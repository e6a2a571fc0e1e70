-- ===== src/Identity/Projection/Links.antt =====
-- core/identity.py, `project_membership`: the dictionary of open intervals.
use decision_ledger.Prelude.{
  ◌≡◌, refl, sym, ap, ◌∙◌, String, true, false, Option, none, some, [], ◌∷◌, ◌++◌, eqb, eq_iff,
  arith, if◌then◌else◌, Bool-cases, inl, inr,
}
use decision_ledger.Identity.Projection.{
  Link, related_by, merged_with, same_relationship, same_link, Opened, Open, find_open, remove_open,
}

same_relationship-eq : (r s : Option String) → same_relationship r s ≡ true → r ≡ s
unfolding same_relationship
same_relationship-eq none none h = refl
same_relationship-eq (some a) (some b) h = ap some ((eq_iff a b).0 h)
same_relationship-eq none (some b) h = cc
same_relationship-eq (some a) none h = cc

same_relationship_refl : (r : Option String) → same_relationship r r ≡ true
unfolding same_relationship
same_relationship_refl none = refl
same_relationship_refl (some a) = (eq_iff a a).1 refl

pub same_link_refl : (l : Link) → same_link l l ≡ true
unfolding same_link
same_link_refl (related_by a b r) = ground (arith, same_relationship_refl r)
same_link_refl (merged_with a b) = ground arith

same_relationship_sym : (r s : Option String) → same_relationship r s ≡ same_relationship s r
unfolding same_relationship
same_relationship_sym none none = refl
same_relationship_sym (some a) (some b) = ground (arith, eq_iff a b, eq_iff b a)
same_relationship_sym none (some b) = refl
same_relationship_sym (some a) none = refl

-- One link may be given in two ways, which every other link is compared with alike.
pub same_link-cong : (x k l : Link) → same_link k l ≡ true → same_link x k ≡ same_link x l
unfolding same_link
same_link-cong (related_by e f t) (related_by a b r) (related_by c d s) h =
    let same : r ≡ s = same_relationship-eq r s (ground arith) in rw (← same) (ground arith)
same_link-cong (merged_with e f) (merged_with a b) (merged_with c d) h = ground arith
same_link-cong (related_by e f t) (merged_with a b) (merged_with c d) h = refl
same_link-cong (merged_with e f) (related_by a b r) (related_by c d s) h = refl
same_link-cong x (related_by a b r) (merged_with c d) h = cc
same_link-cong x (merged_with a b) (related_by c d s) h = cc

pub same_link_sym : (k l : Link) → same_link k l ≡ same_link l k
unfolding same_link
same_link_sym (related_by a b r) (related_by c d s) = ground (arith, same_relationship_sym r s)
same_link_sym (merged_with a b) (merged_with c d) = ground arith
same_link_sym (related_by a b r) (merged_with c d) = refl
same_link_sym (merged_with a b) (related_by c d s) = refl

pub find_open-cong :
    (k l : Link) (opened : Open) → same_link k l ≡ true → find_open k opened ≡ find_open l opened
unfolding find_open
find_open-cong k l [] h = refl
find_open-cong k l ((key, value) ∷ rest) h =
    rw (same_link-cong key k l h, find_open-cong k l rest h) refl

pub find_open-append :
    (l key : Link) (value : Opened) (opened : Open)
    → find_open l (opened ++ (key, value) ∷ []) ≡ elim (find_open l opened) [
      | some found ↦ some found
      | none ↦ if same_link key l then some value else none
    ]
unfolding find_open
find_open-append l key value [] = refl
find_open-append l key value ((k, v) ∷ rest) = ground (arith, find_open-append l key value rest)

-- Every entry stands under its own link, links two ids, and has no other entry under its link.
unfoldable pub link_of_opened : Opened → Link
link_of_opened o = elim o.relationship [
  | some r ↦ related_by o.subject o.other (some r)
  | none ↦ merged_with o.subject o.other
]

abbrev pub IsKeyed : Open → Type 0
IsKeyed [] = Unit
IsKeyed ((key, value) ∷ rest) =
    (key ≡ link_of_opened value)
    × (eqb value.subject value.other ≡ false)
    × (find_open key rest ≡ none)
    × IsKeyed rest

-- Removing a link makes it absent, and changes no other.
pub find_open-remove_open :
    (l key : Link) (opened : Open)
    → IsKeyed opened
    → find_open l (remove_open key opened) ≡ (if same_link key l then none else find_open l opened)
unfolding find_open remove_open
find_open-remove_open l key [] h = ground arith
find_open-remove_open l key ((k, v) ∷ rest) (_, _, once, h) = elim (Bool-cases (same_link k key)) [
  | inl same ↦
      let alike : same_link k l ≡ same_link key l =
        same_link_sym k l ∙ (same_link-cong l k key same ∙ same_link_sym l key) in
      let gone : find_open key rest ≡ none = sym (find_open-cong k key rest same) ∙ once in
      rw same (ground (arith, alike, find_open-cong key l rest))
  | inr other ↦
      rw other (ground (arith, find_open-remove_open l key rest h, same_link-cong k key l))
]

pub IsKeyed-remove_open :
    (key : Link) (opened : Open) → IsKeyed opened → IsKeyed (remove_open key opened)
unfolding remove_open
IsKeyed-remove_open key [] h = tt
IsKeyed-remove_open key ((k, v) ∷ rest) (own, apart, once, h) =
    elim (Bool-cases (same_link k key)) [
      | inl same ↦ rw same h
      | inr other ↦ rw other (
        own,
        apart,
        ground (arith, find_open-remove_open k key rest h),
        IsKeyed-remove_open key rest h,
      )
    ]

pub IsKeyed-append :
    (value : Opened) (opened : Open)
    → eqb value.subject value.other ≡ false
    → find_open (link_of_opened value) opened ≡ none
    → IsKeyed opened
    → IsKeyed (opened ++ (link_of_opened value, value) ∷ [])
unfolding find_open
IsKeyed-append value [] apart fresh h = (refl, apart, refl, tt)
IsKeyed-append value ((k, v) ∷ rest) apart fresh (own, d, once, h) = (
  own,
  d,
  ground (
    arith,
    find_open-append k (link_of_opened value) value rest,
    same_link_sym k (link_of_opened value),
  ),
  IsKeyed-append value rest apart (ground arith) h,
)

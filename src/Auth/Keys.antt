-- ===== src/Auth/Keys.antt =====
-- app/auth.py, `KeyRing`: whom each key authenticates.
use mathlib.Core.List.{Memᴰ}
use mathlib.Core.List.Memᴰ
use mathlib.Core.Path.{subst}
use mathlib.Core.Option.{some-injective}
use decision_ledger.Prelude.{
  ◌≡◌, refl, sym, ap, ◌∙◌, ◌⊎◌, String, true, false, not, Option, none, some, List, [], ◌∷◌, ◌==◌,
  if◌then◌else◌, Bool-cases, inl, inr, arith, eq_iff, ok, require, >>=-eq-ok, ok-injective,
  require-true,
}
use decision_ledger.Prelude.Dicts.{get_entry, get_entry-set_entry, set_entry-same}
use decision_ledger.Artifacts.{is_blank}
use decision_ledger.Auth.{
  PrincipalKind, by_reasoner, by_operator, by_trusted, Principal, same_kind, same_text,
  same_principal, blank_key, KeyRing, check_holder, key_entries, add_key, add_keys, key_ring,
  principal_of,
}

same_kind-eq : (a b : PrincipalKind) → same_kind a b ≡ true → a ≡ b
unfolding same_kind
same_kind-eq by_reasoner by_reasoner h = refl
same_kind-eq by_operator by_operator h = refl
same_kind-eq by_trusted by_trusted h = refl
same_kind-eq _ _ h = cc

same_text-eq : (a b : Option String) → same_text a b ≡ true → a ≡ b
unfolding same_text
same_text-eq none none h = refl
same_text-eq (some a) (some b) h = ap some ((eq_iff a b).0 h)
same_text-eq _ _ h = cc

same_principal-eq : (p q : Principal) → same_principal p q ≡ true → p ≡ q
unfolding same_principal
same_principal-eq p q h =
    let k : p.kind ≡ q.kind = same_kind-eq p.kind q.kind (ground arith) in
    let t : p.reasoner_id ≡ q.reasoner_id =
      same_text-eq p.reasoner_id q.reasoner_id (ground arith) in
    cc

-- A holder of the digest is the principal itself.
check_holder-same :
    (o : Option Principal) (p q : Principal) → check_holder o p ≡ ok tt → o ≡ some q → p ≡ q
unfolding check_holder
check_holder-same none p q h e = cc
check_holder-same (some holder) p q h e =
    let same = same_principal-eq holder p (require-true _ _ h) in cc

key_of-cases :
    {A : Type 0} (n k : String) (a b : Option A) {q : A}
    → (if n == k then a else b) ≡ some q
    → ((n ≡ k) × (a ≡ some q)) ⊎ (b ≡ some q)
key_of-cases n k a b h = elim (Bool-cases (n == k)) [
  | inl same ↦ inl ((eq_iff n k).0 same, rw same at h)
  | inr other ↦ inr (rw other at h)
]

module _ (digest : String → String) where
  -- What a key that was added leaves.
  record Added (key : String) (p : Principal) (before after : KeyRing) : Type 0 where
    visible : is_blank key ≡ false
    there : get_entry (digest key) after ≡ some p
    kept : (d : String) (q : Principal) → get_entry d before ≡ some q → get_entry d after ≡ some q
    only :
        (d : String) (q : Principal)
        → get_entry d after ≡ some q
        → ((digest key ≡ d) × (p ≡ q)) ⊎ (get_entry d before ≡ some q)

  add_key-Added :
      (key : String) (p : Principal) (before after : KeyRing)
      → add_key digest key p before ≡ ok after
      → Added key p before after
  unfolding add_key
  add_key-Added key p before after h =
      let (_, visible, h1) = >>=-eq-ok (require (not (is_blank key)) (blank_key p)) _ h in
      let (_, free, h2) = >>=-eq-ok (check_holder (get_entry (digest key) before) p) _ h1 in
      subst (Added key p before) (ok-injective h2) (record {
        visible = ground (arith, require-true _ _ visible);
        there = set_entry-same (digest key) p before;
        kept = λ d q e.
            get_entry-set_entry (digest key) p before d ∙ elim (Bool-cases (digest key == d)) [
              | inl same ↦
                  let held : get_entry (digest key) before ≡ some q =
                    rw ((eq_iff (digest key) d).0 same) e in
                  rw (same, check_holder-same (get_entry (digest key) before) p q free held) refl
              | inr other ↦ rw other e
            ];
        only = λ d q e.
            elim (key_of-cases (digest key) d (some p) (get_entry d before)
              (sym (get_entry-set_entry (digest key) p before d) ∙ e)) [
                | inl (same, is_p) ↦ inl (same, some-injective _ _ is_p)
                | inr old ↦ inr old
              ];
      })

  record AddedAll (entries : List (String × Principal)) (before after : KeyRing) : Type 0 where
    own :
        (key : String) (p : Principal)
        → Memᴰ (key, p) entries
        → (is_blank key ≡ false) × (get_entry (digest key) after ≡ some p)
    kept : (d : String) (q : Principal) → get_entry d before ≡ some q → get_entry d after ≡ some q
    only :
        (d : String) (q : Principal)
        → get_entry d after ≡ some q
        → ((k : String) × Memᴰ (k, q) entries × (digest k ≡ d)) ⊎ (get_entry d before ≡ some q)

  add_keys-AddedAll :
      (entries : List (String × Principal)) (before after : KeyRing)
      → add_keys digest entries before ≡ ok after
      → AddedAll entries before after
  unfolding add_keys
  add_keys-AddedAll [] before after h = rw (← ok-injective h) (record {
    own = λ key p listed. absurd (Memᴰ.not-nil listed);
    kept = λ d q e. e;
    only = λ d q e. inr e;
  })
  add_keys-AddedAll ((key, p) ∷ entries) before after h =
      let (mid, adds, rest) = >>=-eq-ok (add_key digest key p before) (add_keys digest entries) h in
      let one = add_key-Added key p before mid adds in
      let more = add_keys-AddedAll entries mid after rest in
      record {
        own = λ k q listed. elim (Memᴰ.cases_cons listed) [
          | inl e ↦
              subst
                (λ (x : String × Principal).
                  (is_blank (x.0) ≡ false) × (get_entry (digest (x.0)) after ≡ some (x.1)))
                (sym e) (one.visible, more.kept (digest key) p one.there)
          | inr later ↦ more.own k q later
        ];
        kept = λ d q e. more.kept d q (one.kept d q e);
        only = λ d q e. elim (more.only d q e) [
          | inl (k, listed, same) ↦ inl (k, Memᴰ.tail listed, same)
          | inr now ↦ elim (one.only d q now) [
            | inl (same, is_p) ↦ inl (key, Memᴰ.head (ap (λ x. (key, x)) (sym is_p)), same)
            | inr old ↦ inr old
          ]
        ];
      }

  -- Whom a ring authenticates.
  pub record Authenticates (entries : List (String × Principal)) (ring : KeyRing) : Type 0 where
    pub own :
        (key : String) (p : Principal)
        → Memᴰ (key, p) entries
        → principal_of digest ring (some key) ≡ some p
    pub only :
        (key : String) (p : Principal)
        → principal_of digest ring (some key) ≡ some p
        → (k : String) × Memᴰ (k, p) entries × (digest k ≡ digest key)

  not_empty : (key : String) → is_blank key ≡ false → (key == "") ≡ false
  unfolding is_blank
  not_empty key h = elim (Bool-cases (key == "")) [
    | inl same ↦ cc (rw ((eq_iff key "").0 same) at h)
    | inr other ↦ other
  ]

  -- A key ring that is built authenticates every configured key as the principal that it was
  -- configured for, and a key as a principal only if one of the same digest was configured for it.
  pub key_ring-Authenticates :
      (reasoner_keys : List (String × List String)) (operator_key : Option String) (ring : KeyRing)
      → key_ring digest reasoner_keys operator_key ≡ ok ring
      → Authenticates (key_entries reasoner_keys operator_key) ring
  unfolding key_ring principal_of
  key_ring-Authenticates reasoner_keys operator_key ring h =
      let all_added = add_keys-AddedAll (key_entries reasoner_keys operator_key) [] ring h in
      record {
        own = λ key p listed.
            let (visible, there) = all_added.own key p listed in rw (not_empty key visible) there;
        only = λ key p e. elim (key_of-cases key "" none (get_entry (digest key) ring) e) [
          | inl (_, nothing) ↦ cc nothing
          | inr found ↦ elim (all_added.only (digest key) p found) [
            | inl configured ↦ configured
            | inr before ↦ cc before
          ]
        ];
      }

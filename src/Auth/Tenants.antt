-- ===== src/Auth/Tenants.antt =====
-- app/auth.py: for whom a key may submit.
use mathlib.Core.List.{Memᴰ}
use mathlib.Core.List.Memᴰ
use decision_ledger.Prelude.{
  ◌≡◌, refl, ap, String, true, Option, none, some, List, [], ◌∷◌, ◌==◌, Bool-cases, inl, inr,
  eq_iff, ok,
}
use decision_ledger.Auth.{
  Principal, for_reasoner, operator_principal, may_submit_for, submits, same_id, keys_for,
  reasoner_entries, operator_entries, key_entries, key_ring, principal_of,
}
use decision_ledger.Auth.Keys.{key_ring-Authenticates}

mem-keys_for :
    (r : String) (keys : List String) (k : String) (p : Principal)
    → Memᴰ (k, p) (keys_for r keys)
    → Memᴰ k keys × (p ≡ for_reasoner r)
unfolding keys_for
mem-keys_for r [] k p m = absurd (Memᴰ.not-nil m)
mem-keys_for r (key ∷ keys) k p m = elim (Memᴰ.cases_cons m) [
  | inl e ↦ (Memᴰ.head (ap (λ x. x.0) e), ap (λ x. x.1) e)
  | inr later ↦ let (there, same) = mem-keys_for r keys k p later in (Memᴰ.tail there, same)
]

-- A key that is configured for a reasoner.
abbrev pub Configured : List (String × List String) → String → String → Type 0
Configured reasoner_keys r k = (keys : List String) × Memᴰ (r, keys) reasoner_keys × Memᴰ k keys

mem-reasoner_entries :
    (reasoner_keys : List (String × List String)) (k : String) (p : Principal)
    → Memᴰ (k, p) (reasoner_entries reasoner_keys)
    → (r : String) × Configured reasoner_keys r k × (p ≡ for_reasoner r)
unfolding reasoner_entries
mem-reasoner_entries [] k p m = absurd (Memᴰ.not-nil m)
mem-reasoner_entries ((r, keys) ∷ rest) k p m = elim (Memᴰ.append_cases (keys_for r keys) m) [
  | inl here ↦
      let (there, same) = mem-keys_for r keys k p here in (r, (keys, Memᴰ.head refl, there), same)
  | inr later ↦
      let (q, (ks, listed, there), same) = mem-reasoner_entries rest k p later in
      (q, (ks, Memᴰ.tail listed, there), same)
]

mem-operator_entries :
    (o : Option String) (k : String) (p : Principal)
    → Memᴰ (k, p) (operator_entries o)
    → p ≡ operator_principal
unfolding operator_entries
mem-operator_entries none k p m = absurd (Memᴰ.not-nil m)
mem-operator_entries (some key) k p m = elim (Bool-cases (key == "")) [
  | inl blank ↦ absurd (Memᴰ.not-nil (rw blank at m))
  | inr other ↦ elim (Memᴰ.cases_cons (rw other at m)) [
    | inl e ↦ ap (λ x. x.1) e
    | inr later ↦ absurd (Memᴰ.not-nil later)
  ]
]

-- With a key ring that is built, a key lets its caller submit for a reasoner only if a key of the
-- same digest is configured for that reasoner: the operator's key, and other reasoners' keys, do not.
pub key_ring-Configured :
    (digest : String → String) (reasoner_keys : List (String × List String))
    (operator_key : Option String) (ring : List (String × Principal)) (key : String) (p : Principal)
    (reasoner_id : String)
    → key_ring digest reasoner_keys operator_key ≡ ok ring
    → principal_of digest ring (some key) ≡ some p
    → may_submit_for p reasoner_id ≡ true
    → (k : String) × Configured reasoner_keys reasoner_id k × (digest k ≡ digest key)
unfolding key_entries may_submit_for submits same_id
key_ring-Configured digest reasoner_keys operator_key ring key p reasoner_id h e may =
    let a = key_ring-Authenticates digest reasoner_keys operator_key ring h in
    let (k, listed, same) = a.only key p e in
    elim (Memᴰ.append_cases (reasoner_entries reasoner_keys) listed) [
      | inl own ↦
          let (r, configured, is_own) = mem-reasoner_entries reasoner_keys k p own in
          let named : r ≡ reasoner_id = (eq_iff r reasoner_id).0 (rw is_own at may) in
          (k, rw (← named) configured, same)
      | inr operators ↦ cc (rw (mem-operator_entries operator_key k p operators) at may)
    ]

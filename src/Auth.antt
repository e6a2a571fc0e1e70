-- ===== src/Auth.antt =====
-- app/auth.py: the principals that API keys map to, and the key ring. A key's digest is a parameter,
-- and the settings and the file that keys are read from are left out.
pub mod Keys
pub mod Tenants
use decision_ledger.Prelude.{
  String, Bool, true, false, not, ◌&&◌, ◌||◌, Option, none, some, List, [], ◌∷◌, ◌++◌, map, ◌==◌,
  if◌then◌else◌, Outcome, ok, require, ◌>>=◌, ◌>>◌,
}
use decision_ledger.Prelude.Dicts.{get_entry, set_entry}
use decision_ledger.Artifacts.{is_blank}

pub data PrincipalKind : Type 0 where
  by_reasoner by_operator by_trusted : PrincipalKind

pub record Principal : Type 0 where
  pub kind : PrincipalKind
  pub reasoner_id : Option String

abbrev pub for_reasoner : String → Principal
for_reasoner reasoner_id = record { kind = by_reasoner; reasoner_id = some reasoner_id }

abbrev pub operator_principal : Principal
operator_principal = record { kind = by_operator; reasoner_id = none }

same_id : Option String → String → Bool
same_id none reasoner_id = false
same_id (some own) reasoner_id = own == reasoner_id

submits : PrincipalKind → Option String → String → Bool
unfolding same_id
submits by_trusted own reasoner_id = true
submits by_reasoner own reasoner_id = same_id own reasoner_id
submits by_operator own reasoner_id = false

-- `may_submit_for`
unfoldable pub may_submit_for : Principal → String → Bool
unfolding submits
may_submit_for p reasoner_id = submits p.kind p.reasoner_id reasoner_id

-- `may_resolve`
abbrev pub may_resolve : PrincipalKind → Bool
may_resolve by_reasoner = false
may_resolve _ = true

-- `may_read`
unfoldable pub may_read : Principal → String → Bool
unfolding same_id
may_read p reasoner_id = may_resolve p.kind || same_id p.reasoner_id reasoner_id

same_kind : PrincipalKind → PrincipalKind → Bool
same_kind by_reasoner by_reasoner = true
same_kind by_operator by_operator = true
same_kind by_trusted by_trusted = true
same_kind _ _ = false

same_text : Option String → Option String → Bool
same_text none none = true
same_text (some a) (some b) = a == b
same_text _ _ = false

-- `holder == principal`
pub same_principal : Principal → Principal → Bool
unfolding same_kind same_text
same_principal p q = same_kind p.kind q.kind && same_text p.reasoner_id q.reasoner_id

-- Why there is no key ring.
pub data KeyError : Type 0 where
  blank_key : Principal → KeyError
  shared_key : Principal → Principal → KeyError

-- The principal of each key's digest.
abbrev pub KeyRing : Type 0
KeyRing = List (String × Principal)

check_holder : Option Principal → Principal → Outcome KeyError (Unit {0})
unfolding same_principal
check_holder none principal = ok tt
check_holder (some holder) principal =
    require (same_principal holder principal) (shared_key holder principal)

keys_for : String → List String → List (String × Principal)
keys_for reasoner_id keys = map (λ key. (key, for_reasoner reasoner_id)) keys

pub reasoner_entries : List (String × List String) → List (String × Principal)
unfolding keys_for
reasoner_entries [] = []
reasoner_entries ((reasoner_id, keys) ∷ rest) = keys_for reasoner_id keys ++ reasoner_entries rest

-- `if operator_key:`
pub operator_entries : Option String → List (String × Principal)
operator_entries none = []
operator_entries (some key) = if key == "" then [] else (key, operator_principal) ∷ []

-- The keys that a ring is built of, in the order in which they are added.
unfoldable pub key_entries : List (String × List String) → Option String → List (String × Principal)
unfolding reasoner_entries operator_entries
key_entries reasoner_keys operator_key =
    reasoner_entries reasoner_keys ++ operator_entries operator_key

module _ (digest : String → String) where
  -- `_add`
  unfoldable pub add_key : String → Principal → KeyRing → Outcome KeyError KeyRing
  unfolding check_holder
  add_key key principal ring = do
    require (not (is_blank key)) (blank_key principal)
    check_holder (get_entry (digest key) ring) principal
    ok (set_entry (digest key) principal ring)

  unfoldable pub add_keys : List (String × Principal) → KeyRing → Outcome KeyError KeyRing
  add_keys [] ring = ok ring
  add_keys ((key, principal) ∷ entries) ring = add_key key principal ring >>= add_keys entries

  -- `KeyRing(reasoner_keys, operator_key)`
  unfoldable pub key_ring : List (String × List String) → Option String → Outcome KeyError KeyRing
  key_ring reasoner_keys operator_key = add_keys (key_entries reasoner_keys operator_key) []

  -- `principal`, of a key that was sent.
  unfoldable pub principal_of : KeyRing → Option String → Option Principal
  principal_of ring none = none
  principal_of ring (some key) = if key == "" then none else get_entry (digest key) ring

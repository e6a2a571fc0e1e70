-- ===== src/Examples/Authenticates.antt =====
-- A run of the key ring.
use decision_ledger.Prelude.{◌≡◌, refl, String, true, some, List, [], ◌∷◌, ok}
use decision_ledger.Prelude.Dicts.{set_entry}
use decision_ledger.Artifacts.{is_blank}
use decision_ledger.Auth.{
  for_reasoner, may_submit_for, KeyRing, key_entries, add_key, add_keys, key_ring, principal_of,
}
use decision_ledger.Auth.Tenants.{Configured, key_ring-Configured}

abbrev keys : List (String × List String)
keys = ("cards", "k1" ∷ "k2" ∷ []) ∷ ("loans", "k3" ∷ []) ∷ []

ring : (r : KeyRing) × (key_ring (λ key. key) keys (some "root") ≡ ok r)
unfolding key_ring add_keys key_entries add_key is_blank set_entry
ring = (_, refl)

authenticated : principal_of (λ key. key) (ring.0) (some "k2") ≡ some (for_reasoner "cards")
unfolding ring principal_of
authenticated = refl

may_submit : may_submit_for (for_reasoner "cards") "cards" ≡ true
unfolding may_submit_for
may_submit = refl

key_ring-Configured_example : (k : String) × Configured keys "cards" k × (k ≡ "k2")
key_ring-Configured_example =
    key_ring-Configured (λ key. key) keys (some "root") (ring.0) "k2" (for_reasoner "cards") "cards"
      (ring.1) authenticated may_submit

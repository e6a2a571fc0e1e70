-- ===== src/Registry/Laws.antt =====
-- app/reasoner_registry.py: what the registry serves after a registration.
use decision_ledger.Prelude.{
  ℕ, String, ◌≡◌, refl, sym, ap, ◌∙◌, Bool, true, false, ◌||◌, ◌≢◌, ◌⊎◌, Option, none, some, [],
  ◌∷◌, arith, contains, distinct, ◌==◌, eq_iff, if◌then◌else◌, ok, require, ok-injective, >>=-eq-ok,
}
use mathlib.Core.Path.{subst}
use mathlib.Core.Option.{some-injective}
use decision_ledger.Registration.{ReasonerRegistration}
use decision_ledger.Registry.{
  RegisteredReasoner, entry_id, api_source, Registry, entry_ids, find, found, entry, put,
  written_entry, register, register_over, declared,
}

pub find-put :
    (new : RegisteredReasoner) (store : Registry) → find (put new store) (entry_id new) ≡ some new
unfolding put find
find-put new [] = ground (arith, eq_iff (entry_id new) (entry_id new))
find-put new (e ∷ store) = ground (arith, find-put new store, eq_iff (entry_id new) (entry_id new))

pub find-put_other :
    (new : RegisteredReasoner) (store : Registry) (reasoner_id : String)
    → entry_id new ≢ reasoner_id
    → find (put new store) reasoner_id ≡ find store reasoner_id
unfolding put find
find-put_other new [] reasoner_id other = ground (arith, eq_iff (entry_id new) reasoner_id)
find-put_other new (e ∷ store) reasoner_id other = ground (
  arith,
  find-put_other new store reasoner_id other,
  eq_iff (entry_id new) reasoner_id,
  eq_iff (entry_id e) (entry_id new),
  eq_iff (entry_id e) reasoner_id,
)

contains-put :
    (new : RegisteredReasoner) (store : Registry) (name : String)
    → contains (entry_ids (put new store)) name
      ≡ (entry_id new == name || contains (entry_ids store) name)
unfolding put
contains-put new [] name = refl
contains-put new (e ∷ store) name =
    ground (arith, contains-put new store name, eq_iff (entry_id e) (entry_id new))

distinct-put :
    (new : RegisteredReasoner) (store : Registry)
    → distinct (entry_ids store) ≡ true
    → distinct (entry_ids (put new store)) ≡ true
unfolding put
distinct-put new [] d = refl
distinct-put new (e ∷ store) d = ground (
  arith,
  distinct-put new store,
  contains-put new store (entry_id e),
  eq_iff (entry_id e) (entry_id new),
  eq_iff (entry_id new) (entry_id e),
)

module _ (version_of : ReasonerRegistration → String) where
  -- What a registration that was accepted leaves: a registry that serves its version.
  pub record Served (store : Registry) (registration : ReasonerRegistration)
      (after : Registry × String) : Type 0 where
    pub address : after.1 ≡ version_of registration
    pub served :
        (e : RegisteredReasoner) × (find after.0 registration.reasoner_id ≡ some e)
        × (e.version ≡ version_of registration)
    pub others :
        (reasoner_id : String)
        → registration.reasoner_id ≢ reasoner_id
        → find after.0 reasoner_id ≡ find store reasoner_id
    pub once : distinct (entry_ids store) ≡ true → distinct (entry_ids after.0) ≡ true

  put-Served :
      (store : Registry) (registration : ReasonerRegistration) (new : RegisteredReasoner)
      → new.registration ≡ registration
      → new.version ≡ version_of registration
      → Served store registration (put new store, version_of registration)
  put-Served store registration new r v = record {
    address = refl;
    served = (
      new,
      ap (λ (g : ReasonerRegistration). find (put new store) g.reasoner_id) (sym r)
          ∙ find-put new store,
      v,
    );
    others = λ reasoner_id other.
        find-put_other new store reasoner_id
          (λ same. other (ap (λ (g : ReasonerRegistration). g.reasoner_id) (sym r) ∙ same));
    once = distinct-put new store;
  }

  register_over-Served :
      (store : Registry) (registration : ReasonerRegistration) (new : RegisteredReasoner)
      (o : Option RegisteredReasoner) (after : Registry × String)
      → new.registration ≡ registration
      → new.version ≡ version_of registration
      → find store registration.reasoner_id ≡ o
      → register_over version_of store registration new o ≡ ok after
      → Served store registration after
  unfolding register_over
  register_over-Served store registration new none after r v e h =
      subst (Served store registration) (ok-injective h) (put-Served store registration new r v)
  register_over-Served store registration new (some current) after r v e h =
      let (u, allowed, h') =
        >>=-eq-ok (require (current.source == api_source) (declared current.source)) _ h in
      subst (Served store registration) (ok-injective h') (
        chosen (current.version == version_of registration)
          (λ unchanged. (current, e, (eq_iff _ _).0 unchanged)))
    where
      chosen :
          (b : Bool)
          → (b ≡ true
              → (c : RegisteredReasoner) × (find store registration.reasoner_id ≡ some c)
                × (c.version ≡ version_of registration))
          → Served store registration (if b then store else put new store, version_of registration)
      chosen true current = record {
        address = refl;
        served = current refl;
        others = λ reasoner_id other. refl;
        once = λ d. d;
      }
      chosen false current = put-Served store registration new r v

  -- A registration that is accepted returns its content address, after which the registry serves
  -- that version under its reasoner, every other reasoner is served as before, and no reasoner is
  -- listed twice if none was.
  pub register-Served :
      (store : Registry) (registration : ReasonerRegistration) (registered_by : String) (now : ℕ)
      (after : Registry × String)
      → register version_of store registration registered_by now ≡ ok after
      → Served store registration after
  unfolding register written_entry
  register-Served store registration registered_by now after h =
      register_over-Served store registration _ _ after refl refl refl h

  refused :
      (store : Registry) (registration : ReasonerRegistration) (new : RegisteredReasoner)
      (o : Option RegisteredReasoner) (e : RegisteredReasoner) (after : Registry × String)
      → o ≡ some e
      → e.source ≢ api_source
      → register_over version_of store registration new o ≢ ok after
  unfolding register_over
  refused store registration new none e after served source h = cc
  refused store registration new (some current) e after served source h =
      let (u, allowed, h') =
        >>=-eq-ok (require (current.source == api_source) (declared current.source)) _ h in
      ground (
        arith,
        eq_iff current.source api_source,
        ap (λ (e : RegisteredReasoner). e.source) (some-injective _ _ served),
      )

  -- An entry that is declared configuration is served unchanged after any registration.
  pub register-declared :
      (store : Registry) (registration : ReasonerRegistration) (registered_by : String) (now : ℕ)
      (after : Registry × String) (e : RegisteredReasoner) (reasoner_id : String)
      → find store reasoner_id ≡ some e
      → e.source ≢ api_source
      → register version_of store registration registered_by now ≡ ok after
      → find after.0 reasoner_id ≡ some e
  unfolding register
  register-declared store registration registered_by now after e reasoner_id served source h =
      (register-Served store registration registered_by now after h).others reasoner_id
        (λ same. refused store registration _ _ e after (ap (find store) same ∙ served) source h)
      ∙ served

  -- The entry of a registration that was new to the store, or that replaced an older version.
  pub record Entered (store : Registry) (registration : ReasonerRegistration)
      (registered_by : String) (now : ℕ) (e : RegisteredReasoner) : Type 0 where
    pub as_given : e.registration ≡ registration
    pub from_api : e.source ≡ api_source
    pub by : e.registered_by ≡ some registered_by
    pub updated : e.updated_at ≡ some now
    pub registered : e.registered_at ≡ elim (find store registration.reasoner_id) [
      | none ↦ some now
      | some before ↦ before.registered_at
    ]

  -- What the registry serves after a registration that was accepted: the entry that it had, of this
  -- version, with nothing changed; or one that was entered.
  abbrev pub Serves :
      Registry → ReasonerRegistration → String → ℕ → Registry → RegisteredReasoner → Type 0
  Serves store registration registered_by now after e =
      (entry after registration.reasoner_id ≡ ok e)
      × (e.version ≡ version_of registration)
      × (((find store registration.reasoner_id ≡ some e) × (after ≡ store))
          ⊎ Entered store registration registered_by now e)

  module _ (store : Registry) (registration : ReasonerRegistration) (registered_by : String)
      (now : ℕ) where
    abbrev made : Option RegisteredReasoner → RegisteredReasoner
    made = written_entry registration (version_of registration) registered_by now

  -- A registration that is accepted changes what is served for no other reasoner.
  pub register-others :
      (store : Registry) (registration : ReasonerRegistration) (registered_by : String) (now : ℕ)
      (after : Registry × String) (reasoner_id : String)
      → register version_of store registration registered_by now ≡ ok after
      → registration.reasoner_id ≢ reasoner_id
      → entry after.0 reasoner_id ≡ entry store reasoner_id
  unfolding entry
  register-others store registration registered_by now after reasoner_id h other =
      ap (found reasoner_id)
        ((register-Served store registration registered_by now after h).others reasoner_id other)

  -- A registration that is accepted lists no reasoner twice, if none was.
  pub register-once :
      (store : Registry) (registration : ReasonerRegistration) (registered_by : String) (now : ℕ)
      (after : Registry × String)
      → register version_of store registration registered_by now ≡ ok after
      → distinct (entry_ids store) ≡ true
      → distinct (entry_ids after.0) ≡ true
  register-once store registration registered_by now after h once =
      (register-Served store registration registered_by now after h).once once

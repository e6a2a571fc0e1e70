-- ===== src/Registry.antt =====
-- app/reasoner_registry.py: the registrations that a deployment serves. The content address of a
-- registration is a parameter, and so is the writer: it stores the entry that it returns.
pub mod Laws
use decision_ledger.Prelude.{
  ℕ, String, Bool, true, false, not, Option, none, some, List, [], ◌∷◌, first, contains, is_some,
  ◌==◌, if◌then◌else◌, Outcome, ok, raised, require, ◌>>=◌, ◌>>◌,
}
use decision_ledger.Registration.{ReasonerRegistration}

pub record RegisteredReasoner : Type 0 where
  pub registration : ReasonerRegistration
  pub version : String
  pub source : String
  pub registered_by : Option String
  pub registered_at : Option ℕ
  pub updated_at : Option ℕ

abbrev pub entry_id : RegisteredReasoner → String
entry_id e = e.registration.reasoner_id

abbrev pub api_source : String
api_source = "api"

pub data RegistryError : Type 0 where
  unregistered declared : String → RegistryError
  duplicate : String → RegistryError

-- The store, a map from `reasoner_id` to its entry, in the order of insertion.
abbrev pub Registry : Type 0
Registry = List RegisteredReasoner

abbrev pub entry_ids : Registry → List String
entry_ids [] = []
entry_ids (e ∷ store) = entry_id e ∷ entry_ids store

unfoldable pub find : Registry → String → Option RegisteredReasoner
find store reasoner_id = first (λ e. entry_id e == reasoner_id) store

pub found : String → Option RegisteredReasoner → Outcome RegistryError RegisteredReasoner
found reasoner_id none = raised (unregistered reasoner_id)
found reasoner_id (some e) = ok e

unfoldable pub entry : Registry → String → Outcome RegistryError RegisteredReasoner
unfolding found
entry store reasoner_id = found reasoner_id (find store reasoner_id)

unfoldable pub get : Registry → String → Outcome RegistryError ReasonerRegistration
get store reasoner_id = do e ← entry store reasoner_id; ok e.registration

-- `store[reasoner_id] = entry`: in place of the entry with that key, or at the end.
unfoldable pub put : RegisteredReasoner → Registry → Registry
put new [] = new ∷ []
put new (e ∷ store) =
    let rest = put new store in if entry_id e == entry_id new then new ∷ store else e ∷ rest

-- The constructor: declared entries, then those written earlier, none twice.
unfoldable pub load : Registry → List RegisteredReasoner → Outcome RegistryError Registry
load store [] = ok store
load store (e ∷ entries) =
    if is_some (find store (entry_id e))
    then raised (duplicate (entry_id e))
    else load (put e store) entries

registered_at_of : Option RegisteredReasoner → ℕ → Option ℕ
registered_at_of none now = some now
registered_at_of (some current) now = current.registered_at

-- The entry that `register` keeps when it has no writer.
unfoldable pub written_entry :
    ReasonerRegistration → String → String → ℕ → Option RegisteredReasoner → RegisteredReasoner
unfolding registered_at_of
written_entry registration version registered_by now current = record {
  registration = registration;
  version = version;
  source = api_source;
  registered_by = some registered_by;
  registered_at = registered_at_of current now;
  updated_at = some now;
}

module _ (version_of : ReasonerRegistration → String) where
  -- `current` is the entry that the registry serves for the reasoner.
  pub register_over :
      Registry
      → ReasonerRegistration
      → RegisteredReasoner
      → Option RegisteredReasoner
      → Outcome RegistryError (Registry × String)
  register_over store registration new none = ok (put new store, version_of registration)
  register_over store registration new (some current) = do
    require (current.source == api_source) (declared current.source)
    ok (
      if current.version == version_of registration then store else put new store,
      version_of registration,
    )

  unfoldable pub register :
      Registry → ReasonerRegistration → String → ℕ → Outcome RegistryError (Registry × String)
  unfolding register_over
  register store registration registered_by now =
      register_over store registration
        (written_entry registration (version_of registration) registered_by now
          (find store registration.reasoner_id))
        (find store registration.reasoner_id)

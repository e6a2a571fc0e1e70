-- ===== src/Store.antt =====
-- app/audit/store.py: the audit store. Its tables are lists of rows in the order of insertion; a
-- statement with `ON CONFLICT DO NOTHING` adds no second row under one key. The JSON of
-- a bundle, its validation and the comparison of bundles are parameters, the record `Codec`: a row
-- keeps the JSON, and the text that is written and the value that is read from the column are one
-- document. Of the membership projection the store keeps here the links that its own writes open. An
-- id is taken in the canonical spelling of its UUID, and every row has the current schema version.
pub mod Laws
use decision_ledger.Prelude.{
  ◌≡◌, ℕ, String, Bool, true, false, ◌&&◌, ◌||◌, not, Option, none, some, List, [], ◌∷◌, ◌++◌, any,
  first, is_some, eqb, ◌==◌, if◌then◌else◌, Outcome, ok, raised, require, ◌>>=◌, ◌>>◌,
}
use decision_ledger.Identity.{Uuid, RelatedEntity, ResolvedIdentity}
use decision_ledger.Registration.{ReasonerRegistration}
use decision_ledger.Registry.{RegistryError, Registry, get}
use decision_ledger.Bundle.{DecisionBundle}
use decision_ledger.Decision.{DecisionError}
use decision_ledger.Replay.{ReplayResult, replay_bundle}

-- An open interval of the membership projection.
pub record OpenLink : Type 0 where
  pub subject_entity_id : Uuid
  pub related_entity_id : Uuid
  pub relationship_type : String
  pub valid_from : ℕ

-- A registration version that was served.
pub record Snapshot : Type 0 where
  pub reasoner_id : String
  pub version : String
  pub registration : ReasonerRegistration

-- The JSON of a bundle: a document, or `none` where its validation fails.
pub record Codec : Type 1 where
  pub Document : Type 0
  -- `_serialize_bundle`
  pub serialize : DecisionBundle → Document
  -- `_deserialize_bundle`
  pub deserialize : Document → Option DecisionBundle
  -- `==`, of what a bundle reloads as and the bundle.
  pub is_reloaded : (b : DecisionBundle) → Dec (deserialize (serialize b) ≡ some b)

-- A row of `decision_bundles`.
pub record Row (Document : Type 0) : Type 0 where
  pub decision_id : String
  pub bundle : Document

pub record Tables (Document : Type 0) : Type 0 where
  pub bundles : List (Row Document)
  pub links : List OpenLink
  pub replay_logs : List ReplayResult
  pub snapshots : List Snapshot

pub data StoreError : Type 0 where
  does_not_reload not_found does_not_validate : String → StoreError
  snapshot_missing : String → String → StoreError
  not_registered : RegistryError → StoreError
  replay_failed : DecisionError → StoreError

-- `SELECT ... WHERE decision_id = %s`
unfoldable pub find_bundle :
    {Document : Type 0} → List (Row Document) → String → Option (Row Document)
find_bundle rows decision_id = first (λ row. row.decision_id == decision_id) rows

-- `_INSERT_BUNDLE`
unfoldable pub insert_bundle :
    {Document : Type 0} → Row Document → List (Row Document) → List (Row Document)
insert_bundle row rows =
    if is_some (find_bundle rows row.decision_id) then rows else rows ++ row ∷ []

-- One open interval per link: the partial unique index.
same_link : OpenLink → OpenLink → Bool
same_link l k =
    eqb l.subject_entity_id k.subject_entity_id
    && eqb l.related_entity_id k.related_entity_id
    && l.relationship_type == k.relationship_type

-- `_INSERT_RELATIONSHIP`
unfoldable pub insert_link : OpenLink → List OpenLink → List OpenLink
unfolding same_link
insert_link l links = if any (same_link l) links then links else links ++ l ∷ []

unfoldable pub insert_links : List OpenLink → List OpenLink → List OpenLink
insert_links [] links = links
insert_links (l ∷ ls) links = insert_links ls (insert_link l links)

links_of : ResolvedIdentity → List RelatedEntity → List OpenLink
links_of identity [] = []
links_of identity (r ∷ rs) =
    record {
      subject_entity_id = identity.entity_id;
      related_entity_id = r.entity_id;
      relationship_type = r.relationship_type;
      valid_from = identity.provenance.resolved_at;
    }
    ∷ links_of identity rs

asserted_links : Option ResolvedIdentity → List OpenLink
unfolding links_of
asserted_links none = []
asserted_links (some identity) = links_of identity identity.related

unfoldable pub relationship_rows : DecisionBundle → List OpenLink
unfolding asserted_links
relationship_rows b = asserted_links b.identity

module _ (codec : Codec) where
  -- The id and the JSON of `_row`, after its check; the other columns repeat the bundle.
  unfoldable pub row_of : DecisionBundle → Outcome StoreError (Row codec.Document)
  row_of b = elim (codec.is_reloaded b) [
    | yes same ↦ ok (record { decision_id = b.decision_id; bundle = codec.serialize b })
    | no differs ↦ raised (does_not_reload b.decision_id)
  ]

  -- `BundleStore.write`
  unfoldable pub write :
      DecisionBundle → Tables codec.Document → Outcome StoreError (Tables codec.Document)
  write b tables = do
    row ← row_of b
    ok (
        if is_some (find_bundle tables.bundles row.decision_id) then tables else record tables {
          bundles = insert_bundle row tables.bundles;
          links = insert_links (relationship_rows b) tables.links;
        })

  -- `as_bundle`
  pub validated : String → Option DecisionBundle → Outcome StoreError DecisionBundle
  validated decision_id none = raised (does_not_validate decision_id)
  validated decision_id (some b) = ok b

  pub loaded : String → Option (Row codec.Document) → Outcome StoreError DecisionBundle
  unfolding validated
  loaded decision_id none = raised (not_found decision_id)
  loaded decision_id (some row) = validated decision_id (codec.deserialize row.bundle)

  -- `BundleStore.load`
  unfoldable pub load : Tables codec.Document → String → Outcome StoreError DecisionBundle
  unfolding loaded
  load tables decision_id = loaded decision_id (find_bundle tables.bundles decision_id)

-- `RegistrationSnapshots.get`
unfoldable pub find_snapshot : List Snapshot → String → String → Option Snapshot
find_snapshot snapshots reasoner_id version =
    first (λ s. s.reasoner_id == reasoner_id && s.version == version) snapshots

abbrev pub lift_registry : {A : Type 0} → Outcome RegistryError A → Outcome StoreError A
lift_registry (ok a) = ok a
lift_registry (raised e) = raised (not_registered e)

module _ (version_of : ReasonerRegistration → String) (registry : Registry) where
  pub current_version :
      String
      → String
      → Outcome RegistryError ReasonerRegistration
      → Outcome StoreError ReasonerRegistration
  current_version reasoner_id version (raised e) = raised (snapshot_missing reasoner_id version)
  current_version reasoner_id version (ok current) =
      if version_of current == version
      then ok current
      else raised (snapshot_missing reasoner_id version)

  pub snapshot_or_current :
      String → String → Option Snapshot → Outcome StoreError ReasonerRegistration
  unfolding current_version
  snapshot_or_current reasoner_id version (some s) = ok s.registration
  snapshot_or_current reasoner_id version none =
      current_version reasoner_id version (get registry reasoner_id)

  -- `BundleStore.registration_for`
  unfoldable pub registration_for :
      List Snapshot → String → Option String → Outcome StoreError ReasonerRegistration
  unfolding snapshot_or_current
  registration_for snapshots reasoner_id none = lift_registry (get registry reasoner_id)
  registration_for snapshots reasoner_id (some version) =
      snapshot_or_current reasoner_id version (find_snapshot snapshots reasoner_id version)

  pub logged :
      {Document : Type 0}
      → Tables Document
      → Outcome DecisionError ReplayResult
      → Outcome StoreError (Tables Document × ReplayResult)
  logged tables (raised e) = raised (replay_failed e)
  logged tables (ok result) =
      ok (record tables { replay_logs = tables.replay_logs ++ result ∷ [] }, result)

  -- `BundleStore.replay`
  unfoldable pub replay :
      (codec : Codec)
      → Tables codec.Document
      → String
      → Outcome StoreError (Tables codec.Document × ReplayResult)
  unfolding logged
  replay codec tables decision_id = do
    b ← load codec tables decision_id
    registration ← registration_for tables.snapshots b.submission.reasoner_id b.registration_version
    logged tables (replay_bundle version_of b registration)

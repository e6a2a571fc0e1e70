-- ===== src/Store/Laws.antt =====
-- app/audit/store.py: what the audit store holds after a write.
use mathlib.Core.Path.{subst}
use decision_ledger.Prelude.{
  String, ◌≡◌, refl, ap, ◌∙◌, Option, none, some, List, [], ◌∷◌, ◌++◌, arith, is_some, ◌==◌, eq_iff,
  if◌then◌else◌, ok, >>=-eq-ok, >>=-ok, ok-injective, sym, raised,
}
use decision_ledger.Bundle.{DecisionBundle}
use decision_ledger.Registration.{ReasonerRegistration}
use decision_ledger.Registry.{Registry, get}
use decision_ledger.Replay.{ReplayResult, replay_bundle}
use decision_ledger.Store.{
  Codec, Row, Tables, row_of, validated, Snapshot, find_snapshot, snapshot_or_current,
  current_version, registration_for, logged, replay, does_not_reload, find_bundle, insert_bundle,
  insert_links, relationship_rows, write, load, loaded,
}

module _ {Document : Type 0} where
  find-append :
      (rows : List (Row Document)) (row : Row Document) (decision_id : String)
      → find_bundle (rows ++ row ∷ []) decision_id ≡ elim (find_bundle rows decision_id) [
        | some found ↦ some found
        | none ↦ if row.decision_id == decision_id then some row else none
      ]
  unfolding find_bundle
  find-append [] row decision_id = refl
  find-append (r ∷ rows) row decision_id = ground (arith, find-append rows row decision_id)

  find-kept :
      (rows : List (Row Document)) (row : Row Document) (decision_id : String)
      (found : Row Document)
      → find_bundle rows decision_id ≡ some found
      → find_bundle (rows ++ row ∷ []) decision_id ≡ some found
  find-kept rows row decision_id found e = find-append rows row decision_id ∙ rw e refl

  find-added :
      (rows : List (Row Document)) (row : Row Document)
      → find_bundle rows row.decision_id ≡ none
      → find_bundle (rows ++ row ∷ []) row.decision_id ≡ some row
  find-added rows row e =
      find-append rows row row.decision_id
      ∙ rw (e, (eq_iff row.decision_id row.decision_id).1 refl) refl

module _ (codec : Codec) where
  -- What a write that was accepted leaves, with the row that it inserts.
  pub record Written (b : DecisionBundle) (before after : Tables codec.Document) : Type 0 where
    pub row : Row codec.Document
    pub own : row.decision_id ≡ b.decision_id
    pub reloads : codec.deserialize row.bundle ≡ some b
    pub kept :
        (decision_id : String) (found : Row codec.Document)
        → find_bundle before.bundles decision_id ≡ some found
        → find_bundle after.bundles decision_id ≡ some found
    pub added :
        find_bundle before.bundles b.decision_id ≡ none
        → find_bundle after.bundles b.decision_id ≡ some row
    pub logs : after.replay_logs ≡ before.replay_logs
    pub snapshots : after.snapshots ≡ before.snapshots

  -- The row of a bundle that survives the round trip.
  abbrev kept_row : DecisionBundle → Row codec.Document
  kept_row b = record { decision_id = b.decision_id; bundle = codec.serialize b }

  row_of-ok :
      (b : DecisionBundle) (row : Row codec.Document)
      → row_of codec b ≡ ok row
      → (row ≡ kept_row b) × (codec.deserialize (codec.serialize b) ≡ some b)
  unfolding row_of
  row_of-ok b row h = checked (codec.is_reloaded b) h
    where
      checked :
          (d : Dec (codec.deserialize (codec.serialize b) ≡ some b))
          → (elim d [
            | yes same ↦ ok (kept_row b)
            | no differs ↦ raised (does_not_reload b.decision_id)
          ])
            ≡ ok row
          → (row ≡ kept_row b) × (codec.deserialize (codec.serialize b) ≡ some b)
      checked (yes same) e = (sym (ok-injective e), same)
      checked (no differs) e = cc

  -- The tables after the write, by what the store has under the id.
  abbrev pub tables_after :
      DecisionBundle → Tables codec.Document → Option (Row codec.Document) → Tables codec.Document
  tables_after b before o = if is_some o then before else record before {
    bundles = if is_some o then before.bundles else before.bundles ++ kept_row b ∷ [];
    links = insert_links (relationship_rows b) before.links;
  }

  written :
      (b : DecisionBundle) (before : Tables codec.Document) (o : Option (Row codec.Document))
      → codec.deserialize (codec.serialize b) ≡ some b
      → find_bundle before.bundles b.decision_id ≡ o
      → Written b before (tables_after b before o)
  written b before (some found) same e = record {
    row = kept_row b;
    own = refl;
    reloads = same;
    kept = λ decision_id found h. h;
    added = λ n. cc;
    logs = refl;
    snapshots = refl;
  }
  written b before none same e = record {
    row = kept_row b;
    own = refl;
    reloads = same;
    kept = find-kept before.bundles (kept_row b);
    added = find-added before.bundles (kept_row b);
    logs = refl;
    snapshots = refl;
  }

  -- A bundle that was found under an id is loaded under it.
  pub load-found :
      (tables : Tables codec.Document) (decision_id : String) (row : Row codec.Document)
      (b : DecisionBundle)
      → find_bundle tables.bundles decision_id ≡ some row
      → codec.deserialize row.bundle ≡ some b
      → load codec tables decision_id ≡ ok b
  unfolding load loaded validated
  load-found tables decision_id row b e v = rw (e, v) refl

  module _ (b : DecisionBundle) (before after : Tables codec.Document) where
    accepted :
        write codec b before ≡ ok after
        → (tables_after b before (find_bundle before.bundles b.decision_id) ≡ after)
          × (codec.deserialize (codec.serialize b) ≡ some b)
    unfolding write insert_bundle
    accepted h =
        let (row, of_b, h1) = >>=-eq-ok (row_of codec b) _ h in
        let (same_row, same) = row_of-ok b row of_b in (ok-injective (rw same_row at h1), same)

    -- A write that is accepted keeps every row under its id and adds the bundle's if its id is new;
    -- it writes no replay log and no snapshot.
    pub write-Written : write codec b before ≡ ok after → Written b before after
    write-Written h =
        let (same_tables, same) = accepted h in
        subst (Written b before) same_tables
          (written b before (find_bundle before.bundles b.decision_id) same refl)

    -- No write changes or removes a bundle: what was stored under an id is loaded under it after any
    -- write that is accepted.
    pub write-keeps :
        (decision_id : String) (stored : DecisionBundle)
        → write codec b before ≡ ok after
        → load codec before decision_id ≡ ok stored
        → load codec after decision_id ≡ ok stored
    unfolding load loaded
    write-keeps decision_id stored h loads = go (find_bundle before.bundles decision_id) refl loads
      where
        go :
            (o : Option (Row codec.Document))
            → find_bundle before.bundles decision_id ≡ o
            → loaded codec decision_id o ≡ ok stored
            → loaded codec decision_id (find_bundle after.bundles decision_id) ≡ ok stored
        go none e v = cc
        go (some row) e v = rw ((write-Written h).kept decision_id row e) v

module _ (version_of : ReasonerRegistration → String) (registry : Registry) where
  under_snapshot :
      (reasoner_id : String) (registration : ReasonerRegistration) (o : Option Snapshot)
      → get registry reasoner_id ≡ ok registration
      → ((snapshot : Snapshot) → o ≡ some snapshot → snapshot.registration ≡ registration)
      → snapshot_or_current version_of registry reasoner_id (version_of registration) o
        ≡ ok registration
  unfolding snapshot_or_current current_version
  under_snapshot reasoner_id registration none served snapshots =
      rw (served, (eq_iff (version_of registration) (version_of registration)).1 refl) refl
  under_snapshot reasoner_id registration (some snapshot) served snapshots =
      ap ok (snapshots snapshot refl)

  -- The registration that is served is found under its version, if no other is snapshotted as it.
  pub registration_for-served :
      (snapshots : List Snapshot) (reasoner_id : String) (registration : ReasonerRegistration)
      → get registry reasoner_id ≡ ok registration
      → ((snapshot : Snapshot)
          → find_snapshot snapshots reasoner_id (version_of registration) ≡ some snapshot
          → snapshot.registration ≡ registration)
      → registration_for version_of registry snapshots reasoner_id (some (version_of registration))
        ≡ ok registration
  unfolding registration_for
  registration_for-served snapshots reasoner_id registration served same =
      under_snapshot reasoner_id registration
        (find_snapshot snapshots reasoner_id (version_of registration)) served same

  -- Replay by id is the replay of the bundle, appended to the log.
  pub replay-logged :
      (codec : Codec) (tables : Tables codec.Document) (decision_id : String) (b : DecisionBundle)
      (registration : ReasonerRegistration) (result : ReplayResult)
      → load codec tables decision_id ≡ ok b
      → registration_for version_of registry tables.snapshots b.submission.reasoner_id
          b.registration_version
        ≡ ok registration
      → replay_bundle version_of b registration ≡ ok result
      → replay version_of registry codec tables decision_id
        ≡ ok (record tables { replay_logs = tables.replay_logs ++ result ∷ [] }, result)
  unfolding replay logged
  replay-logged codec tables decision_id b registration result loads under gives =
      >>=-ok _ _ loads ∙ >>=-ok _ _ under ∙ rw gives refl

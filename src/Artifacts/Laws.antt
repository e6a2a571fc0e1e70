-- ===== src/Artifacts/Laws.antt =====
-- app/audit/artifacts.py: what the escrow keeps.
use decision_ledger.Prelude.{
  String, Bool, true, false, Option, none, some, List, ◌≡◌, refl, ◌⊎◌, arith, all, eq_iff, ◌==◌, ok,
  Option-cases, inl, inr,
}
use decision_ledger.Prelude.Finding.{first-append, first-passes, all-first, all-append}
use decision_ledger.Artifacts.{
  Bytes, Artifact, is_digest, find_artifact, insert_artifact, get, bytes_of, artifact_of, put,
}

insert-keeps :
    (row : Artifact) (rows : List Artifact) (h : String) (c : Bytes)
    → get rows h ≡ some c
    → get (insert_artifact row rows) h ≡ some c
unfolding get insert_artifact find_artifact bytes_of
insert-keeps row rows h c e =
    ground (arith, first-append (λ (a : Artifact). a.artifact_hash == h) rows row)

module _ (sha256 : Bytes → String) where
  -- Every row stands under the digest of its content.
  abbrev pub is_addressed : List Artifact → Bool
  is_addressed = all (λ row. row.artifact_hash == sha256 row.artifact_bytes)

  put-cases :
      (content : Bytes) (media_type decision_id gate_id : String) (enabled : Bool)
      (rows after : List Artifact) (digest : Option String)
      → put sha256 enabled content media_type decision_id gate_id rows ≡ ok (after, digest)
      → ((after ≡ insert_artifact (artifact_of sha256 content media_type decision_id gate_id) rows)
          × (digest ≡ some (sha256 content))
          × (enabled ≡ true))
        ⊎ ((after ≡ rows) × (digest ≡ none) × (enabled ≡ false))
  unfolding put
  put-cases content media_type decision_id gate_id enabled rows after digest h = ground arith

  insert-is_addressed :
      (row : Artifact) (rows : List Artifact)
      → row.artifact_hash ≡ sha256 row.artifact_bytes
      → is_addressed rows ≡ true
      → is_addressed (insert_artifact row rows) ≡ true
  unfolding insert_artifact
  insert-is_addressed row rows e h = ground (
    arith,
    all-append (λ (a : Artifact). a.artifact_hash == sha256 a.artifact_bytes) rows row,
    eq_iff row.artifact_hash (sha256 row.artifact_bytes),
  )

  -- What is read of addressed rows has the digest that it was asked by.
  pub get-digest :
      (rows : List Artifact) (h : String) (c : Bytes)
      → is_addressed rows ≡ true
      → get rows h ≡ some c
      → sha256 c ≡ h
  unfolding get find_artifact bytes_of
  get-digest rows h c a e = elim (Option-cases (find_artifact rows h)) [
    | inl missing ↦ ground arith
    | inr (row, found) ↦
        let addressed =
          all-first (λ (r : Artifact). r.artifact_hash == h)
            (λ (r : Artifact). r.artifact_hash == sha256 r.artifact_bytes) rows row a found in
        let named = first-passes (λ (r : Artifact). r.artifact_hash == h) rows row found in
        ground
          (arith, eq_iff row.artifact_hash h, eq_iff row.artifact_hash (sha256 row.artifact_bytes))
  ]

  insert-gets :
      (row : Artifact) (rows : List Artifact)
      → is_digest row.artifact_hash ≡ true
      → (c : Bytes) × (get (insert_artifact row rows) row.artifact_hash ≡ some c)
  unfolding get insert_artifact find_artifact bytes_of
  insert-gets row rows h = elim (Option-cases (find_artifact rows row.artifact_hash)) [
    | inl missing ↦ (
      row.artifact_bytes,
      ground (
        arith,
        first-append (λ (r : Artifact). r.artifact_hash == row.artifact_hash) rows row,
        eq_iff row.artifact_hash row.artifact_hash,
      ),
    )
    | inr (found, e) ↦ (found.artifact_bytes, ground arith)
  ]

  module _ (content : Bytes) (media_type decision_id gate_id : String) (enabled : Bool)
      (rows after : List Artifact) (digest : Option String) where
    -- No call of `put` changes what is read under a digest.
    pub put-keeps :
        (h : String) (c : Bytes)
        → put sha256 enabled content media_type decision_id gate_id rows ≡ ok (after, digest)
        → get rows h ≡ some c
        → get after h ≡ some c
    put-keeps h c puts e =
        elim (put-cases content media_type decision_id gate_id enabled rows after digest puts) [
          | inl (grown, _, _) ↦
              rw grown (
                insert-keeps (artifact_of sha256 content media_type decision_id gate_id) rows h c e)
          | inr (kept, _, _) ↦ rw kept e
        ]

    -- Every row still stands under the digest of its content.
    pub put-is_addressed :
        put sha256 enabled content media_type decision_id gate_id rows ≡ ok (after, digest)
        → is_addressed rows ≡ true
        → is_addressed after ≡ true
    unfolding artifact_of
    put-is_addressed puts h =
        elim (put-cases content media_type decision_id gate_id enabled rows after digest puts) [
          | inl (grown, _, _) ↦ rw grown (
              insert-is_addressed (artifact_of sha256 content media_type decision_id gate_id) rows
                refl h)
          | inr (kept, _, _) ↦ rw kept h
        ]

    -- Where the escrow is on and holds its rows under their digests, `put` returns the digest of the
    -- content, and what is read under it afterwards has that digest.
    pub put-get :
        ((c : Bytes) → is_digest (sha256 c) ≡ true)
        → is_addressed rows ≡ true
        → put sha256 true content media_type decision_id gate_id rows ≡ ok (after, digest)
        → (digest ≡ some (sha256 content))
          × ((c : Bytes) × (get after (sha256 content) ≡ some c) × (sha256 c ≡ sha256 content))
    unfolding artifact_of
    put-get hex h puts =
        elim (put-cases content media_type decision_id gate_id true rows after digest puts) [
          | inl (grown, named, _) ↦
              let row = artifact_of sha256 content media_type decision_id gate_id in
              let (c, found) = insert-gets row rows (hex content) in
              (
                named,
                (
                  c,
                  rw grown found,
                  get-digest (insert_artifact row rows) (sha256 content) c
                      (insert-is_addressed row rows refl h) found,
                ),
              )
          | inr (_, _, off) ↦ cc
        ]

-- ===== src/Artifacts.antt =====
-- app/audit/artifacts.py: the evidence escrow. Its table is the list of its rows in the order of
-- insertion. SHA-256 is a parameter. A blank text is one that `str.strip` empties.
pub mod Laws
use decision_ledger.Prelude.{
  ℕ, String, Bool, true, ◌&&◌, ◌||◌, not, Option, none, some, List, [], ◌∷◌, ◌++◌, all, any, first,
  length, select, is_some, leb, eqb, ◌==◌, if◌then◌else◌, Outcome, ok, require, ◌>>◌,
}
use decision_ledger.Prelude.Names.{sorted_set}
use decision_ledger.Prelude.Text.{codes}

abbrev pub Bytes : Type 0
Bytes = List ℕ

-- A row of `evidence_artifacts`.
pub record Artifact : Type 0 where
  pub artifact_hash : String
  pub media_type : String
  pub byte_length : ℕ
  pub artifact_bytes : Bytes
  pub first_decision_id : String
  pub first_gate_id : String

-- The text that `put` misses.
pub data EscrowError : Type 0 where
  needs : String → EscrowError

in_range : ℕ → ℕ → ℕ → Bool
in_range low high c = leb low c && leb c high

-- What `str.strip` removes.
is_space : ℕ → Bool
unfolding in_range
is_space c =
    in_range 9 13 c
    || in_range 28 32 c
    || any (eqb c) (133 ∷ 160 ∷ 5760 ∷ 8232 ∷ 8233 ∷ 8239 ∷ 8287 ∷ 12288 ∷ [])
    || in_range 8192 8202 c

-- `not value.strip()`
unfoldable pub is_blank : String → Bool
unfolding is_space
is_blank value = all is_space (codes value)

is_hex : ℕ → Bool
unfolding in_range
is_hex c = in_range b'0' b'9' c || in_range b'a' b'f' c

-- `ARTIFACT_HASH.fullmatch(text)`
unfoldable pub is_digest : String → Bool
unfolding is_hex
is_digest text = eqb (length (codes text)) 64 && all is_hex (codes text)

-- `SELECT ... WHERE artifact_hash = %s`
unfoldable pub find_artifact : List Artifact → String → Option Artifact
find_artifact rows digest = first (λ row. row.artifact_hash == digest) rows

-- `_INSERT_ARTIFACT`
unfoldable pub insert_artifact : Artifact → List Artifact → List Artifact
insert_artifact row rows =
    if is_some (find_artifact rows row.artifact_hash) then rows else rows ++ row ∷ []

bytes_of : Option Artifact → Option Bytes
bytes_of none = none
bytes_of (some row) = some row.artifact_bytes

-- `ArtifactStore.get`
unfoldable pub get : List Artifact → String → Option Bytes
unfolding bytes_of
get rows digest = if is_digest digest then bytes_of (find_artifact rows digest) else none

-- `ArtifactStore.held`
unfoldable pub held : List Artifact → List String → List String
held rows digests =
    select (λ h. is_some (find_artifact rows h)) (sorted_set (select is_digest digests))

module _ (sha256 : Bytes → String) where
  unfoldable pub artifact_of : Bytes → String → String → String → Artifact
  artifact_of content media_type decision_id gate_id = record {
    artifact_hash = sha256 content;
    media_type = media_type;
    byte_length = length content;
    artifact_bytes = content;
    first_decision_id = decision_id;
    first_gate_id = gate_id;
  }

  -- `ArtifactStore.put`: the rows after it, and the digest that it returns.
  unfoldable pub put :
      Bool
      → Bytes
      → String
      → String
      → String
      → List Artifact
      → Outcome EscrowError (List Artifact × Option String)
  unfolding artifact_of
  put enabled content media_type decision_id gate_id rows = do
    require (not (is_blank media_type)) (needs "media_type")
    require (not (is_blank decision_id)) (needs "decision_id")
    require (not (is_blank gate_id)) (needs "gate_id")
    ok (
        if enabled
        then (
          insert_artifact (artifact_of content media_type decision_id gate_id) rows,
          some (sha256 content),
        )
        else (rows, none))

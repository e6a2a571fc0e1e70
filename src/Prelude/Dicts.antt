-- ===== src/Prelude/Dicts.antt =====
-- Python's dictionaries: the list of the entries, in the order of insertion.
use Prim.Native.String.{String}
use mathlib.Core.Path.{◌≡◌, refl, sym, ◌∙◌}
use mathlib.Core.Bool.{Bool, false, ◌||◌}
use mathlib.Core.Option.{Option, none, some, some-injective}
use mathlib.Core.Logic.{◌⊎◌, inl, inr}
use mathlib.Core.List.{List, [], ◌∷◌}
use native.Mathlib.Omega.{arith}
use text.Mathlib.Text.{◌==◌}
use text.Mathlib.TextEquality.{eq_iff}
use decision_ledger.Prelude.Tests.{if◌then◌else◌, is_some, Bool-cases}
use decision_ledger.Prelude.Lists.{any}

module _ {ℓ} {A : Type ℓ} where
  -- `entries.get(key)`
  abbrev pub get_entry : String → List (String × A) → Option A
  get_entry key [] = none
  get_entry key ((name, value) ∷ rest) = if name == key then some value else get_entry key rest

  -- `entries[key] = value`
  unfoldable pub set_entry : String → A → List (String × A) → List (String × A)
  set_entry key value [] = (key, value) ∷ []
  set_entry key value ((name, old) ∷ rest) =
      let others = set_entry key value rest in
      if name == key then (name, value) ∷ rest else (name, old) ∷ others

  -- `{**entries, **added}`
  unfoldable pub merge_entries : List (String × A) → List (String × A) → List (String × A)
  unfolding set_entry
  merge_entries entries [] = entries
  merge_entries entries ((key, value) ∷ added) = merge_entries (set_entry key value entries) added

  abbrev pub has_key : String → List (String × A) → Bool
  has_key key entries = any (λ entry. entry.0 == key) entries

  pub get_entry-set_entry :
      (key : String) (value : A) (entries : List (String × A)) (k : String)
      → get_entry k (set_entry key value entries)
        ≡ (if key == k then some value else get_entry k entries)
  unfolding set_entry
  get_entry-set_entry key value [] k = refl
  get_entry-set_entry key value ((name, old) ∷ rest) k =
      ground
        (arith, get_entry-set_entry key value rest k, eq_iff name key, eq_iff name k, eq_iff key k)

  pub set_entry-same :
      (key : String) (value : A) (entries : List (String × A))
      → get_entry key (set_entry key value entries) ≡ some value
  set_entry-same key value entries =
      get_entry-set_entry key value entries key ∙ rw ((eq_iff key key).1 refl) refl

  -- A key that was not there changes the value of no other.
  pub set_entry-keeps :
      (key : String) (value : A) (entries : List (String × A)) (k : String) {v : A}
      → is_some (get_entry key entries) ≡ false
      → get_entry k entries ≡ some v
      → get_entry k (set_entry key value entries) ≡ some v
  set_entry-keeps key value entries k new e =
      get_entry-set_entry key value entries k ∙ elim (Bool-cases (key == k)) [
        | inl same ↦ cc (rw ((eq_iff key k).0 same, e) at new)
        | inr other ↦ rw other e
      ]

  pub set_entry-cases :
      (key : String) (value : A) (entries : List (String × A)) (k : String) {v : A}
      → get_entry k (set_entry key value entries) ≡ some v
      → (value ≡ v) ⊎ (get_entry k entries ≡ some v)
  set_entry-cases key value entries k e = elim (Bool-cases (key == k)) [
    | inl same ↦
        inl (some-injective _ _ (rw same at (sym (get_entry-set_entry key value entries k) ∙ e)))
    | inr other ↦ inr (rw other at (sym (get_entry-set_entry key value entries k) ∙ e))
  ]

  -- A key that is not added keeps its value.
  pub get_entry-merge_entries :
      (entries added : List (String × A)) (k : String)
      → has_key k added ≡ false
      → get_entry k (merge_entries entries added) ≡ get_entry k entries
  unfolding merge_entries
  get_entry-merge_entries entries [] k h = refl
  get_entry-merge_entries entries ((key, value) ∷ added) k h =
      get_entry-merge_entries (set_entry key value entries) added k (ground arith)
      ∙ get_entry-set_entry key value entries k
      ∙ ground arith

  pub is_some-merge_entries :
      (entries added : List (String × A)) (k : String)
      → is_some (get_entry k (merge_entries entries added))
        ≡ (is_some (get_entry k entries) || has_key k added)
  unfolding merge_entries
  is_some-merge_entries entries [] k = ground arith
  is_some-merge_entries entries ((key, value) ∷ added) k = ground (
    arith,
    is_some-merge_entries (set_entry key value entries) added k,
    get_entry-set_entry key value entries k,
  )

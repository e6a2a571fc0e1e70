-- ===== src/Identity.antt =====
-- core/identity.py: the subject of a decision, and the validators of its models.
pub mod Step
pub mod Events
pub mod Projection
pub mod Linked
use decision_ledger.Prelude.{
  ℕ, String, Bool, true, false, ◌&&◌, not, Option, none, some, List, [], ◌∷◌, any, is_some, ◌==◌,
  eqb,
}
use decision_ledger.Prelude.Number.{Ratio}

-- A UUID is its 128-bit number: `str` orders UUIDs as their numbers.
abbrev pub Uuid : Type 0
Uuid = ℕ

pub record NativeSubject : Type 0 where
  pub native_namespace : String
  pub native_subject_id : String

pub record NativeNamespace : Type 0 where
  pub native_namespace : String
  pub namespace_uuid : Uuid
  pub entity_type : String

pub data IdentityMethod : Type 0 where
  deterministic probabilistic unresolved : IdentityMethod

-- What `identity_problem` (app/identity/resolvers.py) finds wrong with a resolver's answer.
pub data IdentityProblem : Type 0 where
  unacceptable not_a_match names_other_resolver names_other_subject : IdentityProblem
  undeclared_relationship : IdentityProblem

-- Why a subject is unresolved, with the values of the text.
pub data Unresolved : Type 0 where
  no_resolver no_native_subject : Unresolved
  resolver_timed_out : String → ℕ → Unresolved
  resolver_raised : String → String → Unresolved
  no_match : String → Unresolved
  unusable : String → IdentityProblem → Unresolved
  undeclared_namespace : Unresolved → String → Unresolved

pub record IdentityProvenance : Type 0 where
  pub native_namespace : Option String
  pub native_subject_id : Option String
  pub resolved_by : String
  pub method : IdentityMethod
  pub confidence : Option Ratio
  pub resolved_at : ℕ
  pub reason : Option Unresolved

pub record RelatedEntity : Type 0 where
  pub relationship_type : String
  pub entity_type : String
  pub entity_id : Uuid

pub record EntityDerivation : Type 0 where
  pub namespace_uuid : Uuid
  pub enterprise_key : String

pub record ResolvedIdentity : Type 0 where
  pub entity_id : Uuid
  pub entity_type : String
  pub derivation : Option EntityDerivation
  pub provenance : IdentityProvenance
  pub related : List RelatedEntity

abbrev pub same : Bool → Bool → Bool
same true b = b
same false b = not b

abbrev pub is_probabilistic : IdentityMethod → Bool
is_probabilistic probabilistic = true
is_probabilistic _ = false

abbrev pub is_unresolved : IdentityMethod → Bool
is_unresolved unresolved = true
is_unresolved _ = false

-- `_fields_match_method`
unfoldable pub fields_match_method : IdentityProvenance → Bool
fields_match_method p =
    same (is_some p.native_namespace) (is_some p.native_subject_id)
    && same (is_probabilistic p.method) (is_some p.confidence)
    && same (is_unresolved p.method) (is_some p.reason)

same_related : RelatedEntity → RelatedEntity → Bool
same_related r q = r.relationship_type == q.relationship_type && eqb r.entity_id q.entity_id

pub related_once : List RelatedEntity → Bool
unfolding same_related
related_once [] = true
related_once (r ∷ rs) = not (any (same_related r) rs) && related_once rs

pub no_relations : List RelatedEntity → Bool
no_relations [] = true
no_relations (r ∷ rs) = false

module _ (uuid5 : Uuid → String → Uuid) where
  pub derivation_holds : ResolvedIdentity → Option EntityDerivation → Bool
  derivation_holds i none = is_unresolved i.provenance.method
  derivation_holds i (some d) = eqb (uuid5 d.namespace_uuid d.enterprise_key) i.entity_id

  -- `_derivation_and_relationships_hold`, with the validator of the provenance.
  unfoldable pub is_valid_identity : ResolvedIdentity → Bool
  unfolding fields_match_method derivation_holds related_once no_relations
  is_valid_identity i =
      fields_match_method i.provenance
      && derivation_holds i i.derivation
      && not (is_unresolved i.provenance.method && not (no_relations i.related))
      && related_once i.related
      && not (any (λ r. eqb r.entity_id i.entity_id) i.related)

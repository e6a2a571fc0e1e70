-- ===== src/Identity/Step.antt =====
-- app/identity/passthrough.py and app/identity/resolvers.py: the ledger's identity step. The
-- resolver is the deployment's, so it is a function; its answer says how the call under its time
-- budget ended.
pub mod Laws
use decision_ledger.Prelude.{
  ℕ, String, Bool, true, false, ◌&&◌, ◌||◌, not, Option, none, some, List, [], ◌∷◌, any, contains,
  ◌==◌, if◌then◌else◌, Outcome, ok, raised, require, ◌>>=◌, ◌>>◌,
}
use decision_ledger.Identity.{
  Uuid, NativeSubject, NativeNamespace, unresolved, IdentityProblem, unacceptable, not_a_match,
  names_other_resolver, names_other_subject, undeclared_relationship, Unresolved, no_resolver,
  no_native_subject, resolver_timed_out, resolver_raised, no_match, unusable, undeclared_namespace,
  IdentityProvenance, RelatedEntity, EntityDerivation, ResolvedIdentity, is_unresolved,
  is_valid_identity,
}
use decision_ledger.Registration.{ReasonerRegistration, native_namespace}
use decision_ledger.Submission.{Submission}
use decision_ledger.Bundle.{names_subject, namespace_of, subject_id_of}

pub data ResolverAnswer : Type 0 where
  answered : Option ResolvedIdentity → ResolverAnswer
  expired : ResolverAnswer
  failed : String → ResolverAnswer

pub record ComposedResolver : Type 0 where
  pub resolver_id : String
  pub relationship_types : List String
  pub resolve : String → String → ResolverAnswer

abbrev pub passthrough : String
passthrough = "passthrough"

-- The provenance of a subject that the ledger keeps as the reasoner named it.
abbrev pub kept_as_named : Option NativeSubject → Unresolved → ℕ → IdentityProvenance
kept_as_named native reason at = record {
  native_namespace = namespace_of native;
  native_subject_id = subject_id_of native;
  resolved_by = passthrough;
  method = unresolved;
  confidence = none;
  resolved_at = at;
  reason = some reason;
}

module _ (uuid5 : Uuid → String → Uuid) where
  unfoldable pub declared_identity :
      NativeNamespace → NativeSubject → Unresolved → ℕ → ResolvedIdentity
  declared_identity namespace native reason at = record {
    entity_id = uuid5 namespace.namespace_uuid native.native_subject_id;
    entity_type = namespace.entity_type;
    derivation = some (record {
      namespace_uuid = namespace.namespace_uuid;
      enterprise_key = native.native_subject_id;
    });
    provenance = kept_as_named (some native) reason at;
    related = [];
  }

  pub asserted_identity : Submission → Unresolved → ℕ → ResolvedIdentity
  asserted_identity s reason at = record {
    entity_id = s.entity_id;
    entity_type = s.entity_type;
    derivation = none;
    provenance = kept_as_named s.native_subject reason at;
    related = [];
  }

  pub passthrough_under :
      Submission → NativeSubject → Option NativeNamespace → Unresolved → ℕ → ResolvedIdentity
  unfolding declared_identity asserted_identity
  passthrough_under s native none reason at =
      asserted_identity s (undeclared_namespace reason native.native_namespace) at
  passthrough_under s native (some namespace) reason at =
      declared_identity namespace native reason at

  pub passthrough_of :
      Submission → ReasonerRegistration → Option NativeSubject → Unresolved → ℕ → ResolvedIdentity
  unfolding passthrough_under
  passthrough_of s registration none reason at = asserted_identity s reason at
  passthrough_of s registration (some native) reason at =
      passthrough_under s native (native_namespace registration native.native_namespace) reason at

  unfoldable pub passthrough_identity :
      Submission → ReasonerRegistration → Unresolved → ℕ → ResolvedIdentity
  unfolding passthrough_of
  passthrough_identity s registration reason at =
      passthrough_of s registration s.native_subject reason at

  module _ (survives : ResolvedIdentity → Bool) where
    -- `survives` stands for the check that the identity can be stored and reloads equal to itself.
    unfoldable pub identity_problem :
        ResolvedIdentity → ComposedResolver → NativeSubject → Outcome IdentityProblem (Unit {0})
    unfolding names_subject
    identity_problem i composed native = do
      require (survives i && is_valid_identity uuid5 i) unacceptable
      require (not (is_unresolved i.provenance.method)) not_a_match
      require (i.provenance.resolved_by == composed.resolver_id) names_other_resolver
      require (names_subject (some native) (some i)) names_other_subject
      require
          (not
            (any (λ r. not (contains composed.relationship_types r.relationship_type)) i.related))
          undeclared_relationship

    pub usable :
        ResolvedIdentity
        → ComposedResolver
        → Outcome IdentityProblem (Unit {0})
        → Outcome Unresolved ResolvedIdentity
    usable i composed (ok u) = ok i
    usable i composed (raised problem) = raised (unusable composed.resolver_id problem)

    pub heard :
        NativeSubject → ComposedResolver → ℕ → ResolverAnswer → Outcome Unresolved ResolvedIdentity
    unfolding identity_problem usable
    heard native composed budget expired = raised (resolver_timed_out composed.resolver_id budget)
    heard native composed budget (failed error) =
        raised (resolver_raised composed.resolver_id error)
    heard native composed budget (answered none) = raised (no_match composed.resolver_id)
    heard native composed budget (answered (some i)) =
        usable i composed (identity_problem i composed native)

    -- `_consult`: the usable answer, or why there is none.
    unfoldable pub consult :
        Option ComposedResolver → ℕ → NativeSubject → Outcome Unresolved ResolvedIdentity
    unfolding heard
    consult none budget native = raised no_resolver
    consult (some composed) budget native =
        heard native composed budget
          (composed.resolve native.native_namespace native.native_subject_id)

    pub settled :
        Submission
        → ReasonerRegistration
        → ℕ
        → Outcome Unresolved ResolvedIdentity
        → ResolvedIdentity
    settled s registration at (ok identity) = identity
    settled s registration at (raised reason) = passthrough_identity s registration reason at

    pub identify_as :
        Option ComposedResolver
        → ℕ
        → Submission
        → ReasonerRegistration
        → ℕ
        → Option NativeSubject
        → ResolvedIdentity
    unfolding settled
    identify_as resolver budget s registration at none =
        passthrough_identity s registration no_native_subject at
    identify_as resolver budget s registration at (some native) =
        settled s registration at (consult resolver budget native)

    -- `IdentityService.identify`
    unfoldable pub identify :
        Option ComposedResolver → ℕ → Submission → ReasonerRegistration → ℕ → ResolvedIdentity
    unfolding identify_as
    identify resolver budget s registration at =
        identify_as resolver budget s registration at s.native_subject

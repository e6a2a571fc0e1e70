-- ===== src/Identity/Step/Laws.antt =====
-- app/identity/passthrough.py and app/identity/resolvers.py: the identity that a decision records is
-- valid and is that of the subject that the submission names.
use mathlib.Core.Path.{subst}
use decision_ledger.Prelude.{
  ℕ, String, ◌≡◌, refl, sym, Bool, true, ◌&&◌, not, Option, none, some, arith, ◌==◌, eq_iff,
  Outcome, ok, raised, require, >>=-eq-ok, require-true, ok-injective, and-right, is_some,
}
use decision_ledger.Identity.{
  Uuid, NativeSubject, NativeNamespace, Unresolved, IdentityProblem, unacceptable, not_a_match,
  names_other_resolver, names_other_subject, is_unresolved, ResolvedIdentity, same,
  fields_match_method, derivation_holds, related_once, no_relations, is_valid_identity,
}
use decision_ledger.Registration.{ReasonerRegistration}
use decision_ledger.Submission.{Submission}
use decision_ledger.Bundle.{names_subject, same_text, namespace_of, subject_id_of}
use decision_ledger.Identity.Step.{
  ComposedResolver, ResolverAnswer, answered, expired, failed, declared_identity, asserted_identity,
  passthrough_under, passthrough_of, passthrough_identity, identity_problem, usable, heard, consult,
  settled, identify_as, identify,
}

module _ (uuid5 : Uuid → String → Uuid) where
  -- A valid identity of a native subject.
  abbrev pub Names : Option NativeSubject → ResolvedIdentity → Type 0
  Names native i = (is_valid_identity uuid5 i ≡ true) × (names_subject native (some i) ≡ true)

  text_refl : (t : String) → (t == t) ≡ true
  text_refl t = (eq_iff t t).1 refl

  declared_identity-Names :
      (namespace : NativeNamespace) (native : NativeSubject) (reason : Unresolved) (at : ℕ)
      → Names (some native) (declared_identity uuid5 namespace native reason at)
  unfolding declared_identity is_valid_identity fields_match_method derivation_holds related_once
      no_relations names_subject same_text
  declared_identity-Names namespace native reason at = (
    ground arith,
    rw (text_refl native.native_namespace, text_refl native.native_subject_id) refl,
  )

  asserted_identity-Names :
      (s : Submission) (reason : Unresolved) (at : ℕ)
      → Names s.native_subject (asserted_identity uuid5 s reason at)
  unfolding asserted_identity is_valid_identity fields_match_method derivation_holds related_once
      no_relations names_subject same_text
  asserted_identity-Names s reason at =
      (rw (named_together s.native_subject) refl, named s.native_subject)
    where
      named_together :
          (native : Option NativeSubject)
          → same (is_some (namespace_of native)) (is_some (subject_id_of native)) ≡ true
      named_together none = refl
      named_together (some native) = refl

      named :
          (native : Option NativeSubject)
          → (same_text (namespace_of native) (namespace_of native)
              && same_text (subject_id_of native) (subject_id_of native))
            ≡ true
      named none = refl
      named (some native) =
          rw (text_refl native.native_namespace, text_refl native.native_subject_id) refl

  passthrough_under-Names :
      (s : Submission) (native : NativeSubject) (o : Option NativeNamespace) (reason : Unresolved)
      (at : ℕ)
      → s.native_subject ≡ some native
      → Names s.native_subject (passthrough_under uuid5 s native o reason at)
  unfolding passthrough_under
  passthrough_under-Names s native none reason at e = asserted_identity-Names s _ at
  passthrough_under-Names s native (some namespace) reason at e =
      subst (λ n. Names n (declared_identity uuid5 namespace native reason at)) (sym e)
        (declared_identity-Names namespace native reason at)

  passthrough_of-Names :
      (s : Submission) (registration : ReasonerRegistration) (o : Option NativeSubject)
      (reason : Unresolved) (at : ℕ)
      → s.native_subject ≡ o
      → Names s.native_subject (passthrough_of uuid5 s registration o reason at)
  unfolding passthrough_of
  passthrough_of-Names s registration none reason at e = asserted_identity-Names s reason at
  passthrough_of-Names s registration (some native) reason at e =
      passthrough_under-Names s native _ reason at e

  -- The passthrough identity of any submission is valid and names the submission's native subject.
  pub passthrough_identity-Names :
      (s : Submission) (registration : ReasonerRegistration) (reason : Unresolved) (at : ℕ)
      → Names s.native_subject (passthrough_identity uuid5 s registration reason at)
  unfolding passthrough_identity
  passthrough_identity-Names s registration reason at =
      passthrough_of-Names s registration s.native_subject reason at refl

  module _ (survives : ResolvedIdentity → Bool) where
    usable-Names :
        (i : ResolvedIdentity) (composed : ComposedResolver) (native : NativeSubject)
        (o : Outcome IdentityProblem (Unit {0})) {answer : ResolvedIdentity}
        → identity_problem uuid5 survives i composed native ≡ o
        → usable uuid5 survives i composed o ≡ ok answer
        → Names (some native) answer
    unfolding usable identity_problem
    usable-Names i composed native (raised problem) e h = cc
    usable-Names i composed native (ok u) e h =
        let (_, first_ok, e1) =
          >>=-eq-ok (require (survives i && is_valid_identity uuid5 i) unacceptable) _ e in
        let (_, match, e2) =
          >>=-eq-ok (require (not (is_unresolved i.provenance.method)) not_a_match) _ e1 in
        let (_, by, e3) =
          >>=-eq-ok
            (require (i.provenance.resolved_by == composed.resolver_id) names_other_resolver) _
            e2 in
        let (_, whom, e4) =
          >>=-eq-ok (require (names_subject (some native) (some i)) names_other_subject) _ e3 in
        subst (Names (some native)) (ok-injective h) (
          and-right (survives i) (is_valid_identity uuid5 i) (require-true _ _ first_ok),
          require-true _ _ whom,
        )

    heard-Names :
        (native : NativeSubject) (composed : ComposedResolver) (budget : ℕ) (a : ResolverAnswer)
        {answer : ResolvedIdentity}
        → heard uuid5 survives native composed budget a ≡ ok answer
        → Names (some native) answer
    unfolding heard
    heard-Names native composed budget expired h = cc
    heard-Names native composed budget (failed error) h = cc
    heard-Names native composed budget (answered none) h = cc
    heard-Names native composed budget (answered (some i)) h =
        usable-Names i composed native _ refl h

    consult-Names :
        (resolver : Option ComposedResolver) (budget : ℕ) (native : NativeSubject)
        {answer : ResolvedIdentity}
        → consult uuid5 survives resolver budget native ≡ ok answer
        → Names (some native) answer
    unfolding consult
    consult-Names none budget native h = cc
    consult-Names (some composed) budget native h = heard-Names native composed budget _ h

    settled-Names :
        (s : Submission) (registration : ReasonerRegistration) (at : ℕ)
        (o : Outcome Unresolved ResolvedIdentity)
        → ((answer : ResolvedIdentity) → o ≡ ok answer → Names s.native_subject answer)
        → Names s.native_subject (settled uuid5 survives s registration at o)
    unfolding settled
    settled-Names s registration at (ok answer) h = h answer refl
    settled-Names s registration at (raised reason) h =
        passthrough_identity-Names s registration reason at

    identify_as-Names :
        (resolver : Option ComposedResolver) (budget : ℕ) (s : Submission)
        (registration : ReasonerRegistration) (at : ℕ) (o : Option NativeSubject)
        → s.native_subject ≡ o
        → Names s.native_subject (identify_as uuid5 survives resolver budget s registration at o)
    unfolding identify_as
    identify_as-Names resolver budget s registration at none e =
        passthrough_identity-Names s registration _ at
    identify_as-Names resolver budget s registration at (some native) e =
        settled-Names s registration at _
          (λ answer h. subst (λ n. Names n answer) (sym e) (consult-Names resolver budget native h))

    -- Whatever the deployment's resolver answers, raises or leaves undone, the identity of a decision
    -- passes the validators of its model and names the submission's native subject.
    pub identify-Names :
        (resolver : Option ComposedResolver) (budget : ℕ) (s : Submission)
        (registration : ReasonerRegistration) (at : ℕ)
        → Names s.native_subject (identify uuid5 survives resolver budget s registration at)
    unfolding identify
    identify-Names resolver budget s registration at =
        identify_as-Names resolver budget s registration at s.native_subject refl

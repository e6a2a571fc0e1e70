-- ===== src/Intake/Accepts.antt =====
-- core/submission.py: what a submission that intake accepts has.
use mathlib.Core.Path.{subst}
use decision_ledger.Prelude.{
  String, ◌≡◌, refl, sym, ap, ◌∙◌, ◌≢◌, true, ◌&&◌, not, Option, none, some, List, [], ◌∷◌, arith,
  ◌==◌, eq_iff, ok, require, >>=-eq-ok, require-true, ok-injective,
}
use decision_ledger.Prelude.Names.{without}
use decision_ledger.Actions.{DecisionAction, same_action}
use decision_ledger.Identity.{Uuid}
use decision_ledger.Registration.{
  GateBinding, BypassRule, ReasonerRegistration, gate_ids, recordable, bypass_rule,
}
use decision_ledger.Submission.{
  Submission, SubmissionMode, record_mode, gate_mode, BypassCitation, check_mode, check_mode_of,
  check_submission, addressed,
}
use decision_ledger.Intake.{
  effective_gate_set, submission_invalid, gate_not_bound, gate_context_missing, no_gates,
  action_not_recordable, bypass_action_mismatch, bypass_rule_version_mismatch, proposes, pinned_to,
  check_cited, check_citation_of, validate_citation, is_gated, is_empty, validate_native_subject,
  validate_submission,
}

-- What a submission records, or that it gates.
pub data Cites (s : Submission) (registration : ReasonerRegistration)
    : Option BypassRule → Type 0 where
  gates_only : s.mode ≡ gate_mode → Cites s registration none
  records :
      (citation : BypassCitation) (rule : BypassRule)
      → s.mode ≡ record_mode
      → s.bypass ≡ some citation
      → bypass_rule registration citation.rule_id ≡ some rule
      → recordable registration rule.action ≡ true
      → s.proposed_action ≡ some rule.action
      → Cites s registration (some rule)

same_action-eq : (a b : DecisionAction) → same_action a b ≡ true → a ≡ b
same_action-eq a b h = ground arith

proposes-eq :
    (rule : DecisionAction) (o : Option DecisionAction)
    → proposes (same_action rule) o ≡ true
    → o ≡ some rule
unfolding proposes
proposes-eq rule none h = cc
proposes-eq rule (some a) h = ap some (sym (same_action-eq rule a h))

cited :
    (s : Submission) (registration : ReasonerRegistration) (citation : BypassCitation)
    (o : Option BypassRule) (rule : Option BypassRule)
    → s.mode ≡ record_mode
    → s.bypass ≡ some citation
    → bypass_rule registration citation.rule_id ≡ o
    → check_cited s registration citation o ≡ ok rule
    → Cites s registration rule
unfolding check_cited proposes
cited s registration citation none rule m c e h = cc
cited s registration citation (some r) rule m c e h =
    let (_, may, h1) =
      >>=-eq-ok
        (require (proposes (recordable registration) s.proposed_action) action_not_recordable) _
        h in
    let (_, matches, h2) =
      >>=-eq-ok (require (proposes (same_action r.action) s.proposed_action) bypass_action_mismatch)
        _ h1 in
    let (_, pin, h3) =
      >>=-eq-ok (require (pinned_to r.version citation.rule_version) bypass_rule_version_mismatch) _
        h2 in
    let proposed = proposes-eq r.action s.proposed_action (require-true _ _ matches) in
    subst (Cites s registration) (ok-injective h3)
      (records citation r m c e (may_record (sym proposed) (require-true _ _ may)) proposed)
  where
    may_record :
        {o : Option DecisionAction}
        → some r.action ≡ o
        → proposes (recordable registration) o ≡ true
        → recordable registration r.action ≡ true
    may_record e h = ap (proposes (recordable registration)) e ∙ h

citation_of :
    (s : Submission) (registration : ReasonerRegistration) (mode : SubmissionMode)
    (bypass : Option BypassCitation) (rule : Option BypassRule) {u : Unit {0}}
    → s.mode ≡ mode
    → s.bypass ≡ bypass
    → check_mode_of mode bypass s.proposed_action ≡ ok u
    → check_citation_of s registration mode bypass ≡ ok rule
    → Cites s registration rule
unfolding check_citation_of check_mode_of
citation_of s registration record_mode none rule m c shape h = cc
citation_of s registration record_mode (some citation) rule m c shape h =
    cited s registration citation _ rule m c refl h
citation_of s registration gate_mode none rule m c shape h =
    subst (Cites s registration) (ok-injective h) (gates_only m)
citation_of s registration gate_mode (some citation) rule m c shape h = cc

-- What is known of an accepted submission.
pub record Accepted (s : Submission) (registration : ReasonerRegistration) (mandated : List String)
    (rule : Option BypassRule) : Type 0 where
  pub reasoner : registration.reasoner_id ≡ s.reasoner_id
  pub cites : Cites s registration rule
  pub bound : without (addressed s) (gate_ids registration) ≡ []
  pub covered : without (gate_ids registration) (addressed s) ≡ []
  pub some_gate : s.mode ≡ gate_mode → effective_gate_set registration mandated ≢ []

empty_list : (names : List String) → is_empty names ≡ true → names ≡ []
empty_list [] h = refl
empty_list (n ∷ names) h = cc

module _ (uuid5 : Uuid → String → Uuid) where
  -- A well-shaped submission that intake accepts is its reasoner's, addresses exactly the gates that
  -- the registration binds, goes through some gate if it is gated, and, if it is recorded, cites a
  -- registered rule whose recordable action it proposes.
  pub validate_submission-Accepted :
      (s : Submission) (registration : ReasonerRegistration) (mandated : List String)
      (rule : Option BypassRule)
      → check_submission s ≡ ok s
      → validate_submission uuid5 s registration mandated ≡ ok rule
      → Accepted s registration mandated rule
  unfolding validate_submission check_submission check_mode validate_citation is_gated
  validate_submission-Accepted s registration mandated rule shape h =
      let (_, mode_ok, _) = >>=-eq-ok (check_mode s) _ shape in
      let (_, own, h1) =
        >>=-eq-ok (require (registration.reasoner_id == s.reasoner_id) submission_invalid) _ h in
      let (r, citation, h2) = >>=-eq-ok (validate_citation s registration) _ h1 in
      let (_, native, h3) = >>=-eq-ok (validate_native_subject uuid5 s registration) _ h2 in
      let (_, bound, h4) =
        >>=-eq-ok
          (require (is_empty (without (addressed s) (gate_ids registration))) gate_not_bound) _
          h3 in
      let (_, covered, h5) =
        >>=-eq-ok
          (require (is_empty (without (gate_ids registration) (addressed s))) gate_context_missing)
          _ h4 in
      let (_, gates, h6) =
        >>=-eq-ok
          (require (not (is_gated s.mode && is_empty (effective_gate_set registration mandated)))
            no_gates)
          _ h5 in
      record {
        reasoner = (eq_iff _ _).0 (require-true _ _ own);
        cites =
            subst (Cites s registration) (ok-injective h6)
              (citation_of s registration s.mode s.bypass r refl refl mode_ok citation);
        bound = empty_list _ (require-true _ _ bound);
        covered = empty_list _ (require-true _ _ covered);
        some_gate = λ gated. gate_left s.mode _ gated (require-true _ _ gates);
      }
    where
      gate_left :
          (mode : SubmissionMode) (gates : List GateBinding)
          → mode ≡ gate_mode
          → not (is_gated mode && is_empty gates) ≡ true
          → gates ≢ []
      gate_left record_mode gates gated h e = cc
      gate_left gate_mode [] gated h e = cc
      gate_left gate_mode (b ∷ gates) gated h e = cc

  -- A well-shaped submission that intake accepts addresses exactly the gates that the registration
  -- binds, and, if it is recorded, cites a registered rule whose recordable action it proposes.
  pub validate_submission-cites :
      (s : Submission) (registration : ReasonerRegistration) (mandated : List String)
      (rule : Option BypassRule)
      → check_submission s ≡ ok s
      → validate_submission uuid5 s registration mandated ≡ ok rule
      → (without (addressed s) (gate_ids registration) ≡ [])
        × (without (gate_ids registration) (addressed s) ≡ [])
        × Cites s registration rule
  validate_submission-cites s registration mandated rule shape h =
      let accepted = validate_submission-Accepted s registration mandated rule shape h in
      (accepted.bound, accepted.covered, accepted.cites)

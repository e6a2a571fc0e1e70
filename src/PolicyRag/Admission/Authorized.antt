-- ===== src/PolicyRag/Admission/Authorized.antt =====
-- gates/policy_rag/src/policy_rag_gate/gate.py, `authorize_config`: what an authorized configuration
-- names.
use decision_ledger.Prelude.{
  ◌≡◌, refl, ap, String, true, Option, none, some, is_some, List, [], ◌∷◌, all, contains,
  Bool-cases, inl, inr, require, >>=-eq-ok, require-true, ok,
}
use decision_ledger.Prelude.Dicts.{get_entry}
use decision_ledger.Prelude.Names.{without}
use decision_ledger.PolicyRag.Admission.{
  ReasonerProfile, PolicyGateConfig, Admissions, is_empty, foreign_template, authorize,
  authorize_under, authorize_config,
}
use decision_ledger.PolicyRag.Admission.Kept.{profile_of, IsFiled}

without-is_empty :
    (names removed : List String)
    → is_empty (without names removed) ≡ true
    → all (contains removed) names ≡ true
unfolding is_empty without
without-is_empty [] removed h = refl
without-is_empty (n ∷ names) removed h = elim (Bool-cases (contains removed n)) [
  | inl there ↦ rw (there, without-is_empty names removed (rw there at h)) refl
  | inr gone ↦ cc (rw gone at h)
]

-- What a profile lets a reasoner submit.
pub record Within (a : Admissions) (reasoner_id : String) (config : PolicyGateConfig) : Type 0 where
  pub profile : ReasonerProfile
  pub admitted : profile_of a.profiles reasoner_id ≡ some profile
  pub ships : contains profile.template_ids config.template_id ≡ true
  pub registered : is_some (get_entry config.template_id a.registry.templates) ≡ true
  pub covered : all (contains profile.jurisdictions) config.jurisdictions ≡ true

authorize-Within :
    (a : Admissions) (reasoner_id : String) (config : PolicyGateConfig) (p : ReasonerProfile)
    → IsFiled a
    → profile_of a.profiles reasoner_id ≡ some p
    → authorize p config ≡ ok tt
    → Within a reasoner_id config
unfolding authorize
authorize-Within a reasoner_id config p f e h =
    let (_, own, covers) =
      >>=-eq-ok
        (require (contains p.template_ids config.template_id) (foreign_template config.template_id))
        _ h in
    record {
      profile = p;
      admitted = e;
      ships = require-true _ _ own;
      registered = f.shipped reasoner_id p config.template_id e (require-true _ _ own);
      covered = without-is_empty config.jurisdictions p.jurisdictions (require-true _ _ covers);
    }

authorize_under-Within :
    (a : Admissions) (reasoner_id : String) (config : PolicyGateConfig) (o : Option ReasonerProfile)
    → IsFiled a
    → profile_of a.profiles reasoner_id ≡ o
    → authorize_under o reasoner_id config ≡ ok tt
    → Within a reasoner_id config
unfolding authorize_under
authorize_under-Within a reasoner_id config none f e h = cc
authorize_under-Within a reasoner_id config (some p) f e h =
    authorize-Within a reasoner_id config p f e h

-- A gate that was built with profiles, and whose templates and profiles are filed together,
-- authorizes a configuration only of a reasoner it admitted: the template is one that the reasoner
-- ships and is registered, and its corpus covers every jurisdiction.
pub authorize_config-Within :
    (a : Admissions) (profiles : List (String × ReasonerProfile)) (reasoner_id : String)
    (config : PolicyGateConfig)
    → IsFiled a
    → a.profiles ≡ some profiles
    → authorize_config a.profiles reasoner_id config ≡ ok tt
    → Within a reasoner_id config
unfolding authorize_config
authorize_config-Within a profiles reasoner_id config f built h =
    authorize_under-Within a reasoner_id config (get_entry reasoner_id profiles) f
      (ap (λ ps. profile_of ps reasoner_id) built) (rw built at h)

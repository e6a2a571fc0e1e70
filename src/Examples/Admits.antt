-- ===== src/Examples/Admits.antt =====
-- Runs of the admission of a reasoner to the policy gate.
use decision_ledger.Prelude.{◌≡◌, refl, String, true, some, List, [], ◌∷◌, all, ok}
use decision_ledger.Prelude.Dicts.{set_entry}
use decision_ledger.Prelude.Names.{without}
use decision_ledger.PolicyRag.{uri_and_hash, pinned_version, PolicyBindingConfig}
use decision_ledger.PolicyRag.Admission.{
  PromptTemplate, PolicyGateConfig, ReasonerAssets, Admissions, Provider, supplies,
  validate_binding, check_corpora, admit_reasoner, admit_from, load_root_assets, is_directory_name,
  load_templates, add, ReasonerProfile, authorize_config, authorize,
}
use decision_ledger.PolicyRag.Admission.Kept.{IsFiled, Grows, supplied, validate_binding-Grows}
use decision_ledger.PolicyRag.Admission.Authorized.{Within, authorize_config-Within}

abbrev template : PromptTemplate
template = record {
  template_id = "cards-v1";
  version = "1";
  description = "";
  template_text = "{policy_snippets}";
  system_text = "";
  required_vars = [];
  evidence_layout = "tiered_blocks";
}

abbrev root : String → ReasonerAssets
root reasoner_id = record {
  has_prompts = true;
  has_corpus = true;
  files = ("cards.yaml", some template) ∷ [];
  corpus_jurisdictions = "US" ∷ [];
}

abbrev files : String → Provider
files provider = supplies (λ corpus. some pinned_version)

abbrev binding : PolicyBindingConfig
binding = record {
  corpora =
      record {
        corpus_id = "firm";
        provider = "files";
        tier = 1;
        jurisdictions = [];
        min_provenance = uri_and_hash;
      }
      ∷ [];
  k_per_corpus = 3;
}

abbrev nobody : Admissions
nobody = record { profiles = some []; registry = record { templates = []; sources = [] } }

nobody-IsFiled : IsFiled nobody
nobody-IsFiled = record { filed = λ id. refl; shipped = λ r p id e c. cc }

admitted :
    (after : Admissions) × (validate_binding files (some root) "cards" binding nobody ≡ ok after)
unfolding validate_binding check_corpora admit_reasoner admit_from load_root_assets
    is_directory_name load_templates set_entry add
admitted = (_, refl)

validate_binding-Grows_example :
    Grows "cards" nobody (admitted.0)
    × (all (λ corpus. supplied (files corpus.provider) corpus) binding.corpora ≡ true)
validate_binding-Grows_example =
    validate_binding-Grows files (some root) "cards" binding nobody (admitted.0) nobody-IsFiled
      (admitted.1)

admitted-IsFiled : IsFiled (admitted.0)
admitted-IsFiled =
    (validate_binding-Grows files (some root) "cards" binding nobody (admitted.0) nobody-IsFiled
      (admitted.1)).0.filed

abbrev config : PolicyGateConfig
config = record { template_id = "cards-v1"; jurisdictions = "US" ∷ [] }

authorized : authorize_config admitted.0.profiles "cards" config ≡ ok tt
unfolding admitted authorize_config authorize without
authorized = refl

with_profiles : (profiles : List (String × ReasonerProfile)) × (admitted.0.profiles ≡ some profiles)
unfolding admitted
with_profiles = (_, refl)

authorize_config-Within_example : Within (admitted.0) "cards" config
authorize_config-Within_example =
    authorize_config-Within (admitted.0) (with_profiles.0) "cards" config admitted-IsFiled
      (with_profiles.1) authorized

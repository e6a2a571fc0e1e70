-- ===== src/PolicyRag/Admission.antt =====
-- gates/policy_rag/src/policy_rag_gate: whom the policy gate serves (gate.py: `validate_binding`,
-- `serves`, `authorize_config`), what a reasoner ships under the asset root (assets.py), its profile
-- (config.py) and the registry of prompt templates (prompt_registry.py). The text of a template and
-- the front matter of a document are read elsewhere: here a file comes with what was read in it.
pub mod Kept
pub mod Authorized
use decision_ledger.Prelude.{
  ℕ, String, Bool, true, false, not, ◌&&◌, ◌||◌, Option, none, some, is_some, List, [], ◌∷◌, map,
  all, any, contains, leb, eqb, ◌==◌, if◌then◌else◌, Outcome, ok, raised, require, ◌>>=◌, ◌>>◌,
}
use decision_ledger.Prelude.Dicts.{get_entry, set_entry, merge_entries}
use decision_ledger.Prelude.Names.{without}
use decision_ledger.Prelude.Text.{codes}
use decision_ledger.PolicyRag.{ProvenanceLevel, provenance_at_least, CorpusRef, PolicyBindingConfig}

pub record PromptTemplate : Type 0 where
  pub template_id : String
  pub version : String
  pub description : String
  pub template_text : String
  pub system_text : String
  pub required_vars : List String
  pub evidence_layout : String

pub record ReasonerProfile : Type 0 where
  pub template_ids : List String
  pub jurisdictions : List String

-- The two fields of the configuration that a profile authorizes.
pub record PolicyGateConfig : Type 0 where
  pub template_id : String
  pub jurisdictions : List String

-- Why a binding is refused.
pub data GateConfigError : Type 0 where
  provider_not_installed provider_not_built not_described weak_provenance : String → GateConfigError
  no_assets_root no_directory_name directory_missing : String → GateConfigError
  template_malformed declared_twice no_template no_jurisdiction : String → GateConfigError

-- `template_id` → the template and the file it came from.
abbrev pub Loaded : Type 0
Loaded = List (String × (PromptTemplate × String))

-- `load_templates`: the files in the order of their names, each with its template, if it has one.
unfoldable pub load_templates :
    List (String × Option PromptTemplate) → Loaded → Outcome GateConfigError Loaded
load_templates [] loaded = ok loaded
load_templates ((path, none) ∷ files) loaded = raised (template_malformed path)
load_templates ((path, some template) ∷ files) loaded = do
  require (not (is_some (get_entry template.template_id loaded)))
      (declared_twice template.template_id)
  load_templates files (set_entry template.template_id (template, path) loaded)

-- `YamlPromptRegistry`
pub record Registry : Type 0 where
  pub templates : List (String × PromptTemplate)
  pub sources : List (String × String)

unfoldable pub check_new : List (String × String) → Loaded → Outcome GateConfigError (Unit {0})
check_new sources [] = ok tt
check_new sources ((template_id, value) ∷ loaded) = do
  require (not (is_some (get_entry template_id sources))) (declared_twice template_id)
  check_new sources loaded

-- `add`
unfoldable pub add : Loaded → Registry → Outcome GateConfigError Registry
unfolding check_new
add loaded registry = do
  check_new registry.sources loaded
  ok (record {
    templates = merge_entries registry.templates (map (λ e. (e.0, e.1.0)) loaded);
    sources = merge_entries registry.sources (map (λ e. (e.0, e.1.1)) loaded);
  })

is_alphanumeric : ℕ → Bool
is_alphanumeric c =
    (leb b'0' c && leb c b'9') || (leb b'A' c && leb c b'Z') || (leb b'a' c && leb c b'z')

is_name_rest : ℕ → Bool
unfolding is_alphanumeric
is_name_rest c = is_alphanumeric c || any (eqb c) (b'.' ∷ b'_' ∷ b'-' ∷ [])

is_name : List ℕ → Bool
unfolding is_name_rest
is_name [] = false
is_name (c ∷ cs) = is_alphanumeric c && all is_name_rest cs

-- `_DIRECTORY_NAME.fullmatch`
unfoldable pub is_directory_name : String → Bool
unfolding is_name
is_directory_name text = is_name (codes text)

-- What a reasoner's directory under the asset root holds.
pub record ReasonerAssets : Type 0 where
  pub has_prompts : Bool
  pub has_corpus : Bool
  pub files : List (String × Option PromptTemplate)
  pub corpus_jurisdictions : List String

is_empty : {A : Type 0} → List A → Bool
is_empty [] = true
is_empty (x ∷ xs) = false

-- `load_root_assets`
unfoldable pub load_root_assets :
    ReasonerAssets → String → Outcome GateConfigError (ReasonerProfile × Loaded)
unfolding is_empty
load_root_assets assets reasoner_id = do
  require (is_directory_name reasoner_id) (no_directory_name reasoner_id)
  require (assets.has_prompts && assets.has_corpus) (directory_missing reasoner_id)
  templates ← load_templates assets.files []
  require (not (is_empty templates)) (no_template reasoner_id)
  require (not (is_empty assets.corpus_jurisdictions)) (no_jurisdiction reasoner_id)
  ok (
    record { template_ids = map (λ e. e.0) templates; jurisdictions = assets.corpus_jurisdictions },
    templates,
  )

-- What the gate keeps: its profiles, if it was built with any, and its templates.
pub record Admissions : Type 0 where
  pub profiles : Option (List (String × ReasonerProfile))
  pub registry : Registry

is_admitted : Option (List (String × ReasonerProfile)) → String → Bool
is_admitted none reasoner_id = true
is_admitted (some profiles) reasoner_id = is_some (get_entry reasoner_id profiles)

-- `serves`
unfoldable pub serves : Admissions → String → Bool
unfolding is_admitted
serves admissions reasoner_id = is_admitted admissions.profiles reasoner_id

-- `self._providers.get(...)`: a provider is what it supplies of a corpus, `none` for an error.
pub data Provider : Type 0 where
  not_installed cannot_build : Provider
  supplies : (CorpusRef → Option ProvenanceLevel) → Provider

check_described : CorpusRef → Option ProvenanceLevel → Outcome GateConfigError (Unit {0})
check_described corpus none = raised (not_described corpus.corpus_id)
check_described corpus (some level) =
    require (provenance_at_least level corpus.min_provenance) (weak_provenance corpus.corpus_id)

pub check_provider : CorpusRef → Provider → Outcome GateConfigError (Unit {0})
unfolding check_described
check_provider corpus not_installed = raised (provider_not_installed corpus.provider)
check_provider corpus cannot_build = raised (provider_not_built corpus.provider)
check_provider corpus (supplies describe) = check_described corpus (describe corpus)

-- The loop over the corpora.
unfoldable pub check_corpora :
    (String → Provider) → List CorpusRef → Outcome GateConfigError (Unit {0})
unfolding check_provider
check_corpora providers [] = ok tt
check_corpora providers (corpus ∷ corpora) = do
  check_provider corpus (providers corpus.provider)
  check_corpora providers corpora

unfoldable pub admit_from :
    Option (String → ReasonerAssets)
    → String
    → List (String × ReasonerProfile)
    → Registry
    → Outcome GateConfigError Admissions
admit_from none reasoner_id profiles registry = raised (no_assets_root reasoner_id)
admit_from (some root) reasoner_id profiles registry = do
  shipped ← load_root_assets (root reasoner_id) reasoner_id
  added ← add (shipped.1) registry
  ok (record { profiles = some (set_entry reasoner_id (shipped.0) profiles); registry = added })

-- `_admit_reasoner`
unfoldable pub admit_reasoner :
    Option (String → ReasonerAssets)
    → String
    → Option (List (String × ReasonerProfile))
    → Registry
    → Outcome GateConfigError Admissions
admit_reasoner root reasoner_id none registry = ok (record { profiles = none; registry = registry })
admit_reasoner root reasoner_id (some profiles) registry =
    if is_some (get_entry reasoner_id profiles)
    then ok (record { profiles = some profiles; registry = registry })
    else admit_from root reasoner_id profiles registry

-- `validate_binding`, of a configuration that validates.
unfoldable pub validate_binding :
    (String → Provider)
    → Option (String → ReasonerAssets)
    → String
    → PolicyBindingConfig
    → Admissions
    → Outcome GateConfigError Admissions
validate_binding providers root reasoner_id binding admissions = do
  check_corpora providers binding.corpora
  admit_reasoner root reasoner_id admissions.profiles admissions.registry

-- Why a configuration is not authorized.
pub data AuthorizeError : Type 0 where
  not_served : String → AuthorizeError
  foreign_template : String → AuthorizeError
  foreign_jurisdictions : List String → AuthorizeError

-- `ReasonerProfile.authorize`
unfoldable pub authorize : ReasonerProfile → PolicyGateConfig → Outcome AuthorizeError (Unit {0})
unfolding is_empty
authorize profile config = do
  require (contains profile.template_ids config.template_id) (foreign_template config.template_id)
  require (is_empty (without config.jurisdictions profile.jurisdictions))
      (foreign_jurisdictions (without config.jurisdictions profile.jurisdictions))

authorize_under :
    Option ReasonerProfile → String → PolicyGateConfig → Outcome AuthorizeError (Unit {0})
authorize_under none reasoner_id config = raised (not_served reasoner_id)
authorize_under (some profile) reasoner_id config = authorize profile config

-- `authorize_config`, of a configuration that validates.
unfoldable pub authorize_config :
    Option (List (String × ReasonerProfile))
    → String
    → PolicyGateConfig
    → Outcome AuthorizeError (Unit {0})
unfolding authorize_under
authorize_config none reasoner_id config = ok tt
authorize_config (some profiles) reasoner_id config =
    authorize_under (get_entry reasoner_id profiles) reasoner_id config

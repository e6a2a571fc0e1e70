-- ===== src/PolicyRag/Admission/Kept.antt =====
-- gates/policy_rag/src/policy_rag_gate/gate.py, `validate_binding` and `authorize_config`: what the
-- gate keeps when a reasoner is admitted, and what an authorized configuration names.
use mathlib.Core.Path.{subst}
use decision_ledger.Prelude.{
  ◌≡◌, refl, sym, ap, ◌∙◌, String, Bool, true, false, not, ◌&&◌, ◌||◌, Option, none, some, is_some,
  List, [], ◌∷◌, map, all, contains, arith, eq_iff, Bool-cases, inl, inr, ok, require, >>=-eq-ok,
  ok-injective, require-true,
}
use decision_ledger.Prelude.Dicts.{
  get_entry, set_entry, has_key, get_entry-merge_entries, is_some-merge_entries, set_entry-same,
  set_entry-keeps, set_entry-cases,
}
use decision_ledger.PolicyRag.{CorpusRef, PolicyBindingConfig, provenance_at_least, ProvenanceLevel}
use decision_ledger.PolicyRag.Admission.{
  PromptTemplate, ReasonerProfile, declared_twice, no_directory_name, directory_missing,
  no_template, no_jurisdiction, is_directory_name, is_empty, load_templates, Loaded, Registry,
  check_new, add, ReasonerAssets, load_root_assets, Admissions, serves, Provider, not_installed,
  cannot_build, supplies, check_corpora, check_provider, check_described, admit_from,
  admit_reasoner, validate_binding,
}

abbrev pub profile_of : Option (List (String × ReasonerProfile)) → String → Option ReasonerProfile
profile_of none reasoner_id = none
profile_of (some profiles) reasoner_id = get_entry reasoner_id profiles

-- Templates and their files are under the same ids, and what a profile allows is registered.
pub record IsFiled (a : Admissions) : Type 0 where
  pub filed :
      (id : String)
      → is_some (get_entry id a.registry.templates) ≡ is_some (get_entry id a.registry.sources)
  pub shipped :
      (r : String) (p : ReasonerProfile) (id : String)
      → profile_of a.profiles r ≡ some p
      → contains p.template_ids id ≡ true
      → is_some (get_entry id a.registry.templates) ≡ true

has_key-templates :
    (loaded : Loaded) (id : String)
    → has_key id (map (λ e. (e.0, e.1.0)) loaded) ≡ has_key id loaded
has_key-templates [] id = refl
has_key-templates (e ∷ loaded) id = rw (has_key-templates loaded id) refl

has_key-sources :
    (loaded : Loaded) (id : String)
    → has_key id (map (λ e. (e.0, e.1.1)) loaded) ≡ has_key id loaded
has_key-sources [] id = refl
has_key-sources (e ∷ loaded) id = rw (has_key-sources loaded id) refl

contains-keys :
    (loaded : Loaded) (id : String) → contains (map (λ e. e.0) loaded) id ≡ has_key id loaded
contains-keys [] id = refl
contains-keys (e ∷ loaded) id = rw (contains-keys loaded id) refl

check_new-fresh :
    (sources : List (String × String)) (loaded : Loaded) (id : String)
    → check_new sources loaded ≡ ok tt
    → is_some (get_entry id sources) ≡ true
    → has_key id loaded ≡ false
unfolding check_new
check_new-fresh sources [] id h there = refl
check_new-fresh sources ((template_id, value) ∷ loaded) id h there =
    let (_, fresh, rest) =
      >>=-eq-ok
        (require (not (is_some (get_entry template_id sources))) (declared_twice template_id)) _
        h in
    ground (
      arith,
      require-true _ _ fresh,
      check_new-fresh sources loaded id rest there,
      eq_iff template_id id,
    )

-- What `add` makes of a registry.
record Adds (loaded : Loaded) (before after : Registry) : Type 0 where
  templates :
      (id : String)
      → is_some (get_entry id after.templates)
        ≡ (is_some (get_entry id before.templates) || has_key id loaded)
  sources :
      (id : String)
      → is_some (get_entry id after.sources)
        ≡ (is_some (get_entry id before.sources) || has_key id loaded)
  kept :
      (id : String)
      → is_some (get_entry id before.sources) ≡ true
      → get_entry id after.templates ≡ get_entry id before.templates

add-Adds :
    (loaded : Loaded) (before after : Registry)
    → add loaded before ≡ ok after
    → Adds loaded before after
unfolding add
add-Adds loaded before after h =
    let (_, fresh, made) = >>=-eq-ok (check_new before.sources loaded) _ h in
    rw (← ok-injective made) (record {
      templates = λ id.
          is_some-merge_entries before.templates (map (λ e. (e.0, e.1.0)) loaded) id
          ∙ rw (has_key-templates loaded id) refl;
      sources = λ id.
          is_some-merge_entries before.sources (map (λ e. (e.0, e.1.1)) loaded) id
          ∙ rw (has_key-sources loaded id) refl;
      kept = λ id there.
          get_entry-merge_entries before.templates (map (λ e. (e.0, e.1.0)) loaded) id
            (has_key-templates loaded id ∙ check_new-fresh before.sources loaded id fresh there);
    })

load_root_assets-ids :
    (assets : ReasonerAssets) (reasoner_id : String) (p : ReasonerProfile) (loaded : Loaded)
    → load_root_assets assets reasoner_id ≡ ok (p, loaded)
    → p.template_ids ≡ map (λ e. e.0) loaded
unfolding load_root_assets
load_root_assets-ids assets reasoner_id p loaded h =
    let (_, _, h1) =
      >>=-eq-ok (require (is_directory_name reasoner_id) (no_directory_name reasoner_id)) _ h in
    let (_, _, h2) =
      >>=-eq-ok (require (assets.has_prompts && assets.has_corpus) (directory_missing reasoner_id))
        _ h1 in
    let (templates, _, h3) = >>=-eq-ok (load_templates assets.files []) _ h2 in
    let (_, _, h4) =
      >>=-eq-ok (require (not (is_empty templates)) (no_template reasoner_id)) _ h3 in
    let (_, _, h5) =
      >>=-eq-ok (require (not (is_empty assets.corpus_jurisdictions)) (no_jurisdiction reasoner_id))
        _ h4 in
    subst (λ (x : ReasonerProfile × Loaded). x.0.template_ids ≡ map (λ e. e.0) (x.1))
      (ok-injective h5) refl

-- Whether the provider of a corpus supplies at least the provenance that is asked for.
abbrev pub supplied : Provider → CorpusRef → Bool
supplied not_installed corpus = false
supplied cannot_build corpus = false
supplied (supplies describe) corpus = elim (describe corpus) [
  | none ↦ false
  | some level ↦ provenance_at_least level corpus.min_provenance
]

-- What an admission leaves: nothing that the gate held is lost.
pub record Grows (reasoner_id : String) (before after : Admissions) : Type 0 where
  pub filed : IsFiled after
  pub served : serves after reasoner_id ≡ true
  pub templates :
      (id : String) (t : PromptTemplate)
      → get_entry id before.registry.templates ≡ some t
      → get_entry id after.registry.templates ≡ some t
  pub profiles :
      (r : String) (p : ReasonerProfile)
      → profile_of before.profiles r ≡ some p
      → profile_of after.profiles r ≡ some p

check_described-supplied :
    (corpus : CorpusRef) (level : Option ProvenanceLevel)
    → check_described corpus level ≡ ok tt
    → (elim level [ none ↦ false | some l ↦ provenance_at_least l corpus.min_provenance ]) ≡ true
unfolding check_described
check_described-supplied corpus none e = cc
check_described-supplied corpus (some level) e = require-true _ _ e

check_provider-supplied :
    (corpus : CorpusRef) (p : Provider) → check_provider corpus p ≡ ok tt → supplied p corpus ≡ true
unfolding check_provider
check_provider-supplied corpus not_installed e = cc
check_provider-supplied corpus cannot_build e = cc
check_provider-supplied corpus (supplies describe) e =
    check_described-supplied corpus (describe corpus) e

check_corpora-supplied :
    (providers : String → Provider) (corpora : List CorpusRef)
    → check_corpora providers corpora ≡ ok tt
    → all (λ corpus. supplied (providers corpus.provider) corpus) corpora ≡ true
unfolding check_corpora
check_corpora-supplied providers [] h = refl
check_corpora-supplied providers (corpus ∷ corpora) h =
    let (_, first, rest) = >>=-eq-ok (check_provider corpus (providers corpus.provider)) _ h in
    rw
      (
        check_provider-supplied corpus (providers corpus.provider) first,
        check_corpora-supplied providers corpora rest,
      )
      refl

some-is_some : {A : Type 0} (o : Option A) {x : A} → o ≡ some x → is_some o ≡ true
some-is_some o e = rw e refl

unchanged-Grows :
    (reasoner_id : String) (a : Admissions)
    → IsFiled a
    → serves a reasoner_id ≡ true
    → Grows reasoner_id a a
unchanged-Grows reasoner_id a f s = record {
  filed = f;
  served = s;
  templates = λ id t e. e;
  profiles = λ r p e. e;
}

admitted-Grows :
    (reasoner_id : String) (profiles : List (String × ReasonerProfile)) (registry added : Registry)
    (p : ReasonerProfile) (loaded : Loaded)
    → IsFiled (record { profiles = some profiles; registry = registry })
    → is_some (get_entry reasoner_id profiles) ≡ false
    → Adds loaded registry added
    → p.template_ids ≡ map (λ e. e.0) loaded
    → Grows reasoner_id
        (record { profiles = some profiles; registry = registry })
        (record { profiles = some (set_entry reasoner_id p profiles); registry = added })
unfolding serves
admitted-Grows reasoner_id profiles registry added p loaded f new a ids = record {
  filed = record {
    filed = λ id. a.templates id ∙ rw (f.filed id) (sym (a.sources id));
    shipped = λ r q id e c. a.templates id ∙ elim (set_entry-cases reasoner_id p profiles r e) [
      | inl same ↦
          let there : has_key id loaded ≡ true =
            sym (contains-keys loaded id)
            ∙ ap (λ x. contains x id) (sym ids)
            ∙ ap (λ x. contains x.template_ids id) same
            ∙ c in
          rw there (ground arith)
      | inr old ↦ rw (f.shipped r q id old c) refl
    ];
  };
  served = rw (set_entry-same reasoner_id p profiles) refl;
  templates = λ id t e. a.kept id (sym (f.filed id) ∙ some-is_some _ e) ∙ e;
  profiles = λ r q e. set_entry-keeps reasoner_id p profiles r new e;
}

admit_from-Grows :
    (root : Option (String → ReasonerAssets)) (reasoner_id : String)
    (profiles : List (String × ReasonerProfile)) (registry : Registry) (after : Admissions)
    → IsFiled (record { profiles = some profiles; registry = registry })
    → is_some (get_entry reasoner_id profiles) ≡ false
    → admit_from root reasoner_id profiles registry ≡ ok after
    → Grows reasoner_id (record { profiles = some profiles; registry = registry }) after
unfolding admit_from
admit_from-Grows none reasoner_id profiles registry after f new h = cc
admit_from-Grows (some root) reasoner_id profiles registry after f new h =
    let (shipped, ships, h1) = >>=-eq-ok (load_root_assets (root reasoner_id) reasoner_id) _ h in
    let (added, adds, h2) = >>=-eq-ok (add (shipped.1) registry) _ h1 in
    subst (Grows reasoner_id (record { profiles = some profiles; registry = registry }))
      (ok-injective h2)
      (admitted-Grows reasoner_id profiles registry added (shipped.0) (shipped.1) f new
        (add-Adds (shipped.1) registry added adds)
        (load_root_assets-ids (root reasoner_id) reasoner_id (shipped.0) (shipped.1) ships))

admit_reasoner-Grows :
    (root : Option (String → ReasonerAssets)) (reasoner_id : String)
    (profiles : Option (List (String × ReasonerProfile))) (registry : Registry) (after : Admissions)
    → IsFiled (record { profiles = profiles; registry = registry })
    → admit_reasoner root reasoner_id profiles registry ≡ ok after
    → Grows reasoner_id (record { profiles = profiles; registry = registry }) after
unfolding admit_reasoner serves
admit_reasoner-Grows root reasoner_id none registry after f h =
    subst (Grows reasoner_id (record { profiles = none; registry = registry })) (ok-injective h)
      (unchanged-Grows reasoner_id (record { profiles = none; registry = registry }) f refl)
admit_reasoner-Grows root reasoner_id (some profiles) registry after f h =
    elim (Bool-cases (is_some (get_entry reasoner_id profiles))) [
      | inl there ↦
          subst (Grows reasoner_id (record { profiles = some profiles; registry = registry }))
            (ok-injective (rw there at h))
            (unchanged-Grows reasoner_id (record { profiles = some profiles; registry = registry })
              f there)
      | inr new ↦ admit_from-Grows root reasoner_id profiles registry after f new (rw new at h)
    ]

-- An admitted binding leaves a gate that serves the reasoner, holds every template and profile that
-- it held before, and files templates and profiles as before; and every corpus of the binding has a
-- provider that supplies at least the provenance that is asked for.
pub validate_binding-Grows :
    (providers : String → Provider) (root : Option (String → ReasonerAssets)) (reasoner_id : String)
    (binding : PolicyBindingConfig) (before after : Admissions)
    → IsFiled before
    → validate_binding providers root reasoner_id binding before ≡ ok after
    → Grows reasoner_id before after
      × (all (λ corpus. supplied (providers corpus.provider) corpus) binding.corpora ≡ true)
unfolding validate_binding
validate_binding-Grows providers root reasoner_id binding before after f h =
    let (_, described, admits) = >>=-eq-ok (check_corpora providers binding.corpora) _ h in
    (
      admit_reasoner-Grows root reasoner_id before.profiles before.registry after f admits,
      check_corpora-supplied providers binding.corpora described,
    )

-- ===== src/PolicyRag/Retrieval.antt =====
-- gates/policy_rag/src/policy_rag_gate/gate.py, `retrieve_evidence`: one query of each bound corpus,
-- and the passages in order of precedence, each distinct text once.
pub mod Merged
pub mod Sound
use decision_ledger.Prelude.{
  ℕ, suc, ◌+◌, String, Bool, true, false, not, ◌&&◌, Option, none, some, List, [], ◌∷◌, ◌++◌, map,
  any, length, ltb, leb, ◌==◌, if◌then◌else◌, Outcome, ok, raised, ◌>>=◌,
}
use decision_ledger.Prelude.Sorting.{sort}
use decision_ledger.PolicyRag.{
  CorpusRef, PolicyBindingConfig, RetrievedContext, ProviderResult, Filter, filtered, excluded,
  corpus_filter, ContractBreach, check_contract,
}

-- `provider.retrieve(query, corpus, k=, jurisdictions=, risk_tier=)`, with the text of its exception.
abbrev pub Retrieve : Type 0
Retrieve =
    String → CorpusRef → ℕ → Option (List String) → Option String → Outcome String ProviderResult

pub data RetrievalError : Type 0 where
  not_installed : String → RetrievalError
  provider_raised : String → RetrievalError
  breaks_contract : ContractBreach → RetrievalError

-- The record of one query, without the state of the corpus and the duration. `skipped` keeps whether
-- the corpus was not queried, without the text that says why.
pub record CorpusQuery : Type 0 where
  pub corpus_ref : CorpusRef
  pub k : ℕ
  pub jurisdictions : Option (List String)
  pub risk_tier : Option String
  pub ranking_requested : Option String
  pub ranking_applied : String
  pub returned : ℕ
  pub merged : ℕ
  pub skipped : Bool

pub record Answered : Type 0 where
  pub corpus : CorpusRef
  pub result : Option ProviderResult
  pub query : CorpusQuery

abbrev pub skipped_ranking : String
skipped_ranking = "skipped"

as_raised : Outcome String ProviderResult → Outcome RetrievalError ProviderResult
as_raised (ok result) = ok result
as_raised (raised text) = raised (provider_raised text)

as_breach : Outcome ContractBreach ProviderResult → Outcome RetrievalError ProviderResult
as_breach (ok result) = ok result
as_breach (raised breach) = raised (breaks_contract breach)

module _ (content_hash : String → String) (providers : String → Option Retrieve)
    (binding : PolicyBindingConfig) (query : String) (submitted : List String)
    (risk_tier : Option String) where
  answered_with : CorpusRef → Option (List String) → ProviderResult → Answered
  answered_with corpus jurisdictions result = record {
    corpus = corpus;
    result = some result;
    query = record {
      corpus_ref = corpus;
      k = binding.k_per_corpus;
      jurisdictions = jurisdictions;
      risk_tier = risk_tier;
      ranking_requested = some result.ranking_requested;
      ranking_applied = result.ranking_applied;
      returned = length result.contexts;
      merged = 0;
      skipped = false;
    };
  }

  not_queried : CorpusRef → Answered
  not_queried corpus = record {
    corpus = corpus;
    result = none;
    query = record {
      corpus_ref = corpus;
      k = binding.k_per_corpus;
      jurisdictions = none;
      risk_tier = risk_tier;
      ranking_requested = none;
      ranking_applied = skipped_ranking;
      returned = 0;
      merged = 0;
      skipped = true;
    };
  }

  ask : CorpusRef → Option (List String) → Option Retrieve → Outcome RetrievalError Answered
  unfolding answered_with as_raised as_breach
  ask corpus jurisdictions none = raised (not_installed corpus.provider)
  ask corpus jurisdictions (some retrieve) = do
    answer ← as_raised (retrieve query corpus binding.k_per_corpus jurisdictions risk_tier)
    result ← as_breach (check_contract content_hash corpus answer binding.k_per_corpus)
    ok (answered_with corpus jurisdictions result)

  ask_filtered : CorpusRef → Filter → Outcome RetrievalError Answered
  unfolding ask not_queried
  ask_filtered corpus excluded = ok (not_queried corpus)
  ask_filtered corpus (filtered jurisdictions) =
      ask corpus jurisdictions (providers corpus.provider)

  -- The loop over the bound corpora.
  ask_all : List CorpusRef → Outcome RetrievalError (List Answered)
  unfolding ask_filtered
  ask_all [] = ok []
  ask_all (corpus ∷ corpora) =
      let rest = ask_all corpora in
      do
        answer ← ask_filtered corpus (corpus_filter corpus submitted)
        others ← rest
        ok (answer ∷ others)

abbrev pub Key : Type 0
Key = String × Option String

abbrev pub key_of : RetrievedContext → Key
key_of context = (context.content_hash, context.jurisdiction)

same_jurisdiction : Option String → Option String → Bool
same_jurisdiction none none = true
same_jurisdiction (some a) (some b) = a == b
same_jurisdiction _ _ = false

unfoldable pub same_key : Key → Key → Bool
unfolding same_jurisdiction
same_key (h, j) (h', j') = h == h' && same_jurisdiction j j'

-- `merged[corpus_id] = merged.get(corpus_id, 0) + 1`
bump : String → List (String × ℕ) → List (String × ℕ)
bump corpus_id [] = (corpus_id, 1) ∷ []
bump corpus_id ((key, n) ∷ rest) =
    let others = bump corpus_id rest in
    if key == corpus_id then (key, suc n) ∷ rest else (key, n) ∷ others

-- `merged.get(corpus_id, 0)`
count_of : String → List (String × ℕ) → ℕ
count_of corpus_id [] = 0
count_of corpus_id ((key, n) ∷ rest) = if key == corpus_id then n else count_of corpus_id rest

-- `sum(merged.values())`
total : List (String × ℕ) → ℕ
total [] = 0
total ((key, n) ∷ rest) = n + total rest

pub record Merging : Type 0 where
  pub seen : List Key
  pub contexts : List RetrievedContext
  pub merged : List (String × ℕ)

unfoldable pub merge_context : String → RetrievedContext → Merging → Merging
unfolding bump
merge_context corpus_id context s =
    if any (same_key (key_of context)) s.seen
    then record s { merged = bump corpus_id s.merged }
    else record s { seen = key_of context ∷ s.seen; contexts = s.contexts ++ context ∷ [] }

merge_contexts : String → List RetrievedContext → Merging → Merging
unfolding merge_context
merge_contexts corpus_id [] s = s
merge_contexts corpus_id (context ∷ contexts) s =
    merge_contexts corpus_id contexts (merge_context corpus_id context s)

abbrev pub passages : Option ProviderResult → List RetrievedContext
passages none = []
passages (some result) = result.contexts

merge_answers : List Answered → Merging → Merging
unfolding merge_contexts
merge_answers [] s = s
merge_answers (a ∷ answers) s =
    merge_answers answers (merge_contexts a.corpus.corpus_id (passages a.result) s)

-- The order of precedence between corpora: the highest tier first.
abbrev pub by_tier : Answered → Answered → Bool
by_tier a b = leb a.corpus.tier b.corpus.tier

pub record Evidence : Type 0 where
  pub queries : List CorpusQuery
  pub contexts : List RetrievedContext
  pub dedup_merged : ℕ
  pub results : List (String × Option ProviderResult)

with_merged : List (String × ℕ) → Answered → CorpusQuery
unfolding count_of
with_merged merged a = record (a.query) { merged = count_of a.corpus.corpus_id merged }

unfoldable pub assembled : List Answered → Evidence
unfolding merge_answers with_merged total
assembled answered =
    let s =
      merge_answers (sort by_tier answered) (record { seen = []; contexts = []; merged = [] }) in
    record {
      queries = map (with_merged s.merged) answered;
      contexts = s.contexts;
      dedup_merged = total s.merged;
      results = map (λ a. (a.corpus.corpus_id, a.result)) answered;
    }

-- `retrieve_evidence`
unfoldable pub retrieve_evidence :
    (String → String)
    → (String → Option Retrieve)
    → PolicyBindingConfig
    → String
    → List String
    → Option String
    → Outcome RetrievalError Evidence
unfolding ask_all
retrieve_evidence content_hash providers binding query submitted risk_tier = do
  answered ← ask_all content_hash providers binding query submitted risk_tier binding.corpora
  ok (assembled answered)

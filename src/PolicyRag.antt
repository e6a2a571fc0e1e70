-- ===== src/PolicyRag.antt =====
-- gates/policy_rag/src/policy_rag_gate: the policy gate's corpora (corpus.py), its passages
-- (models/context.py), what it asks of a provider's answer, and the hold on a tiered verdict (gate.py).
-- A provider is a function, and a value that is not of the annotated type cannot be written here.
-- What the gate only stores of a passage is left out.
pub mod Retrieval
pub mod Held
pub mod Contract
pub mod Admission
use decision_ledger.Prelude.{
  ℕ, suc, String, Bool, true, false, not, ◌&&◌, ◌||◌, Option, none, some, List, [], ◌∷◌, map, all,
  select, distinct, length, contains, ltb, leb, eqb, ◌==◌, if◌then◌else◌, Outcome, ok, raised,
  require, ◌>>=◌, ◌>>◌,
}
use decision_ledger.Prelude.Names.{sorted_set}
use decision_ledger.Actions.{DecisionAction, hold, severity}
use decision_ledger.Gate.{GateVerdict, EvidenceRef}

pub data ProvenanceLevel : Type 0 where
  text_only uri_and_hash pinned_version : ProvenanceLevel

-- The place in `PROVENANCE_ORDER`.
abbrev pub provenance_order : ProvenanceLevel → ℕ
provenance_order text_only = 0
provenance_order uri_and_hash = 1
provenance_order pinned_version = 2

abbrev pub provenance_at_least : ProvenanceLevel → ProvenanceLevel → Bool
provenance_at_least level minimum = leb (provenance_order minimum) (provenance_order level)

pub record CorpusRef : Type 0 where
  pub corpus_id : String
  pub provider : String
  pub tier : ℕ
  pub jurisdictions : List String
  pub min_provenance : ProvenanceLevel

pub record PolicyBindingConfig : Type 0 where
  pub corpora : List CorpusRef
  pub k_per_corpus : ℕ

abbrev pub max_k_per_corpus : ℕ
max_k_per_corpus = 50

is_empty : List CorpusRef → Bool
is_empty [] = true
is_empty (c ∷ cs) = false

-- The bounds of the fields, and `_each_corpus_once`.
unfoldable pub is_valid_binding : PolicyBindingConfig → Bool
unfolding is_empty
is_valid_binding binding =
    not (is_empty binding.corpora)
    && leb 1 binding.k_per_corpus
    && leb binding.k_per_corpus max_k_per_corpus
    && distinct (map (λ c. c.corpus_id) binding.corpora)

pub record CorpusState : Type 0 where
  pub corpus_id : String
  pub provider : String

pub record RetrievedContext : Type 0 where
  pub corpus_id : String
  pub provider : String
  pub tier : ℕ
  pub document_id : String
  pub version : Option String
  pub jurisdiction : Option String
  pub section_path : Option String
  pub text : String
  pub content_hash : String
  pub rank : ℕ
  pub provenance_level : ProvenanceLevel
  pub artifact_hash : Option String

pub record ProviderResult : Type 0 where
  pub state : CorpusState
  pub contexts : List RetrievedContext
  pub ranking_requested : String
  pub ranking_applied : String

tags_of : Option String → List String
tags_of none = []
tags_of (some jurisdiction) = if jurisdiction == "" then [] else jurisdiction ∷ []

-- `_evidence`
unfoldable pub evidence_of : List RetrievedContext → List EvidenceRef
unfolding tags_of
evidence_of [] = []
evidence_of (context ∷ contexts) =
    record {
      source_id = context.document_id;
      locator = context.section_path;
      jurisdictions = tags_of context.jurisdiction;
      content_hash = some context.content_hash;
      artifact_hash = context.artifact_hash;
    }
    ∷ evidence_of contexts

-- The filter of one corpus, `none` for no filter; or the corpus is not queried.
pub data Filter : Type 0 where
  filtered : Option (List String) → Filter
  excluded : Filter

listed_or_none : List String → Option (List String)
listed_or_none [] = none
listed_or_none (j ∷ js) = some (j ∷ js)

meeting : List String → Filter
meeting [] = excluded
meeting (j ∷ js) = filtered (some (j ∷ js))

narrowed : List String → List String → Filter
unfolding meeting
narrowed bound [] = filtered (some (sorted_set bound))
narrowed bound (j ∷ submitted) = meeting (select (contains bound) (j ∷ submitted))

filter_by : List String → List String → Filter
unfolding listed_or_none narrowed
filter_by [] submitted = filtered (listed_or_none submitted)
filter_by (b ∷ bound) submitted = narrowed (b ∷ bound) submitted

-- `corpus_filter`
unfoldable pub corpus_filter : CorpusRef → List String → Filter
unfolding filter_by
corpus_filter corpus submitted = filter_by corpus.jurisdictions submitted

-- What breaks the evidence contract, with the place of the passage.
pub data ContractBreach : Type 0 where
  other_corpus : CorpusState → ContractBreach
  over_quota : ℕ → ContractBreach
  wrong_digest wrong_label wrong_rank weak_provenance : ℕ → ContractBreach

module _ (content_hash : String → String) where
  pub check_passage : CorpusRef → ℕ → RetrievedContext → Outcome ContractBreach (Unit {0})
  check_passage corpus expected_rank context = do
    require (content_hash context.text == context.content_hash) (wrong_digest expected_rank)
    require
        (context.corpus_id == corpus.corpus_id
          && context.provider == corpus.provider
          && eqb context.tier corpus.tier)
        (wrong_label expected_rank)
    require (eqb context.rank expected_rank) (wrong_rank expected_rank)
    require (provenance_at_least context.provenance_level corpus.min_provenance)
        (weak_provenance expected_rank)

  pub check_passages : CorpusRef → ℕ → List RetrievedContext → Outcome ContractBreach (Unit {0})
  unfolding check_passage
  check_passages corpus expected_rank [] = ok tt
  check_passages corpus expected_rank (context ∷ contexts) = do
    check_passage corpus expected_rank context
    check_passages corpus (suc expected_rank) contexts

  -- `check_contract`
  unfoldable pub check_contract :
      CorpusRef → ProviderResult → ℕ → Outcome ContractBreach ProviderResult
  unfolding check_passages
  check_contract corpus result k = do
    require (result.state.corpus_id == corpus.corpus_id && result.state.provider == corpus.provider)
        (other_corpus result.state)
    require (leb (length result.contexts) k) (over_quota (length result.contexts))
    check_passages corpus 1 result.contexts
    ok result

-- The report of a tiered verdict: what the model said of its evidence.
pub record TieredReport : Type 0 where
  pub universal : GateVerdict
  pub conflict_detected : Bool
  pub evidence_sufficient : Bool

pub data ProtocolHold : Type 0 where
  conflict evidence_insufficient : ProtocolHold

abbrev pub disagree_reason : String
disagree_reason = "Retrieved policy evidence on point disagrees; held for human review."

abbrev pub gap_reason : String
gap_reason = "Retrieved policy evidence does not cover this case; held for human review."

at_least_hold : List DecisionAction → List DecisionAction
at_least_hold actions = select (λ a. leb (severity hold) (severity a)) actions

or_hold : List DecisionAction → List DecisionAction
or_hold [] = hold ∷ []
or_hold (a ∷ actions) = a ∷ actions

held_with : GateVerdict → String → GateVerdict
unfolding at_least_hold or_hold
held_with universal reason = record universal {
  permitted_actions = or_hold (at_least_hold universal.permitted_actions);
  escalate_to_human = true;
  escalation_reason = some reason;
}

-- `_held`
unfoldable pub held_verdict : TieredReport → GateVerdict × Option ProtocolHold
unfolding held_with
held_verdict report =
    if report.conflict_detected
    then (held_with report.universal disagree_reason, some conflict)
    else if not report.evidence_sufficient
    then (held_with report.universal gap_reason, some evidence_insufficient)
    else (report.universal, none)

-- ===== src/Examples/Retrieves.antt =====
-- Runs of the policy gate's retrieval and hold.
use decision_ledger.Prelude.{◌≡◌, refl, ◌≤◌, ℕ, String, true, none, some, Option, [], ◌∷◌, ok}
use decision_ledger.Actions.{allow, severity}
use decision_ledger.Gate.{GateOutput}
use decision_ledger.Enforcement.{resolve_gate_output}
use decision_ledger.PolicyRag.{
  uri_and_hash, CorpusRef, PolicyBindingConfig, RetrievedContext, TieredReport, conflict,
  held_verdict, corpus_filter, check_contract,
}
use decision_ledger.PolicyRag.Held.{IsHeld, held_verdict-enforced}
use decision_ledger.PolicyRag.Retrieval.{Retrieve, Evidence, retrieve_evidence}
use decision_ledger.PolicyRag.Retrieval.Sound.{IsSound, retrieve_evidence-IsSound}
use decision_ledger.Examples.Data.{cards, verdict_of, output_of}

-- The model allows a case on evidence that disagrees.
abbrev disputed : TieredReport
disputed = record {
  universal = verdict_of "policy" allow;
  conflict_detected = true;
  evidence_sufficient = true;
}

abbrev held_output : GateOutput
held_output = record (output_of "policy" allow) { verdict = some ((held_verdict disputed).0) }

is_disputed : (held_verdict disputed).1 ≡ some conflict
unfolding held_verdict
is_disputed = refl

held_verdict-enforced_example :
    IsHeld disputed.universal ((held_verdict disputed).0)
    × (2 ≤ severity (resolve_gate_output (some held_output) cards none).decision_action)
held_verdict-enforced_example =
    held_verdict-enforced disputed conflict held_output cards none is_disputed refl

abbrev corpus : String → ℕ → CorpusRef
corpus corpus_id tier = record {
  corpus_id = corpus_id;
  provider = "files";
  tier = tier;
  jurisdictions = "US" ∷ [];
  min_provenance = uri_and_hash;
}

abbrev binding : PolicyBindingConfig
binding = record { corpora = corpus "firm" 2 ∷ corpus "state" 1 ∷ []; k_per_corpus = 3 }

-- Both corpora hold the same text of the same jurisdiction.
abbrev passage : CorpusRef → RetrievedContext
passage c = record {
  corpus_id = c.corpus_id;
  provider = c.provider;
  tier = c.tier;
  document_id = "kyc";
  version = none;
  jurisdiction = some "US";
  section_path = some "1";
  text = "know the customer";
  content_hash = "digest";
  rank = 1;
  provenance_level = uri_and_hash;
  artifact_hash = none;
}

abbrev files : Retrieve
files = λ query c k jurisdictions risk_tier. ok (record {
  state = record { corpus_id = c.corpus_id; provider = c.provider };
  contexts = passage c ∷ [];
  ranking_requested = "lexical";
  ranking_applied = "lexical";
})

abbrev providers : String → Option Retrieve
providers provider = some files

evidence :
    (e : Evidence) × (retrieve_evidence
        (λ text. "digest")
        providers
        binding
        "customer"
        ("US" ∷ [])
        none
      ≡ ok e)
unfolding retrieve_evidence corpus_filter check_contract
evidence = (_, refl)

retrieve_evidence-IsSound_example :
    IsSound (λ text. "digest") providers binding "customer" ("US" ∷ []) none (evidence.0)
retrieve_evidence-IsSound_example =
    retrieve_evidence-IsSound (λ text. "digest") providers binding "customer" ("US" ∷ []) none
      (evidence.0) (evidence.1)

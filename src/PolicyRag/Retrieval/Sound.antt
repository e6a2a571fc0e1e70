-- ===== src/PolicyRag/Retrieval/Sound.antt =====
-- gates/policy_rag/src/policy_rag_gate/gate.py, `retrieve_evidence`: how much evidence there is, and
-- what holds of each passage.
use decision_ledger.Prelude.{
  ◌≡◌, refl, ◌≤◌, ◌+◌, ◌*◌, String, Bool, true, Option, none, some, List, [], ◌∷◌, any, all, length,
  leb, arith, Outcome, ok, raised, >>=-eq-ok, ok-injective,
}
use decision_ledger.PolicyRag.{
  CorpusRef, PolicyBindingConfig, RetrievedContext, ProviderResult, ContractBreach, Filter,
  filtered, excluded, corpus_filter, check_contract,
}
use decision_ledger.PolicyRag.Contract.{is_of, check_contract-Accepts}
use decision_ledger.PolicyRag.Retrieval.{
  Retrieve, Answered, passages, Evidence, ask_all, ask_filtered, ask, as_raised, as_breach,
  answered_with, not_queried, retrieve_evidence,
}
use decision_ledger.PolicyRag.Retrieval.Merged.{
  returned_by, counts, all-assembled, all_passages, each_once, once-assembled,
}

as_breach-ok :
    {r : ProviderResult} (o : Outcome ContractBreach ProviderResult) → as_breach o ≡ ok r → o ≡ ok r
unfolding as_breach
as_breach-ok (ok r) e = cc
as_breach-ok (raised breach) e = cc

module _ (content_hash : String → String) (providers : String → Option Retrieve)
    (binding : PolicyBindingConfig) (query : String) (submitted : List String)
    (risk_tier : Option String) where
  -- What the answer of one corpus holds.
  record Answers (corpus : CorpusRef) (a : Answered) : Type 0 where
    quota : leb (length (passages a.result)) binding.k_per_corpus ≡ true
    cited : all (is_of content_hash corpus) (passages a.result) ≡ true

  ask-Answers :
      (corpus : CorpusRef) (js : Option (List String)) (o : Option Retrieve) (a : Answered)
      → ask content_hash providers binding query submitted risk_tier corpus js o ≡ ok a
      → Answers corpus a
  unfolding ask answered_with
  ask-Answers corpus js none a h = cc
  ask-Answers corpus js (some retrieve) a h =
      let (answer, _, h1) =
        >>=-eq-ok (as_raised (retrieve query corpus binding.k_per_corpus js risk_tier)) _ h in
      let (result, checks, h2) =
        >>=-eq-ok (as_breach (check_contract content_hash corpus answer binding.k_per_corpus)) _
          h1 in
      let accepts =
        check_contract-Accepts content_hash corpus answer result binding.k_per_corpus
          (as_breach-ok _ checks) in
      rw (← ok-injective h2) (record {
        quota = rw (accepts.same) accepts.quota;
        cited = rw (accepts.same) accepts.cited;
      })

  ask_filtered-Answers :
      (corpus : CorpusRef) (f : Filter) (a : Answered)
      → ask_filtered content_hash providers binding query submitted risk_tier corpus f ≡ ok a
      → Answers corpus a
  unfolding ask_filtered not_queried
  ask_filtered-Answers corpus excluded a h =
      rw (← ok-injective h) (record { quota = ground arith; cited = refl })
  ask_filtered-Answers corpus (filtered js) a h =
      ask-Answers corpus js (providers corpus.provider) a h

  -- A passage of one of the corpora, as the contract has it.
  abbrev pub is_cited : List CorpusRef → RetrievedContext → Bool
  is_cited corpora c = any (λ corpus. is_of content_hash corpus c) corpora

  is_cited-of :
      (corpus : CorpusRef) (corpora : List CorpusRef) (cs : List RetrievedContext)
      → all (is_of content_hash corpus) cs ≡ true
      → all (is_cited (corpus ∷ corpora)) cs ≡ true
  is_cited-of corpus corpora [] h = refl
  is_cited-of corpus corpora (c ∷ cs) h = ground (arith, is_cited-of corpus corpora cs)

  is_cited-more :
      (corpus : CorpusRef) (corpora : List CorpusRef) (cs : List RetrievedContext)
      → all (is_cited corpora) cs ≡ true
      → all (is_cited (corpus ∷ corpora)) cs ≡ true
  is_cited-more corpus corpora [] h = refl
  is_cited-more corpus corpora (c ∷ cs) h = ground (arith, is_cited-more corpus corpora cs)

  each-more :
      (corpus : CorpusRef) (corpora : List CorpusRef) (answers : List Answered)
      → all (all_passages (is_cited corpora)) answers ≡ true
      → all (all_passages (is_cited (corpus ∷ corpora))) answers ≡ true
  each-more corpus corpora [] h = refl
  each-more corpus corpora (a ∷ answers) h =
      ground
        (arith, each-more corpus corpora answers, is_cited-more corpus corpora (passages a.result))

  record AllAnswers (corpora : List CorpusRef) (answers : List Answered) : Type 0 where
    bounded : returned_by answers ≤ length corpora * binding.k_per_corpus
    cited : all (all_passages (is_cited corpora)) answers ≡ true

  ask_all-AllAnswers :
      (corpora : List CorpusRef) (answers : List Answered)
      → ask_all content_hash providers binding query submitted risk_tier corpora ≡ ok answers
      → AllAnswers corpora answers
  unfolding ask_all
  ask_all-AllAnswers [] answers h =
      rw (← ok-injective h) (record { bounded = omega arith; cited = refl })
  ask_all-AllAnswers (corpus ∷ corpora) answers h =
      let (a, first, h1) =
        >>=-eq-ok
          (ask_filtered content_hash providers binding query submitted risk_tier corpus
            (corpus_filter corpus submitted))
          _ h in
      let (others, later, h2) =
        >>=-eq-ok (ask_all content_hash providers binding query submitted risk_tier corpora) _ h1 in
      let one = ask_filtered-Answers corpus (corpus_filter corpus submitted) a first in
      let rest = ask_all-AllAnswers corpora others later in
      rw (← ok-injective h2) (record {
        bounded = grind (arith, one.quota, rest.bounded);
        cited =
            rw
              (
                is_cited-of corpus corpora (passages a.result) one.cited,
                each-more corpus corpora others rest.cited,
              )
              refl;
      })

  -- What is promised of the evidence.
  pub record IsSound (e : Evidence) : Type 0 where
    pub bounded : length e.contexts + e.dedup_merged ≤ length binding.corpora * binding.k_per_corpus
    pub cited : all (is_cited binding.corpora) e.contexts ≡ true
    pub once : each_once e.contexts ≡ true

  -- Whatever the providers answer, evidence that was retrieved has at most `k_per_corpus` passages
  -- for each bound corpus, with the merged ones. Each passage carries the digest of its text and is of
  -- a bound corpus, under its provider and tier and with the provenance that the binding asks for, and
  -- none stands twice under one jurisdiction.
  pub retrieve_evidence-IsSound :
      (e : Evidence)
      → retrieve_evidence content_hash providers binding query submitted risk_tier ≡ ok e
      → IsSound e
  unfolding retrieve_evidence
  retrieve_evidence-IsSound e h =
      let (answers, asked, h1) =
        >>=-eq-ok (ask_all content_hash providers binding query submitted risk_tier binding.corpora)
          _ h in
      let each = ask_all-AllAnswers binding.corpora answers asked in
      rw (← ok-injective h1) (record {
        bounded = omega (arith, counts answers, each.bounded);
        cited = all-assembled (is_cited binding.corpora) answers each.cited;
        once = once-assembled answers;
      })

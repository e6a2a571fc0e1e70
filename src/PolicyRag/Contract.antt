-- ===== src/PolicyRag/Contract.antt =====
-- gates/policy_rag/src/policy_rag_gate/gate.py, `check_contract`: what an accepted answer holds.
use decision_ledger.Prelude.{
  ◌≡◌, refl, sym, ℕ, suc, String, Bool, true, ◌&&◌, List, [], ◌∷◌, all, length, leb, arith, ◌==◌,
  eqb, ok, require, >>=-eq-ok, require-true, ok-injective,
}
use decision_ledger.PolicyRag.{
  CorpusRef, RetrievedContext, ProviderResult, other_corpus, over_quota, provenance_at_least,
  check_passage, check_passages, check_contract,
}

-- A passage with its own digest, of the corpus, at its tier, and with enough provenance.
abbrev pub is_of : (String → String) → CorpusRef → RetrievedContext → Bool
is_of content_hash corpus c =
    (content_hash c.text == c.content_hash)
    && (c.corpus_id == corpus.corpus_id && c.provider == corpus.provider && eqb c.tier corpus.tier)
    && provenance_at_least c.provenance_level corpus.min_provenance

module _ (content_hash : String → String) (corpus : CorpusRef) where
  check_passage-is_of :
      (n : ℕ) (c : RetrievedContext)
      → check_passage content_hash corpus n c ≡ ok tt
      → is_of content_hash corpus c ≡ true
  unfolding check_passage
  check_passage-is_of n c h = ground arith

  check_passages-is_of :
      (n : ℕ) (cs : List RetrievedContext)
      → check_passages content_hash corpus n cs ≡ ok tt
      → all (is_of content_hash corpus) cs ≡ true
  unfolding check_passages
  check_passages-is_of n [] h = refl
  check_passages-is_of n (c ∷ cs) h =
      let (u, first, rest) = >>=-eq-ok (check_passage content_hash corpus n c) _ h in
      rw (check_passage-is_of n c first, check_passages-is_of (suc n) cs rest) refl

  -- An accepted answer is returned as it is: at most `k` passages, each of the corpus.
  pub record Accepts (answer result : ProviderResult) (k : ℕ) : Type 0 where
    pub same : result ≡ answer
    pub quota : leb (length answer.contexts) k ≡ true
    pub cited : all (is_of content_hash corpus) answer.contexts ≡ true

  pub check_contract-Accepts :
      (answer result : ProviderResult) (k : ℕ)
      → check_contract content_hash corpus answer k ≡ ok result
      → Accepts answer result k
  unfolding check_contract
  check_contract-Accepts answer result k h =
      let (_, own, h1) =
        >>=-eq-ok
          (require
            (answer.state.corpus_id == corpus.corpus_id && answer.state.provider == corpus.provider)
            (other_corpus answer.state))
          _ h in
      let (_, few, h2) =
        >>=-eq-ok (require (leb (length answer.contexts) k) (over_quota (length answer.contexts))) _
          h1 in
      let (_, each, h3) = >>=-eq-ok (check_passages content_hash corpus 1 answer.contexts) _ h2 in
      record {
        same = sym (ok-injective h3);
        quota = require-true _ _ few;
        cited = check_passages-is_of 1 answer.contexts each;
      }

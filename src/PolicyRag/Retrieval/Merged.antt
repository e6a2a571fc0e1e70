-- ===== src/PolicyRag/Retrieval/Merged.antt =====
-- gates/policy_rag/src/policy_rag_gate/gate.py, `retrieve_evidence`: the merge of the passages.
use decision_ledger.Prelude.{
  ◌≡◌, refl, sym, ap, ◌∙◌, ℕ, suc, ◌+◌, String, Bool, true, false, not, ◌&&◌, none, some, List, [],
  ◌∷◌, ◌++◌, any, all, length, arith, eq_iff, and-left, and-right, Bool-cases, inl, inr,
}
use decision_ledger.Prelude.Finding.{all-append}
use decision_ledger.Prelude.Sets.{any-append}
use decision_ledger.Prelude.Sorting.{insert, sort, all-sort}
use decision_ledger.PolicyRag.{RetrievedContext}
use decision_ledger.PolicyRag.Retrieval.{
  Answered, Key, key_of, same_jurisdiction, same_key, bump, total, Merging, merge_context,
  merge_contexts, passages, merge_answers, by_tier, assembled,
}

total-bump :
    (corpus_id : String) (merged : List (String × ℕ))
    → total (bump corpus_id merged) ≡ suc (total merged)
unfolding total bump
total-bump corpus_id [] = refl
total-bump corpus_id ((key, n) ∷ rest) = ground (arith, total-bump corpus_id rest)

length-append_one : {A : Type 0} (xs : List A) (x : A) → length (xs ++ x ∷ []) ≡ suc (length xs)
length-append_one [] x = refl
length-append_one (y ∷ ys) x = ap suc (length-append_one ys x)

-- The passages that a merge has taken or merged.
abbrev size : Merging → ℕ
size s = length s.contexts + total s.merged

size-merge_context :
    (corpus_id : String) (c : RetrievedContext) (s : Merging)
    → size (merge_context corpus_id c s) ≡ suc (size s)
unfolding merge_context
size-merge_context corpus_id c s =
    ground (arith, total-bump corpus_id s.merged, length-append_one s.contexts c)

size-merge_contexts :
    (corpus_id : String) (cs : List RetrievedContext) (s : Merging)
    → size (merge_contexts corpus_id cs s) ≡ length cs + size s
unfolding merge_contexts
size-merge_contexts corpus_id [] s = omega arith
size-merge_contexts corpus_id (c ∷ cs) s = omega (
  arith,
  size-merge_contexts corpus_id cs (merge_context corpus_id c s),
  size-merge_context corpus_id c s,
)

-- The passages that the providers returned.
abbrev pub returned_by : List Answered → ℕ
returned_by [] = 0
returned_by (a ∷ answers) = length (passages a.result) + returned_by answers

size-merge_answers :
    (answers : List Answered) (s : Merging)
    → size (merge_answers answers s) ≡ returned_by answers + size s
unfolding merge_answers
size-merge_answers [] s = omega arith
size-merge_answers (a ∷ answers) s = omega (
  arith,
  size-merge_answers answers (merge_contexts a.corpus.corpus_id (passages a.result) s),
  size-merge_contexts a.corpus.corpus_id (passages a.result) s,
)

returned_by-insert :
    (a : Answered) (answers : List Answered)
    → returned_by (insert by_tier a answers) ≡ returned_by (a ∷ answers)
unfolding insert
returned_by-insert a [] = refl
returned_by-insert a (b ∷ answers) = ground (arith, returned_by-insert a answers)

returned_by-sort :
    (answers : List Answered) → returned_by (sort by_tier answers) ≡ returned_by answers
unfolding sort
returned_by-sort [] = refl
returned_by-sort (a ∷ answers) =
    omega (arith, returned_by-insert a (sort by_tier answers), returned_by-sort answers)

-- Every passage that was returned is rendered or counted as merged.
pub counts :
    (answers : List Answered)
    → length (assembled answers).contexts + (assembled answers).dedup_merged ≡ returned_by answers
unfolding assembled total
counts answers = omega (
  arith,
  size-merge_answers (sort by_tier answers) (record { seen = []; contexts = []; merged = [] }),
  returned_by-sort answers,
)

-- A property of every passage that was returned is one of every passage that is rendered.
module _ (p : RetrievedContext → Bool) where
  all-merge_contexts :
      (corpus_id : String) (cs : List RetrievedContext) (s : Merging)
      → all p cs ≡ true
      → all p s.contexts ≡ true
      → all p (merge_contexts corpus_id cs s).contexts ≡ true
  unfolding merge_contexts merge_context
  all-merge_contexts corpus_id [] s h k = k
  all-merge_contexts corpus_id (c ∷ cs) s h k =
      all-merge_contexts corpus_id cs (merge_context corpus_id c s) (and-right (p c) (all p cs) h)
        (ground (arith, all-append p s.contexts c))

  abbrev pub all_passages : Answered → Bool
  all_passages a = all p (passages a.result)

  all-merge_answers :
      (answers : List Answered) (s : Merging)
      → all all_passages answers ≡ true
      → all p s.contexts ≡ true
      → all p (merge_answers answers s).contexts ≡ true
  unfolding merge_answers
  all-merge_answers [] s h k = k
  all-merge_answers (a ∷ answers) s h k =
      all-merge_answers answers (merge_contexts a.corpus.corpus_id (passages a.result) s)
        (and-right (all_passages a) (all all_passages answers) h)
        (all-merge_contexts a.corpus.corpus_id (passages a.result) s
          (and-left (all_passages a) (all all_passages answers) h) k)

  pub all-assembled :
      (answers : List Answered)
      → all all_passages answers ≡ true
      → all p (assembled answers).contexts ≡ true
  unfolding assembled
  all-assembled answers h =
      all-merge_answers (sort by_tier answers) (record { seen = []; contexts = []; merged = [] })
        (all-sort by_tier all_passages answers ∙ h) refl

-- No two passages have one text under one jurisdiction.
abbrev pub each_once : List RetrievedContext → Bool
each_once [] = true
each_once (c ∷ cs) = not (any (λ d. same_key (key_of c) (key_of d)) cs) && each_once cs

same_key_sym : (k l : Key) → same_key k l ≡ same_key l k
unfolding same_key same_jurisdiction
same_key_sym (h, none) (h', none) = ground (arith, eq_iff h h', eq_iff h' h)
same_key_sym (h, some j) (h', some j') =
    ground (arith, eq_iff h h', eq_iff h' h, eq_iff j j', eq_iff j' j)
same_key_sym (h, none) (h', some j') = ground arith
same_key_sym (h, some j) (h', none) = ground arith

each_once-append :
    (cs : List RetrievedContext) (c : RetrievedContext)
    → each_once cs ≡ true
    → any (λ d. same_key (key_of c) (key_of d)) cs ≡ false
    → each_once (cs ++ c ∷ []) ≡ true
each_once-append [] c h fresh = refl
each_once-append (d ∷ cs) c h fresh = ground (
  arith,
  each_once-append cs c,
  any-append (λ e. same_key (key_of d) (key_of e)) cs (c ∷ []),
  same_key_sym (key_of d) (key_of c),
)

-- `seen` holds the keys of the passages, each of which stands once.
record IsMerging (s : Merging) : Type 0 where
  keys : (k : Key) → any (same_key k) s.seen ≡ any (λ d. same_key k (key_of d)) s.contexts
  once : each_once s.contexts ≡ true

IsMerging-merge_context :
    (corpus_id : String) (c : RetrievedContext) (s : Merging)
    → IsMerging s
    → IsMerging (merge_context corpus_id c s)
unfolding merge_context
IsMerging-merge_context corpus_id c s h = elim (Bool-cases (any (same_key (key_of c)) s.seen)) [
  | inl known ↦ rw known (record { keys = h.keys; once = h.once })
  | inr fresh ↦ rw fresh (record {
    keys =
        λ k. ground (arith, h.keys k, any-append (λ d. same_key k (key_of d)) s.contexts (c ∷ []));
    once = each_once-append s.contexts c h.once (sym (h.keys (key_of c)) ∙ fresh);
  })
]

IsMerging-merge_contexts :
    (corpus_id : String) (cs : List RetrievedContext) (s : Merging)
    → IsMerging s
    → IsMerging (merge_contexts corpus_id cs s)
unfolding merge_contexts
IsMerging-merge_contexts corpus_id [] s h = h
IsMerging-merge_contexts corpus_id (c ∷ cs) s h =
    IsMerging-merge_contexts corpus_id cs (merge_context corpus_id c s)
      (IsMerging-merge_context corpus_id c s h)

IsMerging-merge_answers :
    (answers : List Answered) (s : Merging) → IsMerging s → IsMerging (merge_answers answers s)
unfolding merge_answers
IsMerging-merge_answers [] s h = h
IsMerging-merge_answers (a ∷ answers) s h =
    IsMerging-merge_answers answers (merge_contexts a.corpus.corpus_id (passages a.result) s)
      (IsMerging-merge_contexts a.corpus.corpus_id (passages a.result) s h)

pub once-assembled : (answers : List Answered) → each_once (assembled answers).contexts ≡ true
unfolding assembled
once-assembled answers =
    (IsMerging-merge_answers (sort by_tier answers)
      (record { seen = []; contexts = []; merged = [] })
      (record { keys = λ k. refl; once = refl })).once

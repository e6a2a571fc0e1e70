-- ===== src/Rules/Verdict.antt =====
-- gates/rules/src/rules_gate/gate.py: what an output with a verdict says.
use mathlib.Core.Path.{subst}
use mathlib.Core.Option.{none-ne-some}
use mathlib.Core.List.{Memᴰ}
use mathlib.Core.List.Memᴰ
use decision_ledger.Prelude.{
  String, Bool, true, false, Option, none, some, List, [], ◌∷◌, ◌≡◌, refl, sym, ap, ◌∙◌, ◌⊎◌, inl,
  inr, ◌==◌, eq_iff, if◌then◌else◌, Outcome, ok, raised, >>=-eq-ok, ok-injective, Bool-cases,
}
use decision_ledger.Predicate.{Subject, PredicateError, evaluate}
use decision_ledger.Gate.{GateVerdict}
use decision_ledger.Invocation.{GateRequest}
use decision_ledger.Artifacts.{Artifact}
use decision_ledger.Rules.{
  Rule, RuleSet, Formats, RulesGate, Evaluated, EvaluateError, lookup, matched_rules, applied,
  failed, escrowed, decided, selected, configured, evaluate_ruleset,
}

-- The rules that match are those whose predicates hold, and every predicate evaluates.
pub record Matches (rules matched : List Rule) (subject : Subject) : Type 0 where
  pub of_set : (rule : Rule) → Memᴰ rule matched → Memᴰ rule rules
  pub hold : (rule : Rule) → Memᴰ rule matched → evaluate rule.when subject ≡ ok true
  pub others :
      (rule : Rule) → Memᴰ rule rules → Memᴰ rule matched ⊎ (evaluate rule.when subject ≡ ok false)

Matches-[] : (subject : Subject) → Matches [] [] subject
Matches-[] subject = record {
  of_set = λ rule m. absurd (Memᴰ.not-nil m);
  hold = λ rule m. absurd (Memᴰ.not-nil m);
  others = λ rule m. absurd (Memᴰ.not-nil m);
}

Matches-cons :
    (rule : Rule) (rules found : List Rule) (subject : Subject) (holds : Bool)
    → evaluate rule.when subject ≡ ok holds
    → Matches rules found subject
    → Matches (rule ∷ rules) (if holds then rule ∷ found else found) subject
Matches-cons rule rules found subject true e h = record {
  of_set = λ r m. elim (Memᴰ.cases_cons m) [
    | inl same ↦ Memᴰ.head same
    | inr later ↦ Memᴰ.tail (h.of_set r later)
  ];
  hold = λ r m. elim (Memᴰ.cases_cons m) [ inl same ↦ rw same e | inr later ↦ h.hold r later ];
  others = λ r m. elim (Memᴰ.cases_cons m) [
    | inl same ↦ inl (Memᴰ.head same)
    | inr later ↦ elim (h.others r later) [ inl k ↦ inl (Memᴰ.tail k) | inr fails ↦ inr fails ]
  ];
}
Matches-cons rule rules found subject false e h = record {
  of_set = λ r m. Memᴰ.tail (h.of_set r m);
  hold = h.hold;
  others =
      λ r m. elim (Memᴰ.cases_cons m) [ inl same ↦ inr (rw same e) | inr later ↦ h.others r later ];
}

matched_rules-Matches :
    (rules matched : List Rule) (subject : Subject)
    → matched_rules rules subject ≡ ok matched
    → Matches rules matched subject
unfolding matched_rules
matched_rules-Matches [] matched subject h =
    subst (λ m. Matches [] m subject) (ok-injective h) (Matches-[] subject)
matched_rules-Matches (rule ∷ rules) matched subject h =
    let (holds, e, h') = >>=-eq-ok (evaluate rule.when subject) _ h in
    let (found, e', h'') = >>=-eq-ok (matched_rules rules subject) _ h' in
    subst (λ m. Matches (rule ∷ rules) m subject) (ok-injective h'')
      (Matches-cons rule rules found subject holds e (matched_rules-Matches rules found subject e'))

-- An output with a verdict: the rule set that it applies, and the rules that match.
pub record Applies (formats : Formats) (gate : RulesGate) (request : GateRequest)
    (artifacts : List Artifact) (result : Evaluated) : Type 0 where
  pub ruleset_id : String
  pub rule_set : RuleSet
  pub matched : List Rule
  pub kept : List Artifact × Option String
  pub registered : lookup ruleset_id gate.rule_sets ≡ some rule_set
  pub own : rule_set.reasoner_id ≡ request.submission.reasoner_context.reasoner_id
  pub matches : Matches rule_set.rules matched request.submission.reasoner_context.subject
  pub stored : escrowed formats gate.escrow rule_set request.decision_id artifacts ≡ ok kept
  pub returned :
      result ≡ applied formats rule_set matched request.submission.reasoner_context.subject kept

module _ (formats : Formats) (gate : RulesGate) (request : GateRequest) (artifacts : List Artifact)
    (result : Evaluated) (verdict : GateVerdict) where
  no_verdict :
      (answer : Evaluated)
      → answer.output.verdict ≡ none
      → ◌≡◌ {A = Outcome EvaluateError Evaluated} (ok answer) (ok result)
      → result.output.verdict ≡ some verdict
      → ⊥
  no_verdict answer e h v =
      none-ne-some _ (sym e ∙ (ap (λ r. r.output.verdict) (ok-injective h) ∙ v))

  decided-Applies :
      (ruleset_id : String) (rule_set : RuleSet) (o : Outcome PredicateError (List Rule))
      → lookup ruleset_id gate.rule_sets ≡ some rule_set
      → rule_set.reasoner_id ≡ request.submission.reasoner_context.reasoner_id
      → matched_rules rule_set.rules request.submission.reasoner_context.subject ≡ o
      → decided formats gate request artifacts rule_set o ≡ ok result
      → result.output.verdict ≡ some verdict
      → Applies formats gate request artifacts result
  unfolding decided failed
  decided-Applies ruleset_id rule_set (raised e) found own evaluates h v =
      absurd (no_verdict _ refl h v)
  decided-Applies ruleset_id rule_set (ok matched) found own evaluates h v =
      let (kept, stored, returns) =
        >>=-eq-ok (escrowed formats gate.escrow rule_set request.decision_id artifacts) _ h in
      record {
        ruleset_id = ruleset_id;
        rule_set = rule_set;
        matched = matched;
        kept = kept;
        registered = found;
        own = own;
        matches = matched_rules-Matches _ _ _ evaluates;
        stored = stored;
        returned = sym (ok-injective returns);
      }

  selected-Applies :
      (ruleset_id : String) (o : Option RuleSet)
      → lookup ruleset_id gate.rule_sets ≡ o
      → selected formats gate request artifacts ruleset_id o ≡ ok result
      → result.output.verdict ≡ some verdict
      → Applies formats gate request artifacts result
  unfolding selected failed
  selected-Applies ruleset_id none found h v = absurd (no_verdict _ refl h v)
  selected-Applies ruleset_id (some rule_set) found h v =
      elim (Bool-cases (rule_set.reasoner_id == request.submission.reasoner_context.reasoner_id)) [
        | inl own ↦
            decided-Applies ruleset_id rule_set _ found ((eq_iff _ _).0 own) refl (rw own at h) v
        | inr other ↦ absurd (no_verdict _ refl (rw other at h) v)
      ]

  configured-Applies :
      (o : Option String)
      → configured formats gate request artifacts o ≡ ok result
      → result.output.verdict ≡ some verdict
      → Applies formats gate request artifacts result
  unfolding configured
  configured-Applies none h v = cc
  configured-Applies (some ruleset_id) h v = selected-Applies ruleset_id _ refl h v

  pub evaluate_ruleset-Applies :
      evaluate_ruleset formats gate request artifacts ≡ ok result
      → result.output.verdict ≡ some verdict
      → Applies formats gate request artifacts result
  unfolding evaluate_ruleset
  evaluate_ruleset-Applies h v = configured-Applies (formats.read_config _) h v

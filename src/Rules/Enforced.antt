-- ===== src/Rules/Enforced.antt =====
-- gates/rules/src/rules_gate/gate.py: what the enforcement (app/enforcement/resolver.py)
-- makes of an output with a verdict.
use mathlib.Core.List.{Memᴰ}
use mathlib.Core.List.Memᴰ
use decision_ledger.Prelude.{
  ◌≤◌, String, Bool, true, false, Option, some, List, [], ◌∷◌, map, max_by, arith, ltb, ◌≡◌, refl,
  ◌⊎◌, inl, inr, if◌then◌else◌, Outcome, ok,
}
use decision_ledger.Actions.{DecisionAction, severity}
use decision_ledger.Predicate.{Subject, PredicateError, evaluate}
use decision_ledger.Gate.{Reason, GateVerdict, evidence_jurisdictions}
use decision_ledger.Registration.{ReasonerRegistration}
use decision_ledger.Invocation.{GateRequest}
use decision_ledger.Artifacts.{Artifact}
use decision_ledger.Enforcement.{most_conservative, resolve_gate_output}
use decision_ledger.Rules.{
  Rule, RuleSet, Formats, RulesGate, Evaluated, lookup, permitted, evidence_for, verdict_for, ref,
  cite, locators, digest_of, applied, evaluate_ruleset,
}
use decision_ledger.Rules.Verdict.{Matches, evaluate_ruleset-Applies}

no_jurisdictions :
    (source content_hash : String) (artifact_hash : Option String) (names : List String)
    → evidence_jurisdictions (map (cite source content_hash artifact_hash) names) ≡ []
unfolding evidence_jurisdictions cite
no_jurisdictions source content_hash artifact_hash [] = refl
no_jurisdictions source content_hash artifact_hash (n ∷ names) =
    no_jurisdictions source content_hash artifact_hash names

-- The most severe action of some matching rules is that of one of them, and none is severer.
record Severest (rules : List Rule) (action : DecisionAction) : Type 0 where
  bound : (rule : Rule) → Memᴰ rule rules → severity rule.action ≤ severity action
  reached : (rule : Rule) × Memᴰ rule rules × (action ≡ rule.action)

actions : List Rule → List DecisionAction
actions = map (λ r. r.action)

max_by-Severest :
    (rule : Rule) (rules : List Rule)
    → Severest (rule ∷ rules) (max_by severity rule.action (actions rules))
unfolding actions
max_by-Severest rule [] = record {
  bound = λ r m. rw (Memᴰ.eq_of_singleton m) (omega arith);
  reached = (rule, Memᴰ.head refl, refl);
}
max_by-Severest rule (next ∷ rules) =
    go (ltb (severity rule.action) (severity next.action)) refl (max_by-Severest next rules)
      (max_by-Severest rule rules)
  where
    go :
        (b : Bool)
        → ltb (severity rule.action) (severity next.action) ≡ b
        → Severest (next ∷ rules) (max_by severity next.action (actions rules))
        → Severest (rule ∷ rules) (max_by severity rule.action (actions rules))
        → Severest
            (rule ∷ next ∷ rules)
            (max_by severity (if b then next.action else rule.action) (actions rules))
    go true e ih _ = record {
      bound = λ r m. elim (Memᴰ.cases_cons m) [
        | inl same ↦ let below = ih.bound next (Memᴰ.head refl) in rw same (ground arith)
        | inr later ↦ ih.bound r later
      ];
      reached = (ih.reached.0, Memᴰ.tail (ih.reached.1), ih.reached.2);
    }
    go false e _ ih = record {
      bound = λ r m. elim (Memᴰ.cases_cons m) [
        | inl same ↦ ih.bound r (Memᴰ.head same)
        | inr later ↦ elim (Memᴰ.cases_cons later) [
          | inl same ↦ let below = ih.bound rule (Memᴰ.head refl) in rw same (ground arith)
          | inr rest ↦ ih.bound r (Memᴰ.tail rest)
        ]
      ];
      reached = elim (Memᴰ.cases_cons (ih.reached.1)) [
        | inl same ↦ (ih.reached.0, Memᴰ.head same, ih.reached.2)
        | inr later ↦ (ih.reached.0, Memᴰ.tail (Memᴰ.tail later), ih.reached.2)
      ];
    }

-- `action` is the most severe action of the rules that hold, the default one if none holds.
pub record Ruled (rule_set : RuleSet) (subject : Subject) (action : DecisionAction) : Type 0 where
  pub bound :
      (rule : Rule)
      → Memᴰ rule rule_set.rules
      → evaluate rule.when subject ≡ ok true
      → severity rule.action ≤ severity action
  pub reached :
      ((rule : Rule) × Memᴰ rule rule_set.rules
        × (evaluate rule.when subject ≡ ok true)
        × (action ≡ rule.action))
      ⊎ (((rule : Rule) → Memᴰ rule rule_set.rules → evaluate rule.when subject ≡ ok false)
          × (action ≡ rule_set.default_action))

true-ne-false : {o : Outcome PredicateError Bool} → o ≡ ok true → o ≡ ok false → ⊥
true-ne-false e f = cc

permitted-Ruled :
    (rule_set : RuleSet) (subject : Subject) (matched : List Rule)
    → Matches rule_set.rules matched subject
    → Ruled rule_set subject (most_conservative (permitted rule_set matched))
unfolding permitted most_conservative actions
permitted-Ruled rule_set subject [] h = record {
  bound = λ rule m holds. elim (h.others rule m) [
    | inl none_matched ↦ absurd (Memᴰ.not-nil none_matched)
    | inr fails ↦ absurd (true-ne-false holds fails)
  ];
  reached = inr (
    λ rule m. elim (h.others rule m) [
      | inl none_matched ↦ absurd (Memᴰ.not-nil none_matched)
      | inr fails ↦ fails
    ],
    refl,
  );
}
permitted-Ruled rule_set subject (first ∷ matched) h =
    let severest = max_by-Severest first matched in
    let (rule, m, e) = severest.reached in
    record {
      bound = λ rule m holds. elim (h.others rule m) [
        | inl matches ↦ severest.bound rule matches
        | inr fails ↦ absurd (true-ne-false holds fails)
      ];
      reached = inl (rule, h.of_set rule m, h.hold rule m, e);
    }

applied-enforced :
    (formats : Formats) (rule_set : RuleSet) (matched : List Rule) (subject : Subject)
    (kept : List Artifact × Option String) (registration : ReasonerRegistration)
    (failure : Option Reason)
    → (resolve_gate_output
        (some (applied formats rule_set matched subject kept).output)
        registration
        failure).decision_action
      ≡ most_conservative (permitted rule_set matched)
unfolding applied resolve_gate_output verdict_for evidence_for
applied-enforced formats rule_set matched subject (rows, artifact_hash) registration failure =
    rw
      (no_jurisdictions (ref rule_set) (digest_of formats rule_set) artifact_hash
        (locators matched))
      refl

-- Where the gate gives a verdict, its enforced action is the most severe one of the rules that hold,
-- of a rule set that is registered with the gate for the submitting reasoner, and the default action
-- of that rule set if no rule holds.
pub evaluate_ruleset-Ruled :
    (formats : Formats) (gate : RulesGate) (request : GateRequest) (artifacts : List Artifact)
    (result : Evaluated) (verdict : GateVerdict) (registration : ReasonerRegistration)
    (failure : Option Reason)
    → evaluate_ruleset formats gate request artifacts ≡ ok result
    → result.output.verdict ≡ some verdict
    → (rule_set : RuleSet) × ((ruleset_id : String) × (lookup ruleset_id gate.rule_sets
          ≡ some rule_set))
      × (rule_set.reasoner_id ≡ request.submission.reasoner_context.reasoner_id)
      × Ruled rule_set request.submission.reasoner_context.subject
          (resolve_gate_output (some result.output) registration failure).decision_action
evaluate_ruleset-Ruled formats gate request artifacts result verdict registration failure h v =
    let a = evaluate_ruleset-Applies formats gate request artifacts result verdict h v in
    let subject = request.submission.reasoner_context.subject in
    (
      a.rule_set,
      (a.ruleset_id, a.registered),
      a.own,
      rw
          (
            a.returned,
            applied-enforced formats a.rule_set a.matched subject a.kept registration failure,
          )
          (permitted-Ruled a.rule_set subject a.matched a.matches),
    )

-- ===== src/Bypass/Matching.antt =====
-- core/submission.py: the rule that a reasoner finds by `matching_bypass_rule` before it records.
use mathlib.Core.Option.{some-injective}
use decision_ledger.Prelude.{◌≡◌, refl, sym, ap, ◌∙◌, Bool, some, List, [], ◌∷◌, arith, select}
use decision_ledger.Prelude.Maximum.{peak, key-max_by}
use decision_ledger.Actions.{severity}
use decision_ledger.Registration.{BypassRule, ReasonerRegistration}
use decision_ledger.Submission.{ReasonerContext}
use decision_ledger.Bypass.{evaluate_bypass, evaluate_rules, strictest_rule, matching_bypass_rule}
use decision_ledger.Bypass.Laws.{rule-evaluate_bypass}
use decision_ledger.Decision.Exact.{justified}

module _ (context : ReasonerContext) where
  abbrev holding : BypassRule → Bool
  holding rule = (evaluate_bypass rule context).holds

  peak-select :
      (rules : List BypassRule)
      → peak (λ r. severity r.action) (select holding rules)
        ≡ justified (evaluate_rules rules context)
  peak-select [] = refl
  peak-select (r ∷ rules) = ground (
    arith,
    peak-select rules,
    ap (λ (b : BypassRule). severity b.action) (rule-evaluate_bypass r context),
  )

  strictest_of :
      (rules : List BypassRule) (r : BypassRule)
      → strictest_rule rules ≡ some r
      → severity r.action ≡ peak (λ r. severity r.action) rules
  unfolding strictest_rule
  strictest_of [] r h = cc
  strictest_of (x ∷ rules) r h =
      ap (λ (b : BypassRule). severity b.action) (sym (some-injective _ _ h))
      ∙ key-max_by (λ r. severity r.action) x rules

  -- The rule that a reasoner finds stands for the severest action that any of its registered rules
  -- justifies on the evidence.
  pub matching_bypass_rule-justified :
      (registration : ReasonerRegistration) (r : BypassRule)
      → matching_bypass_rule registration context ≡ some r
      → severity r.action ≡ justified (evaluate_rules registration.bypass_rules context)
  unfolding matching_bypass_rule
  matching_bypass_rule-justified registration r h =
      strictest_of (select holding registration.bypass_rules) r h
      ∙ peak-select registration.bypass_rules

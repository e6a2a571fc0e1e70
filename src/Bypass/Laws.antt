-- ===== src/Bypass/Laws.antt =====
-- core/submission.py: the evaluation of bypass rules.
use decision_ledger.Prelude.{String, ◌≡◌, refl, Bool, List, Outcome, ok, raised}
use decision_ledger.Predicate.{Scalar, PredicateError}
use decision_ledger.Registration.{BypassRule}
use decision_ledger.Submission.{ReasonerContext}
use decision_ledger.Bypass.{concluded, evaluate_bypass}

rule-concluded :
    (rule : BypassRule) (observed : List (String × Scalar)) (o : Outcome PredicateError Bool)
    → (concluded rule observed o).rule ≡ rule
unfolding concluded
rule-concluded rule observed (ok holds) = refl
rule-concluded rule observed (raised e) = refl

-- A check stores the rule that it evaluated.
pub rule-evaluate_bypass :
    (rule : BypassRule) (context : ReasonerContext) → (evaluate_bypass rule context).rule ≡ rule
unfolding evaluate_bypass
rule-evaluate_bypass rule context = rule-concluded rule _ _

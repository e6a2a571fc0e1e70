-- ===== src/Examples/Matches.antt =====
-- A run of the choice of a bypass rule.
use decision_ledger.Prelude.{◌≡◌, refl, some, [], ◌∷◌}
use decision_ledger.Prelude.Number.{pos}
use decision_ledger.Prelude.Text.{remove_prefix}
use decision_ledger.Actions.{severity, challenge}
use decision_ledger.Predicate.{integer, evaluate, resolve, lookup, compare_node}
use decision_ledger.Registration.{BypassRule, ReasonerRegistration}
use decision_ledger.Submission.{ReasonerContext}
use decision_ledger.Bypass.{evaluate_bypass, evaluate_rules, matching_bypass_rule}
use decision_ledger.Bypass.Matching.{matching_bypass_rule-justified}
use decision_ledger.Decision.Exact.{justified}
use decision_ledger.Examples.Data.{cards, trusted}

abbrev watched : BypassRule
watched = record trusted { rule_id = "watched"; action = challenge }

abbrev two_rules : ReasonerRegistration
two_rules = record cards { bypass_rules = trusted ∷ watched ∷ [] }

abbrev older : ReasonerContext
older = record {
  reasoner_id = "cards";
  subject = record { label_value = integer (pos 1); feature_set = ("age", integer (pos 7)) ∷ [] };
}

watched-matches : matching_bypass_rule two_rules older ≡ some watched
unfolding matching_bypass_rule evaluate_bypass evaluate resolve lookup compare_node remove_prefix
watched-matches = refl

matching_bypass_rule-justified_example :
    severity challenge ≡ justified (evaluate_rules (trusted ∷ watched ∷ []) older)
matching_bypass_rule-justified_example =
    matching_bypass_rule-justified older two_rules watched watched-matches

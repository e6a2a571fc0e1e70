-- ===== src/Enforcement.antt =====
-- core/enforcement.py and the gate level of app/enforcement/resolver.py: the tiers that turn one
-- gate's output into an enforced action. A log line is a constructor with the values that its text
-- shows; the text is left out.
pub mod Tiers
pub mod Bounds
use Prim.Native.Nat.{◌^◌}
use decision_ledger.Prelude.{
  ℕ, ◌-◌, String, Bool, true, false, ◌&&◌, ◌||◌, not, Option, none, some, List, [], ◌∷◌, ◌++◌,
  max_by, any, all, contains, ◌==◌, if◌then◌else◌,
}
use decision_ledger.Prelude.Number.{pos, Ratio, ratio_ltb}
use decision_ledger.Prelude.Text.{mentions}
use decision_ledger.Actions.{DecisionAction, allow, challenge, hold, block, severity}
use decision_ledger.Gate.{Reason, GateVerdict, GateOutput, evidence_jurisdictions}
use decision_ledger.Registration.{BypassRule, ReasonerRegistration}
use decision_ledger.Bypass.{BypassCheck}

-- The rules that an enforcement may credit.
pub data Rule : Type 0 where
  tier1_schema_failure tier2_adversarial_probe tier3_novel_entity : Rule
  tier4_low_confidence tier5_jurisdiction_conflict : Rule
  bypass_rule_not_satisfied bypass_rule_superseded : Rule

-- Where an action that enters the combinator comes from.
pub data Label : Type 0 where
  mandatory_gate : String → Label
  advisory bypass_floor : Label

pub data LogLine : Type 0 where
  schema_failed : Option Reason → LogLine
  output_present probe_skipped probe_flagged probe_clear confidence_skipped : LogLine
  confidence_low : Ratio → DecisionAction → LogLine
  confidence_enough : Ratio → LogLine
  jurisdictions_absent jurisdictions_conflict jurisdictions_clear : LogLine
  default_accepted : DecisionAction → LogLine
  rule_holds rule_not_satisfied : BypassCheck → LogLine
  superseded_by : BypassRule → DecisionAction → LogLine
  not_superseded novel_skipped novel_blocked novel_unconfigured novel_enough_history : LogLine
  novel_fired novel_outranked_by_probe novel_outranked_by_schema : LogLine
  combined : Option DecisionAction → List (Label × DecisionAction) → DecisionAction → LogLine

pub record EnforcementDecision : Type 0 where
  pub decision_action : DecisionAction
  pub enforcement_rule_applied : Option Rule
  pub override_log : List LogLine

-- The float 0.60.
abbrev pub low_confidence_threshold : Ratio
low_confidence_threshold = record { numerator = pos 5404319552844595; below = 2 ^ 53 - 1 }

abbrev pub adversarial_control : String
adversarial_control = "adversarial_probe_detected"

abbrev pub jurisdiction_conflict_control : String
jurisdiction_conflict_control = "jurisdiction_conflict"

-- `_most_conservative`
unfoldable pub most_conservative : List DecisionAction → DecisionAction
most_conservative [] = hold
most_conservative (a ∷ actions) = max_by severity a actions

-- `a & b` is not empty.
abbrev pub overlaps : List String → List String → Bool
overlaps a b = any (contains b) a

-- Two lists of names are one set.
abbrev pub same_set : List String → List String → Bool
same_set a b = all (contains b) a && all (contains a) b

-- At least two of the groups that the tags touch are different sets.
touches_other : List String → List String → List (List String) → Bool
touches_other tags group [] = false
touches_other tags group (g ∷ groups) =
    (overlaps tags g && not (same_set group g)) || touches_other tags group groups

-- `len({g for g in conflict_groups if jurisdictions & g}) >= 2`
unfoldable pub spans_two : List String → List (List String) → Bool
unfolding touches_other
spans_two tags [] = false
spans_two tags (g ∷ groups) =
    (overlaps tags g && touches_other tags g groups) || spans_two tags groups

unfoldable pub worded_conflict : Option String → Bool
worded_conflict none = false
worded_conflict (some reason) = mentions "jurisdiction" reason || mentions "conflict" reason

-- `_has_jurisdiction_conflict`
unfoldable pub has_jurisdiction_conflict : GateVerdict → List String → List (List String) → Bool
unfolding worded_conflict
has_jurisdiction_conflict verdict tags groups =
    contains verdict.required_controls jurisdiction_conflict_control
    || (verdict.escalate_to_human && worded_conflict verdict.escalation_reason)
    || spans_two tags groups

-- `_fire`
abbrev pub fire : Rule → DecisionAction → List LogLine → LogLine → EnforcementDecision
fire rule action log line = record {
  decision_action = action;
  enforcement_rule_applied = some rule;
  override_log = log ++ line ∷ [];
}

-- Tier 6: the most conservative permitted action.
accept : DecisionAction → List LogLine → EnforcementDecision
accept conservative log = record {
  decision_action = conservative;
  enforcement_rule_applied = none;
  override_log = log ++ default_accepted conservative ∷ [];
}

is_high_risk : DecisionAction → Bool
is_high_risk hold = true
is_high_risk block = true
is_high_risk _ = false

no_tags : List String → Bool
no_tags [] = true
no_tags (t ∷ tags) = false

module _ (registration : ReasonerRegistration) (output : GateOutput) (verdict : GateVerdict) where
  conservative : DecisionAction
  unfolding most_conservative
  conservative = most_conservative verdict.permitted_actions

  tags : List String
  unfolding evidence_jurisdictions
  tags = evidence_jurisdictions output.evidence

  -- Tier 5 runs only when the evidence carries jurisdictions.
  tier5 : List LogLine → EnforcementDecision
  unfolding accept no_tags conservative tags
  tier5 log =
      if no_tags tags
      then accept conservative (log ++ jurisdictions_absent ∷ [])
      else if has_jurisdiction_conflict verdict tags registration.jurisdiction_conflict_groups
      then fire tier5_jurisdiction_conflict hold log jurisdictions_conflict
      else accept conservative (log ++ jurisdictions_clear ∷ [])

  -- Tier 4 is skipped for a deterministic gate.
  tier4 : List LogLine → EnforcementDecision
  unfolding tier5 is_high_risk conservative
  tier4 log =
      if output.deterministic
      then tier5 (log ++ confidence_skipped ∷ [])
      else if ratio_ltb verdict.confidence low_confidence_threshold && is_high_risk conservative
      then fire tier4_low_confidence hold log (confidence_low verdict.confidence conservative)
      else tier5 (log ++ confidence_enough verdict.confidence ∷ [])

  -- Tier 2 is skipped for a deterministic gate.
  tier2 : List LogLine → EnforcementDecision
  unfolding tier4
  tier2 log =
      if output.deterministic
      then tier4 (log ++ probe_skipped ∷ [])
      else if contains verdict.required_controls adversarial_control
      then fire tier2_adversarial_probe block log probe_flagged
      else tier4 (log ++ probe_clear ∷ [])

-- Tier 1: no output, or an output without a verdict.
tier1_of :
    ReasonerRegistration → Option Reason → GateOutput → Option GateVerdict → EnforcementDecision
unfolding tier2
tier1_of registration failure output none =
    fire tier1_schema_failure hold [] (schema_failed failure)
tier1_of registration failure output (some verdict) =
    tier2 registration output verdict (output_present ∷ [])

unfoldable pub resolve_gate_output :
    Option GateOutput → ReasonerRegistration → Option Reason → EnforcementDecision
unfolding tier1_of
resolve_gate_output none registration failure =
    fire tier1_schema_failure hold [] (schema_failed failure)
resolve_gate_output (some output) registration failure =
    tier1_of registration failure output output.verdict

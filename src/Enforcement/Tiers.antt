-- ===== src/Enforcement/Tiers.antt =====
-- app/enforcement/resolver.py, gate level: the tiers run in order, and the first that fires decides.
use decision_ledger.Prelude.{ℕ, ◌≡◌, refl, Option, none, some, List, [], ◌∷◌, map, arith}
use decision_ledger.Actions.{DecisionAction, hold, block}
use decision_ledger.Gate.{Reason, GateVerdict, GateOutput}
use decision_ledger.Registration.{ReasonerRegistration}
use decision_ledger.Enforcement.{
  Rule, tier1_schema_failure, tier2_adversarial_probe, tier4_low_confidence,
  tier5_jurisdiction_conflict, LogLine, schema_failed, output_present, probe_skipped, probe_flagged,
  probe_clear, confidence_skipped, confidence_low, confidence_enough, jurisdictions_absent,
  jurisdictions_conflict, jurisdictions_clear, default_accepted, most_conservative, tier1_of,
  resolve_gate_output,
}

-- The tier that a line of a gate's log is about, and 0 for a line of the decision's log.
abbrev pub tier_of : LogLine → ℕ
tier_of (schema_failed _) = 1
tier_of output_present = 1
tier_of probe_skipped = 2
tier_of probe_flagged = 2
tier_of probe_clear = 2
tier_of confidence_skipped = 4
tier_of (confidence_low _ _) = 4
tier_of (confidence_enough _) = 4
tier_of jurisdictions_absent = 5
tier_of jurisdictions_conflict = 5
tier_of jurisdictions_clear = 5
tier_of (default_accepted _) = 6
tier_of _ = 0

-- The tiers that are evaluated when a rule is credited.
abbrev pub evaluated : Option Rule → List ℕ
evaluated none = 1 ∷ 2 ∷ 4 ∷ 5 ∷ 6 ∷ []
evaluated (some tier1_schema_failure) = 1 ∷ []
evaluated (some tier2_adversarial_probe) = 1 ∷ 2 ∷ []
evaluated (some tier4_low_confidence) = 1 ∷ 2 ∷ 4 ∷ []
evaluated (some tier5_jurisdiction_conflict) = 1 ∷ 2 ∷ 4 ∷ 5 ∷ []
evaluated _ = []

-- The log of a gate has one line for each tier up to the one that fired, in the order of the tiers.
pub log-resolve_gate_output :
    (output : Option GateOutput) (registration : ReasonerRegistration) (failure : Option Reason)
    → map tier_of (resolve_gate_output output registration failure).override_log
      ≡ evaluated (resolve_gate_output output registration failure).enforcement_rule_applied
unfolding resolve_gate_output
log-resolve_gate_output none registration failure = refl
log-resolve_gate_output (some output) registration failure = ground arith

-- The action that a credited rule stands for, `taken` if none is credited.
abbrev pub ruled : Option Rule → DecisionAction → DecisionAction
ruled none taken = taken
ruled (some tier2_adversarial_probe) taken = block
ruled (some _) taken = hold

-- An output with a verdict is enforced to what the credited rule stands for, and to the most
-- conservative permitted action when none is credited.
pub resolve_gate_output-ruled :
    (output : GateOutput) (verdict : GateVerdict) (registration : ReasonerRegistration)
    (failure : Option Reason)
    → output.verdict ≡ some verdict
    → (resolve_gate_output (some output) registration failure).decision_action
      ≡ ruled
          (resolve_gate_output (some output) registration failure).enforcement_rule_applied
          (most_conservative verdict.permitted_actions)
unfolding resolve_gate_output
resolve_gate_output-ruled output verdict registration failure e = rw (e, tier1_of) (ground arith)

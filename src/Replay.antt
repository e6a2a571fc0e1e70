-- ===== src/Replay.antt =====
-- app/audit/store.py, `replay_bundle`: enforcement run again on the states that a bundle stores.
pub mod Laws
use decision_ledger.Prelude.{
  String, Bool, true, false, ◌&&◌, not, Option, none, some, List, [], ◌∷◌, all, Outcome, ok, raised,
  ◌>>=◌, if◌then◌else◌,
}
use decision_ledger.Actions.{DecisionAction, same_action}
use decision_ledger.Identity.{same}
use decision_ledger.Registration.{ReasonerRegistration}
use decision_ledger.Submission.{Submission, ReasonerContext}
use decision_ledger.Bypass.{BypassCheck, evaluate_bypass}
use decision_ledger.Enforcement.{EnforcementDecision, resolve_gate_output}
use decision_ledger.Bundle.{GateStatus, GateRecord, DecisionBundle, holds_of}
use decision_ledger.Decision.{DecisionError, resolve_decision}

pub record GateReplay : Type 0 where
  pub gate_id : String
  pub status : GateStatus
  pub original_action : Option DecisionAction
  pub replayed_action : Option DecisionAction

abbrev pub same_optional : Option DecisionAction → Option DecisionAction → Bool
same_optional none none = true
same_optional (some a) (some b) = same_action a b
same_optional _ _ = false

-- `GateReplay.matches`
unfoldable pub gate_matches : GateReplay → Bool
gate_matches g = same_optional g.original_action g.replayed_action

pub record ReplayResult : Type 0 where
  pub decision_id : String
  pub original_action : DecisionAction
  pub replayed_action : DecisionAction
  pub actions_match : Bool
  pub original_bypass_rule_holds : Option Bool
  pub bypass_rule_holds : Option Bool
  pub gates : List GateReplay
  pub enforcement_decision : EnforcementDecision
  pub competing_rules_match : Bool
  pub registration_version : Option String

abbrev pub same_flag : Option Bool → Option Bool → Bool
same_flag none none = true
same_flag (some a) (some b) = same a b
same_flag _ _ = false

-- `bypass_matches`
abbrev pub bypass_matches : ReplayResult → Bool
bypass_matches r = same_flag r.original_bypass_rule_holds r.bypass_rule_holds

-- `ReplayResult.matched`
unfoldable pub matched : ReplayResult → Bool
matched r =
    r.actions_match && bypass_matches r && r.competing_rules_match && all gate_matches r.gates

-- A record with its output enforced again, unless nothing was enforced.
pub replayed_as : ReasonerRegistration → GateRecord → Option EnforcementDecision → GateRecord
replayed_as registration r none = r
replayed_as registration r (some e) = record r {
  enforcement = some (resolve_gate_output r.output registration r.reason);
}

unfoldable pub replayed_record : ReasonerRegistration → GateRecord → GateRecord
unfolding replayed_as
replayed_record registration r = replayed_as registration r r.enforcement

unfoldable pub replayed_records : ReasonerRegistration → List GateRecord → List GateRecord
replayed_records registration [] = []
replayed_records registration (r ∷ records) =
    replayed_record registration r ∷ replayed_records registration records

pub gate_replay_of : ReasonerRegistration → GateRecord → Option EnforcementDecision → GateReplay
gate_replay_of registration r none = record {
  gate_id = r.gate_id;
  status = r.status;
  original_action = none;
  replayed_action = none;
}
gate_replay_of registration r (some e) = record {
  gate_id = r.gate_id;
  status = r.status;
  original_action = some e.decision_action;
  replayed_action = some (resolve_gate_output r.output registration r.reason).decision_action;
}

unfoldable pub gate_replays : ReasonerRegistration → List GateRecord → List GateReplay
unfolding gate_replay_of
gate_replays registration [] = []
gate_replays registration (r ∷ records) =
    gate_replay_of registration r r.enforcement ∷ gate_replays registration records

unfoldable pub replayed_check : Option BypassCheck → ReasonerContext → Option BypassCheck
replayed_check none evidence = none
replayed_check (some check) evidence = some (evaluate_bypass check.rule evidence)

unfoldable pub replayed_competing : List BypassCheck → ReasonerContext → List BypassCheck
replayed_competing [] evidence = []
replayed_competing (check ∷ checks) evidence =
    evaluate_bypass check.rule evidence ∷ replayed_competing checks evidence

abbrev pub same_verdicts : List BypassCheck → List BypassCheck → Bool
same_verdicts [] [] = true
same_verdicts (a ∷ checks) (b ∷ stored) = same a.holds b.holds && same_verdicts checks stored
same_verdicts _ _ = false

module _ (version_of : ReasonerRegistration → String) where
  unfoldable pub replay_bundle :
      DecisionBundle → ReasonerRegistration → Outcome DecisionError ReplayResult
  replay_bundle b registration =
      let check = replayed_check b.bypass_check b.submission.reasoner_context in
      let competing = replayed_competing b.other_bypass_checks b.submission.reasoner_context in
      resolve_decision b.submission (replayed_records registration b.gates) registration check
        competing
      >>= λ decision. ok (record {
        decision_id = b.decision_id;
        original_action = b.decision_action;
        replayed_action = decision.decision_action;
        actions_match = same_action b.decision_action decision.decision_action;
        original_bypass_rule_holds = b.bypass_rule_holds;
        bypass_rule_holds = holds_of check;
        gates = gate_replays registration b.gates;
        enforcement_decision = decision;
        competing_rules_match = same_verdicts competing b.other_bypass_checks;
        registration_version = some (version_of registration);
      })

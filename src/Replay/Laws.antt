-- ===== src/Replay/Laws.antt =====
-- app/audit/store.py, `replay_bundle`: what replay finds in a bundle whose stored states are those
-- that enforcement gave.
use mathlib.Core.Option.{some-injective}
use decision_ledger.Prelude.{
  String, ◌≡◌, refl, sym, ap, ◌∙◌, Bool, true, ◌&&◌, ◌⊎◌, inl, inr, Option, none, some, List, [],
  ◌∷◌, ◌++◌, arith, all, ok, >>=-ok,
}
use decision_ledger.Actions.{DecisionAction, same_action}
use decision_ledger.Identity.{same}
use decision_ledger.Registration.{ReasonerRegistration, BypassRule}
use decision_ledger.Submission.{ReasonerContext}
use decision_ledger.Bypass.{BypassCheck, evaluate_bypass, evaluate_rules}
use decision_ledger.Bypass.Laws.{rule-evaluate_bypass}
use decision_ledger.Enforcement.{EnforcementDecision, resolve_gate_output}
use decision_ledger.Bundle.{GateRecord, DecisionBundle, holds_of}
use decision_ledger.Decision.{resolve_decision}
use decision_ledger.Replay.{
  gate_matches, ReplayResult, matched, replayed_as, replayed_record, replayed_records,
  gate_replay_of, gate_replays, replayed_check, replayed_competing, same_verdicts, same_flag,
  replay_bundle,
}

-- The enforcement of a record, if it has one, is that of the output it stores.
abbrev pub IsEnforced : ReasonerRegistration → GateRecord → Type 0
IsEnforced registration r =
    (r.enforcement ≡ none)
    ⊎ (r.enforcement ≡ some (resolve_gate_output r.output registration r.reason))

abbrev pub AllEnforced : ReasonerRegistration → List GateRecord → Type 0
AllEnforced registration [] = Unit {0}
AllEnforced registration (r ∷ records) =
    IsEnforced registration r × AllEnforced registration records

pub AllEnforced-append :
    (registration : ReasonerRegistration) (xs ys : List GateRecord)
    → AllEnforced registration xs
    → AllEnforced registration ys
    → AllEnforced registration (xs ++ ys)
AllEnforced-append registration [] ys hx hy = hy
AllEnforced-append registration (x ∷ xs) ys (h, hx) hy =
    (h, AllEnforced-append registration xs ys hx hy)

ap2 : {A : Type 0} {x y : A} {xs ys : List A} → x ≡ y → xs ≡ ys → (x ∷ xs) ≡ (y ∷ ys)
ap2 p q = cc

same_action_refl : (a : DecisionAction) → same_action a a ≡ true
same_action_refl a = ground arith

same_flag_refl : (o : Option Bool) → same_flag o o ≡ true
same_flag_refl o = ground arith

-- A record that is enforced is its own replay, and its gate matches.
replayed_record-enforced :
    (registration : ReasonerRegistration) (r : GateRecord) (o : Option EnforcementDecision)
    → r.enforcement ≡ o
    → IsEnforced registration r
    → (replayed_as registration r o ≡ r) × (gate_matches (gate_replay_of registration r o) ≡ true)
unfolding replayed_as gate_replay_of gate_matches
replayed_record-enforced registration r none e h = (refl, refl)
replayed_record-enforced registration r (some d) e (inl z) = cc
replayed_record-enforced registration r (some d) e (inr z) = (
  ap (λ (o : Option EnforcementDecision). record r { enforcement = o }) (sym z),
  ap (λ (x : EnforcementDecision). same_action d.decision_action x.decision_action)
        (sym (some-injective _ _ (sym e ∙ z)))
      ∙ same_action_refl d.decision_action,
)

replayed_records-enforced :
    (registration : ReasonerRegistration) (records : List GateRecord)
    → AllEnforced registration records
    → (replayed_records registration records ≡ records)
      × (all gate_matches (gate_replays registration records) ≡ true)
unfolding replayed_records replayed_record gate_replays
replayed_records-enforced registration [] hs = (refl, refl)
replayed_records-enforced registration (r ∷ records) (h, hs) =
    let here = replayed_record-enforced registration r r.enforcement refl h in
    let rest = replayed_records-enforced registration records hs in
    (ap2 here.0 rest.0, rw (here.1, rest.1) refl)

-- A check that is evaluated again is the check that is stored.
evaluate_bypass-again :
    (rule : BypassRule) (context : ReasonerContext)
    → evaluate_bypass (evaluate_bypass rule context).rule context ≡ evaluate_bypass rule context
evaluate_bypass-again rule context =
    ap (λ r. evaluate_bypass r context) (rule-evaluate_bypass rule context)

replayed_competing-evaluate_rules :
    (rules : List BypassRule) (context : ReasonerContext)
    → (replayed_competing (evaluate_rules rules context) context ≡ evaluate_rules rules context)
      × (same_verdicts (evaluate_rules rules context) (evaluate_rules rules context) ≡ true)
unfolding replayed_competing
replayed_competing-evaluate_rules [] context = (refl, refl)
replayed_competing-evaluate_rules (rule ∷ rules) context =
    let rest = replayed_competing-evaluate_rules rules context in
    (
      ap2 (evaluate_bypass-again rule context) rest.0,
      rw (rest.1) (same-refl (evaluate_bypass rule context).holds),
    )
  where
    same-refl : (b : Bool) → (same b b && true) ≡ true
    same-refl b = ground arith

-- The check of the cited rule and those of the other rules, as a decision makes them.
pub data ChecksOf (context : ReasonerContext) : Option BypassCheck → List BypassCheck → Type 0 where
  gated : ChecksOf context none []
  recorded :
      (rule : BypassRule) (others : List BypassRule)
      → ChecksOf context (some (evaluate_bypass rule context)) (evaluate_rules others context)

replayed_checks :
    (context : ReasonerContext) (check : Option BypassCheck) (competing : List BypassCheck)
    → ChecksOf context check competing
    → (replayed_check check context ≡ check)
      × (replayed_competing competing context ≡ competing)
      × (same_verdicts competing competing ≡ true)
unfolding replayed_check replayed_competing
replayed_checks context none [] gated = (refl, refl, refl)
replayed_checks context _ _ (recorded rule others) = (
  ap some (evaluate_bypass-again rule context),
  (replayed_competing-evaluate_rules others context).0,
  (replayed_competing-evaluate_rules others context).1,
)

module _ (version_of : ReasonerRegistration → String) (registration : ReasonerRegistration)
    (b : DecisionBundle) (d : EnforcementDecision) where
  -- A bundle whose action, checks and enforcements are those that the code computes from the rest
  -- of it replays to its own action, and the replay matches.
  pub replay_bundle-matched :
      AllEnforced registration b.gates
      → ChecksOf b.submission.reasoner_context b.bypass_check b.other_bypass_checks
      → b.bypass_rule_holds ≡ holds_of b.bypass_check
      → b.decision_action ≡ d.decision_action
      → resolve_decision b.submission b.gates registration b.bypass_check b.other_bypass_checks
        ≡ ok d
      → (result : ReplayResult) × (replay_bundle version_of b registration ≡ ok result)
        × (matched result ≡ true)
        × (result.replayed_action ≡ b.decision_action)
  unfolding replay_bundle matched
  replay_bundle-matched enforced checks holds action decided =
      let (c, k, v) = replayed_checks b.submission.reasoner_context _ _ checks in
      let (g, m) = replayed_records-enforced registration b.gates enforced in
      let again : resolve_decision b.submission (replayed_records registration b.gates) registration
            (replayed_check b.bypass_check b.submission.reasoner_context)
            (replayed_competing b.other_bypass_checks b.submission.reasoner_context)
          ≡ ok d =
        rw (g, c, k) decided in
      (
        _,
        >>=-ok _ _ again,
        rw (action, m, k, v, holds, c)
            (rw (same_action_refl d.decision_action, same_flag_refl (holds_of b.bypass_check))
              refl),
        sym action,
      )

-- ===== src/Submit/Replays.antt =====
-- app/submit.py and app/audit/store.py: a decision and its replay.
use mathlib.Core.Path.{subst}
use decision_ledger.Prelude.{◌≡◌, refl, sym, ◌∙◌, true, Option, none, some, ok, ok-injective}
use decision_ledger.Registration.{BypassRule, ReasonerRegistration}
use decision_ledger.Registry.{get}
use decision_ledger.Submission.{Submission, ReasonerContext}
use decision_ledger.Bypass.{evaluate_competing_rules}
use decision_ledger.Bundle.{DecisionBundle}
use decision_ledger.Replay.{ReplayResult, matched, replay_bundle}
use decision_ledger.Replay.Laws.{ChecksOf, gated, recorded, replay_bundle-matched}
use decision_ledger.Submit.{External, Deployment, Call, check_of, competing_of, decide}
use decision_ledger.Submit.Records.{gate_records-AllEnforced}
use decision_ledger.Submit.Decides.{Decided, decide-Decided, bundle_of}

checks :
    (registration : ReasonerRegistration) (rule : Option BypassRule) (context : ReasonerContext)
    → ChecksOf context (check_of rule context) (competing_of registration rule context)
unfolding check_of competing_of evaluate_competing_rules
checks registration none context = gated
checks registration (some rule) context = recorded rule _

module _ (ext : External) (deployment : Deployment) (s : Submission) (call : Call) where
  -- That a bundle replays under a registration to its own action, in every part.
  abbrev pub Replays : ReasonerRegistration → DecisionBundle → Type 0
  Replays registration b =
      (result : ReplayResult) × (replay_bundle ext.version_of b registration ≡ ok result)
      × (matched result ≡ true)
      × (result.replayed_action ≡ b.decision_action)

  Decided-Replays :
      (b : DecisionBundle) (made : Decided ext deployment s call b) → Replays made.registration b
  unfolding bundle_of
  Decided-Replays b made = subst (Replays made.registration) made.bundle (
      replay_bundle-matched ext.version_of made.registration
        (bundle_of ext deployment s call made.registration made.rule made.decision) made.decision
        (gate_records-AllEnforced ext.storable deployment.gates _ made.registration s.mode _)
        (checks made.registration made.rule s.reasoner_context) refl refl made.resolved)

  -- A decision that was returned replays: enforcement run again on its bundle, under the
  -- registration it was made with, gives its action and reproduces every gate and every check.
  pub decide-replay :
      (b : DecisionBundle) (registration : ReasonerRegistration)
      → decide ext deployment s call ≡ ok b
      → get deployment.registry s.reasoner_id ≡ ok registration
      → Replays registration b
  decide-replay b registration h served =
      let made = decide-Decided ext deployment s call b h in
      subst (λ g. Replays g b) (ok-injective (sym made.served ∙ served)) (Decided-Replays b made)

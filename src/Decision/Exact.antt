-- ===== src/Decision/Exact.antt =====
-- app/enforcement/resolver.py, decision level: the final action of a decision, by its severity.
use decision_ledger.Prelude.{
  ℕ, max, ◌≡◌, refl, sym, ap, ◌∙◌, ◌⊎◌, inl, inr, Bool, true, false, Option, none, some, List, [],
  ◌∷◌, arith, ok, ok-injective, if◌then◌else◌,
}
use decision_ledger.Prelude.Maximum.{peak, key-max_by}
use decision_ledger.Actions.{severity}
use decision_ledger.Actions.Order.{worst}
use decision_ledger.Registration.{ReasonerRegistration, BypassRule}
use decision_ledger.Submission.{Submission, record_mode}
use decision_ledger.Bypass.{BypassCheck}
use decision_ledger.Enforcement.{EnforcementDecision}
use decision_ledger.Bundle.{GateRecord, enforced_action}
use decision_ledger.Decision.{
  mandatory_terms, advisory_decisions, actions_of, Contribution, contribution, recorded,
  bypass_rules, floors, stricter_than, strictest, resolve_decision,
}
use decision_ledger.Decision.Terms.{rank, worst_term, resolve_decision-Made}

-- The severity of what the mandatory gates were enforced to, 0 if there is none.
abbrev pub mandatory_worst : List GateRecord → ℕ
mandatory_worst = peak (λ r. if r.mandatory then rank (enforced_action r) else 0)

-- The same of the advisory gates.
abbrev pub advisory_worst : List GateRecord → ℕ
advisory_worst = peak (λ r. if r.mandatory then 0 else rank (enforced_action r))

-- The severest action that a holding rule of the list justifies, 0 if none holds.
abbrev pub justified : List BypassCheck → ℕ
justified = peak (λ c. if c.holds then severity c.rule.action else 0)

pub worst-mandatory_terms :
    (records : List GateRecord) → worst_term (mandatory_terms records) ≡ mandatory_worst records
unfolding mandatory_terms
worst-mandatory_terms [] = refl
worst-mandatory_terms (r ∷ records) = ground (arith, worst-mandatory_terms records)

pub worst-advisory_decisions :
    (records : List GateRecord)
    → worst (actions_of (advisory_decisions records)) ≡ advisory_worst records
unfolding advisory_decisions
worst-advisory_decisions [] = refl
worst-advisory_decisions (r ∷ records) = ground (arith, worst-advisory_decisions records)

-- Of the other rules that hold, only those stricter than the cited one matter beside it.
peak-stricter_than :
    (cited : BypassRule) (competing : List BypassCheck)
    → max
        (severity cited.action)
        (peak (λ c. severity c.rule.action) (stricter_than cited competing))
      ≡ max (severity cited.action) (justified competing)
unfolding stricter_than
peak-stricter_than cited [] = refl
peak-stricter_than cited (c ∷ competing) = ground (arith, peak-stricter_than cited competing)

strictest-peak :
    (checks : List BypassCheck)
    → (strictest checks ≡ none) × (peak (λ c. severity c.rule.action) checks ≡ 0)
      ⊎ ((c : BypassCheck) × (strictest checks ≡ some c)
          × (severity c.rule.action ≡ peak (λ c. severity c.rule.action) checks))
unfolding strictest
strictest-peak [] = inl (refl, refl)
strictest-peak (c ∷ checks) = inr (_, refl, key-max_by (λ c. severity c.rule.action) c checks)

-- The floors of a record.
worst-floors :
    (cited : BypassCheck) (competing : List BypassCheck) (o : Option BypassCheck) (holds : Bool)
    → worst_term (floors cited competing o holds).terms
      ≡ max (if holds then 0 else 2) (elim o [ none ↦ 0 | some c ↦ severity c.rule.action ])
unfolding floors
worst-floors cited competing none true = refl
worst-floors cited competing none false = refl
worst-floors cited competing (some c) true = omega arith
worst-floors cited competing (some c) false = omega arith

worst-bypass_rules :
    (cited : BypassCheck) (competing : List BypassCheck)
    → max (severity cited.rule.action) (worst_term (bypass_rules cited competing).terms)
      ≡ max (severity cited.rule.action) (max (if cited.holds then 0 else 2) (justified competing))
unfolding bypass_rules
worst-bypass_rules cited competing = elim (strictest-peak (stricter_than cited.rule competing)) [
  | inl (e, z) ↦ rw e (
      omega (
        arith,
        worst-floors cited competing none cited.holds,
        peak-stricter_than cited.rule competing,
      ))
  | inr (c, e, z) ↦ rw e (
      omega (
        arith,
        worst-floors cited competing (some c) cited.holds,
        peak-stricter_than cited.rule competing,
      ))
]

module _ (s : Submission) (records : List GateRecord) (registration : ReasonerRegistration)
    (competing : List BypassCheck) {d : EnforcementDecision} where
  -- A recorded decision that proposes the cited rule's action ends in the severest of that action,
  -- what the mandatory gates were enforced to, `hold` if the cited rule does not hold, and the
  -- actions of the other registered rules that hold.
  pub resolve_decision-recorded :
      (cited : BypassCheck)
      → s.mode ≡ record_mode
      → s.proposed_action ≡ some cited.rule.action
      → resolve_decision s records registration (some cited) competing ≡ ok d
      → severity d.decision_action
        ≡ max (severity cited.rule.action) (
            max
              (mandatory_worst records)
              (max (if cited.holds then 0 else 2) (justified competing)))
  unfolding contribution recorded
  resolve_decision-recorded cited mode proposes decided =
      let parts = resolve_decision-Made s records registration (some cited) competing d decided in
      let terms : parts.side.terms ≡ (bypass_rules cited competing).terms =
        ap (λ (c : Contribution). c.terms)
          (ok-injective (
            sym parts.from
            ∙ ap
                (λ m.
                  contribution m s (mandatory_terms records) (advisory_decisions records)
                    registration (some cited) competing)
                mode)) in
      omega (
        arith,
        parts.action,
        ap rank proposes,
        ap worst_term terms,
        worst-mandatory_terms records,
        worst-bypass_rules cited competing,
      )

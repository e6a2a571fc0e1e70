-- ===== src/PolicyRag/Held.antt =====
-- gates/policy_rag/src/policy_rag_gate/gate.py, `_held`, and what enforcement
-- (app/enforcement/resolver.py) makes of a verdict that is held.
use decision_ledger.Prelude.{
  ◌≡◌, refl, sym, ap, ◌∙◌, ◌≤◌, max, ℕ, true, false, ◌||◌, Option, none, some, List, [], ◌∷◌, leb,
  contains, arith, Bool-cases, inl, inr, String,
}
use decision_ledger.Prelude.Maximum.{peak, key-max_by}
use decision_ledger.Prelude.Text.{mentions}
use decision_ledger.Actions.{DecisionAction, severity}
use decision_ledger.Gate.{GateVerdict, GateOutput, Reason}
use decision_ledger.Registration.{ReasonerRegistration}
use decision_ledger.Enforcement.{resolve_gate_output}
use decision_ledger.Enforcement.Bounds.{resolve_gate_output-never_relaxes}
use decision_ledger.Enforcement.{
  most_conservative, has_jurisdiction_conflict, worded_conflict, spans_two,
  jurisdiction_conflict_control,
}
use decision_ledger.PolicyRag.{
  TieredReport, ProtocolHold, disagree_reason, gap_reason, at_least_hold, or_hold, held_with,
  held_verdict,
}

-- The severity that a list of permitted actions stands for.
abbrev floor : List DecisionAction → ℕ
floor actions = severity (most_conservative actions)

floor-cons :
    (a : DecisionAction) (actions : List DecisionAction)
    → floor (a ∷ actions) ≡ peak severity (a ∷ actions)
unfolding most_conservative
floor-cons a actions = key-max_by severity a actions

peak-at_least_hold :
    (actions : List DecisionAction)
    → max 2 (peak severity (at_least_hold actions)) ≡ max 2 (peak severity actions)
unfolding at_least_hold
peak-at_least_hold [] = refl
peak-at_least_hold (a ∷ actions) = ground (arith, peak-at_least_hold actions)

floor-or_hold :
    (actions : List DecisionAction)
    → floor (or_hold (at_least_hold actions)) ≡ max 2 (peak severity actions)
unfolding at_least_hold or_hold most_conservative
floor-or_hold [] = refl
floor-or_hold (a ∷ actions) = elim (Bool-cases (leb 2 (severity a))) [
  | inl strict ↦
      rw strict
        (key-max_by severity a (at_least_hold actions) ∙ ground (arith, peak-at_least_hold actions))
  | inr mild ↦ rw mild (floor-or_hold actions ∙ ground arith)
]

floor-held :
    (actions : List DecisionAction)
    → floor (or_hold (at_least_hold actions)) ≡ max 2 (floor actions)
unfolding most_conservative
floor-held [] = floor-or_hold []
floor-held (a ∷ actions) = floor-or_hold (a ∷ actions) ∙ ap (max 2) (sym (floor-cons a actions))

-- The texts of the two holds name neither a conflict nor a jurisdiction.
unworded :
    (worded_conflict (some disagree_reason) ≡ false) × (worded_conflict (some gap_reason) ≡ false)
unfolding worded_conflict mentions
unworded = (refl, refl)

-- What a hold makes of the verdict that the model returned.
pub record IsHeld (universal held : GateVerdict) : Type 0 where
  -- It stands for at least `hold`, and is never relaxed.
  pub floors :
      severity (most_conservative held.permitted_actions)
      ≡ max 2 (severity (most_conservative universal.permitted_actions))
  pub escalates : held.escalate_to_human ≡ true
  -- Its text is not read as a jurisdiction conflict: only a control or the evidence can say so.
  pub unnamed :
      (tags : List String) (groups : List (List String))
      → has_jurisdiction_conflict held tags groups ≡ (
          contains universal.required_controls jurisdiction_conflict_control
          || spans_two tags groups)

held_with-IsHeld :
    (universal : GateVerdict) (reason : String)
    → worded_conflict (some reason) ≡ false
    → IsHeld universal (held_with universal reason)
unfolding held_with has_jurisdiction_conflict
held_with-IsHeld universal reason e = record {
  floors = floor-held universal.permitted_actions;
  escalates = refl;
  unnamed = λ tags groups. rw e (ground arith);
}

held_verdict-IsHeld :
    (report : TieredReport) (h : ProtocolHold)
    → (held_verdict report).1 ≡ some h
    → IsHeld report.universal (held_verdict report).0
unfolding held_verdict
held_verdict-IsHeld report h e = elim (Bool-cases report.conflict_detected) [
  | inl disagrees ↦ rw disagrees (held_with-IsHeld report.universal disagree_reason unworded.0)
  | inr agrees ↦ elim (Bool-cases report.evidence_sufficient) [
    | inl enough ↦ absurd (some-ne-none (rw (agrees, enough) at e))
    | inr gap ↦ rw (agrees, gap) (held_with-IsHeld report.universal gap_reason unworded.1)
  ]
]
  where
    some-ne-none : none ≡ some h → ⊥
    some-ne-none f = cc

-- A verdict that is held keeps its severity and gets at least that of hold, is escalated, is not
-- taken for a jurisdiction conflict for its text, and the gate is enforced to at least hold.
pub held_verdict-enforced :
    (report : TieredReport) (h : ProtocolHold) (output : GateOutput)
    (registration : ReasonerRegistration) (failure : Option Reason)
    → (held_verdict report).1 ≡ some h
    → output.verdict ≡ some (held_verdict report).0
    → IsHeld report.universal (held_verdict report).0
      × (2 ≤ severity (resolve_gate_output (some output) registration failure).decision_action)
held_verdict-enforced report h output registration failure e v =
    let is_held = held_verdict-IsHeld report h e in
    (
      is_held,
      omega (
        arith,
        is_held.floors,
        resolve_gate_output-never_relaxes output ((held_verdict report).0) registration failure v,
      ),
    )

-- ===== src/Actions/Combinator.antt =====
-- core/gate/combinator.py: what `most_restrictive` promises.
use mathlib.Core.List.{Mem, Perm, not-mem-nil}
use mathlib.Core.List.Perm
use native.Mathlib.Nat.{le_antisymm}
use decision_ledger.Prelude.{
  ◌≤◌, ◌≡◌, refl, sym, ◌≢◌, ◌↔◌, max, max_by, Option, none, some, List, [], ◌∷◌, arith,
}
use decision_ledger.Prelude.Maximum.{key-max_by, peak-perm, key-le-peak, peak-le}
use decision_ledger.Actions.{DecisionAction, severity, candidates, most_restrictive}
use decision_ledger.Actions.Order.{
  severity-most_severe, most_severe-eq, mem-most_severe, most_severe-eq-some,
}

-- The combinator returns `m` exactly when `m` is one of the actions that it was given and none of
-- them is severer than `m`.
pub most_restrictive-eq-some_iff :
    (proposed : Option DecisionAction) (enforced : List DecisionAction) (m : DecisionAction)
    → (most_restrictive proposed enforced ≡ some m) ↔ (
        Mem m (candidates proposed enforced)
        × ((a : DecisionAction) → Mem a (candidates proposed enforced) → severity a ≤ severity m))
unfolding most_restrictive
most_restrictive-eq-some_iff proposed enforced m = (
  λ e. (
    mem-most_severe actions e,
    λ a listed. rw (severity-most_severe actions e) (key-le-peak severity actions listed),
  ),
  λ (listed, bound).
      most_severe-eq-some actions m (nonempty listed)
        (le_antisymm (key-le-peak severity actions listed) (peak-le severity actions bound)),
)
  where
    actions : List DecisionAction
    actions = candidates proposed enforced

    nonempty : Mem m actions → actions ≢ []
    nonempty listed e = not-mem-nil (rw e at listed)

-- The order of the enforced actions does not matter.
pub most_restrictive-perm :
    (proposed : Option DecisionAction) {xs ys : List DecisionAction}
    → Perm xs ys
    → most_restrictive proposed xs ≡ most_restrictive proposed ys
unfolding most_restrictive
most_restrictive-perm none {xs} {ys} p =
    most_severe-eq xs ys (λ e. sym (Perm.nil-eq (rw e at p))) (λ e. Perm.eq-nil (rw e at p))
      (peak-perm severity p)
most_restrictive-perm (some a) {xs} {ys} p =
    most_severe-eq (a ∷ xs) (a ∷ ys) (λ e. cc) (λ e. cc) (peak-perm severity (Perm.cons a p))

-- The call raises exactly when there is neither a proposal nor an enforced action.
pub most_restrictive-eq-none_iff :
    (proposed : Option DecisionAction) (enforced : List DecisionAction)
    → (most_restrictive proposed enforced ≡ none) ↔ ((proposed ≡ none) × (enforced ≡ []))
unfolding most_restrictive
most_restrictive-eq-none_iff none [] = (λ _. (refl, refl), λ _. refl)
most_restrictive-eq-none_iff none (a ∷ enforced) = (λ e. cc, λ h. cc (h.1))
most_restrictive-eq-none_iff (some a) enforced = (λ e. cc, λ h. cc (h.0))

-- One more enforced action never lowers the result, and `block` stays `block`.
pub most_restrictive-cons :
    (proposed : Option DecisionAction) (enforced : List DecisionAction) (a : DecisionAction)
    {m : DecisionAction}
    → most_restrictive proposed enforced ≡ some m
    → (n : DecisionAction) × (most_restrictive proposed (a ∷ enforced) ≡ some n)
      × (severity n ≡ max (severity a) (severity m))
unfolding most_restrictive
most_restrictive-cons none enforced a h = (
  max_by severity a enforced,
  refl,
  rw (severity-most_severe enforced h) (key-max_by severity a enforced),
)
most_restrictive-cons (some p) enforced a h = (
  max_by severity p (a ∷ enforced),
  refl,
  omega (arith, severity-most_severe (p ∷ enforced) h, key-max_by severity p (a ∷ enforced)),
)

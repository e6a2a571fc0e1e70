-- ===== src/Actions/Order.antt =====
-- core/gate/combinator.py: `most_restrictive` is the maximum over the severity order.
use mathlib.Core.List.{Mem}
use decision_ledger.Prelude.{
  ℕ, ◌≤◌, ◌≡◌, refl, sym, ap, ◌∙◌, ◌≢◌, none, some, List, [], ◌∷◌, arith, max_by,
}
use decision_ledger.Prelude.Maximum.{peak, key-max_by, mem-max_by}
use decision_ledger.Actions.{DecisionAction, severity, most_severe}

pub DecisionAction-discrete : Discrete DecisionAction
DecisionAction-discrete = hlevel

pub severity-injective : (a b : DecisionAction) → severity a ≡ severity b → a ≡ b
severity-injective a b h = ground arith

-- The severest action that there is.
pub severity-le : (a : DecisionAction) → severity a ≤ 3
severity-le a = ground arith

-- The severity of a list of actions.
abbrev pub worst : List DecisionAction → ℕ
worst = peak severity

pub severity-most_severe :
    (actions : List DecisionAction) {m : DecisionAction}
    → most_severe actions ≡ some m
    → severity m ≡ worst actions
severity-most_severe [] h = cc
severity-most_severe (a ∷ actions) h = rw (some_eq h) (key-max_by severity a actions)
  where
    some_eq : {x y : DecisionAction} → some x ≡ some y → y ≡ x
    some_eq e = cc

pub most_severe-ne-none :
    (actions : List DecisionAction) → actions ≢ [] → most_severe actions ≢ none
most_severe-ne-none [] h e = h refl
most_severe-ne-none (a ∷ actions) h e = cc

-- Two lists of one severity and one emptiness have one most severe action.
pub most_severe-eq :
    (xs ys : List DecisionAction)
    → (xs ≡ [] → ys ≡ [])
    → (ys ≡ [] → xs ≡ [])
    → worst xs ≡ worst ys
    → most_severe xs ≡ most_severe ys
most_severe-eq [] [] f g h = refl
most_severe-eq [] (y ∷ ys) f g h = cc (f refl)
most_severe-eq (x ∷ xs) [] f g h = cc (g refl)
most_severe-eq (x ∷ xs) (y ∷ ys) f g h = ap some (
    severity-injective (max_by severity x xs) (max_by severity y ys)
      (key-max_by severity x xs ∙ (h ∙ sym (key-max_by severity y ys))))

pub mem-most_severe :
    (actions : List DecisionAction) {m : DecisionAction}
    → most_severe actions ≡ some m
    → Mem m actions
mem-most_severe [] h = cc
mem-most_severe (a ∷ actions) {m} h = rw (← some_eq h) (mem-max_by severity a actions)
  where
    some_eq : {x y : DecisionAction} → some x ≡ some y → x ≡ y
    some_eq e = cc

-- What follows `severity m ≡ worst actions`, for an action of the list.
pub most_severe-eq-some :
    (actions : List DecisionAction) (m : DecisionAction)
    → actions ≢ []
    → severity m ≡ worst actions
    → most_severe actions ≡ some m
most_severe-eq-some [] m h e = absurd (h refl)
most_severe-eq-some (a ∷ actions) m h e =
    ap some
      (severity-injective (max_by severity a actions) m (key-max_by severity a actions ∙ sym e))

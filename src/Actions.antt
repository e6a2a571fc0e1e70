-- ===== src/Actions.antt =====
-- core/actions.py and core/gate/combinator.py: the four actions, their ranking, and the
-- combinator that takes the most restrictive of a proposal and the enforced actions.
pub mod Order
pub mod Combinator
use decision_ledger.Prelude.{ℕ, Bool, true, false, Option, none, some, List, [], ◌∷◌, max_by}

pub data DecisionAction : Type 0 where
  allow challenge hold block : DecisionAction

abbrev pub severity_order : List DecisionAction
severity_order = allow ∷ challenge ∷ hold ∷ block ∷ []

-- The rank of an action in `severity_order`.
abbrev pub severity : DecisionAction → ℕ
severity allow = 0
severity challenge = 1
severity hold = 2
severity block = 3

abbrev pub same_action : DecisionAction → DecisionAction → Bool
same_action allow allow = true
same_action challenge challenge = true
same_action hold hold = true
same_action block block = true
same_action _ _ = false

-- `[*([proposed] if proposed is not None else []), *enforced]`
abbrev pub candidates : Option DecisionAction → List DecisionAction → List DecisionAction
candidates none enforced = enforced
candidates (some proposed) enforced = proposed ∷ enforced

-- `max(actions, key=severity)`, `none` when there is nothing to take it of.
abbrev pub most_severe : List DecisionAction → Option DecisionAction
most_severe [] = none
most_severe (a ∷ actions) = some (max_by severity a actions)

-- `none` is the `ValueError` of a call with nothing to combine.
unfoldable pub most_restrictive :
    Option DecisionAction → List DecisionAction → Option DecisionAction
most_restrictive proposed enforced = most_severe (candidates proposed enforced)

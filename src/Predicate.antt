-- ===== src/Predicate.antt =====
-- core/gate/predicate.py: the closed predicate language over a reasoner's evidence.
-- A `float` is the exact fraction that it stands for (`Number.Ratio`): the models refuse NaN and
-- infinity. `PredicateError` keeps the parts of its message.
pub mod Valid
pub mod Reads
pub mod Errors
use decision_ledger.Prelude.{
  ℕ, suc, String, Bool, true, false, not, ◌&&◌, ◌||◌, Option, none, some, List, [], ◌∷◌, ◌++◌, any,
  is_some, ◌==◌, eqb, if◌then◌else◌, Outcome, ok, raised, ◌>>=◌,
}
use decision_ledger.Prelude.Number.{ℤ, pos, Ratio, of_int, ratio_ltb, ratio_leb, ratio_eqb}
use decision_ledger.Prelude.Text.{after_prefix, remove_prefix}

pub data Scalar : Type 0 where
  boolean : Bool → Scalar
  integer : ℤ → Scalar
  float : Ratio → Scalar
  string : String → Scalar

pub data CompareOp : Type 0 where
  eq ne lt le gt ge is_in not_in : CompareOp

pub data Operand : Type 0 where
  scalar : Scalar → Operand
  items : List Scalar → Operand

pub record Compare : Type 0 where
  pub field : String
  pub op : CompareOp
  pub value : Operand

mutual
  pub data Predicate : Type 0 where
    compare : Compare → Predicate
    all_of : Predicates → Predicate
    any_of : Predicates → Predicate
    negation : Predicate → Predicate

  pub data Predicates : Type 0 where
    nil : Predicates
    cons : Predicate → Predicates → Predicates

-- `PredicateSubject`: the prediction and the feature snapshot.
pub record Subject : Type 0 where
  pub label_value : Scalar
  pub feature_set : List (String × Scalar)

-- `type_error` is Python's own `TypeError`, for an ordering constant that the validator refuses.
pub data PredicateError : Type 0 where
  missing_feature : String → PredicateError
  needs_number : String → Scalar → CompareOp → PredicateError
  type_error : PredicateError

abbrev pub label_field : String
label_field = "label_value"

abbrev pub feature_prefix : String
feature_prefix = "feature_set."

-- A Python number; booleans are not numbers here (`_is_number`).
abbrev pub number_of : Scalar → Option Ratio
number_of (integer z) = some (of_int z)
number_of (float r) = some r
number_of _ = none

abbrev pub is_number : Scalar → Bool
is_number s = is_some (number_of s)

-- `mapping[key]`, with `none` for a `KeyError`.
unfoldable pub lookup : String → List (String × Scalar) → Option Scalar
lookup key [] = none
lookup key ((name, value) ∷ rest) = if name == key then some value else lookup key rest

found_or_missing : String → Option Scalar → Outcome PredicateError Scalar
found_or_missing key none = raised (missing_feature key)
found_or_missing key (some value) = ok value

-- `resolve_field`
unfoldable pub resolve : String → Subject → Outcome PredicateError Scalar
unfolding found_or_missing
resolve field subject =
    if field == label_field
    then ok subject.label_value
    else let key = remove_prefix feature_prefix field in
      found_or_missing key (lookup key subject.feature_set)

same_bool : Bool → Bool → Bool
same_bool true b = b
same_bool false b = not b

-- `_equal`: booleans, numbers and strings are apart.
unfoldable pub equal : Scalar → Scalar → Bool
unfolding same_bool
equal (boolean a) (boolean b) = same_bool a b
equal (integer a) (integer b) = ratio_eqb (of_int a) (of_int b)
equal (integer a) (float b) = ratio_eqb (of_int a) b
equal (float a) (integer b) = ratio_eqb a (of_int b)
equal (float a) (float b) = ratio_eqb a b
equal (string a) (string b) = a == b
equal _ _ = false

-- What Python orders: a boolean counts as 0 or 1, a string raises `TypeError`.
order_value : Scalar → Option Ratio
order_value (boolean true) = some (of_int (pos 1))
order_value (boolean false) = some (of_int (pos 0))
order_value s = number_of s

-- The last tests of `_compare`: what is none of `lt`, `le` and `gt` is tested as `ge`.
ordered : CompareOp → Ratio → Ratio → Bool
ordered lt left right = ratio_ltb left right
ordered le left right = ratio_leb left right
ordered gt left right = ratio_ltb right left
ordered _ left right = ratio_leb right left

order_against : CompareOp → Ratio → Option Ratio → Outcome PredicateError Bool
unfolding ordered
order_against op left none = raised type_error
order_against op left (some right) = ok (ordered op left right)

order_test : String → CompareOp → Scalar → Scalar → Option Ratio → Outcome PredicateError Bool
unfolding order_against order_value
order_test field op actual expected none = raised (needs_number field actual op)
order_test field op actual expected (some left) = order_against op left (order_value expected)

compare_scalar : String → CompareOp → Scalar → Scalar → Outcome PredicateError Bool
unfolding order_test
compare_scalar field eq actual expected = ok (equal actual expected)
compare_scalar field ne actual expected = ok (not (equal actual expected))
compare_scalar field op actual expected = order_test field op actual expected (number_of actual)

membership : CompareOp → Bool → Bool
membership is_in found = found
membership _ found = not found

compare_operand : String → CompareOp → Operand → Scalar → Outcome PredicateError Bool
unfolding compare_scalar membership
compare_operand field op (items expected) actual = ok (membership op (any (equal actual) expected))
compare_operand field op (scalar expected) actual = compare_scalar field op actual expected

-- `_compare`
unfoldable pub compare_node : Compare → Scalar → Outcome PredicateError Bool
unfolding compare_operand
compare_node node actual = compare_operand node.field node.op node.value actual

-- `all` and `any` stop at the first child that decides them.
unfoldable mutual
  pub evaluate : Predicate → Subject → Outcome PredicateError Bool
  evaluate (compare node) s = resolve node.field s >>= compare_node node
  evaluate (all_of ps) s = evaluate_all ps s
  evaluate (any_of ps) s = evaluate_any ps s
  evaluate (negation p) s = evaluate p s >>= λ b. ok (not b)

  pub evaluate_all : Predicates → Subject → Outcome PredicateError Bool
  evaluate_all nil s = ok true
  evaluate_all (cons p ps) s =
      let rest = evaluate_all ps s in evaluate p s >>= λ b. if b then rest else ok false

  pub evaluate_any : Predicates → Subject → Outcome PredicateError Bool
  evaluate_any nil s = ok false
  evaluate_any (cons p ps) s =
      let rest = evaluate_any ps s in evaluate p s >>= λ b. if b then ok true else rest

-- A set of strings is a list of its elements, which may repeat.
unfoldable mutual
  pub referenced_fields : Predicate → List String
  referenced_fields (compare node) = node.field ∷ []
  referenced_fields (all_of ps) = referenced_by ps
  referenced_fields (any_of ps) = referenced_by ps
  referenced_fields (negation p) = referenced_fields p

  pub referenced_by : Predicates → List String
  referenced_by nil = []
  referenced_by (cons p ps) = referenced_fields p ++ referenced_by ps

-- ===== src/Predicate/Errors.antt =====
-- core/gate/predicate.py: when a valid predicate cannot be evaluated.
use text.Mathlib.TextPositions.{eq_refl}
use decision_ledger.Prelude.{
  String, ◌≡◌, refl, ap, ◌∙◌, raised-injective, and-left, and-right, ◌++◌, not, Bool, true, false,
  List, [], ◌∷◌, arith, contains, if◌then◌else◌, Outcome, ok, raised, ◌>>=◌,
}
use decision_ledger.Prelude.Sets.{contains-append_left, contains-append_right}
use decision_ledger.Predicate.{
  Scalar, CompareOp, Operand, Compare, Predicate, compare, all_of, any_of, negation, Predicates,
  nil, cons, Subject, PredicateError, missing_feature, needs_number, type_error, is_number, resolve,
  compare_node, evaluate, referenced_fields, evaluate_all, evaluate_any, referenced_by,
}
use decision_ledger.Predicate.Valid.{is_valid, are_valid, is_ordering, value_fits_op}

-- `field` is the reason for the error: the subject lacks it, or it holds what cannot be ordered.
abbrev pub Blames : String → Subject → PredicateError → Type 0
Blames field s (missing_feature key) = resolve field s ≡ raised (missing_feature key)
Blames field s (needs_number named actual op) =
    (named ≡ field)
    × (resolve field s ≡ ok actual)
    × (is_number actual ≡ false)
    × (is_ordering op ≡ true)
Blames field s type_error = ⊥

abbrev pub Blamed : List String → Subject → PredicateError → Type 0
Blamed fields s e = (field : String) × (contains fields field ≡ true) × Blames field s e

resolve-raised :
    (field : String) (s : Subject) (e : PredicateError)
    → resolve field s ≡ raised e
    → Blames field s e
unfolding resolve
resolve-raised field s (missing_feature key) h = h
resolve-raised field s (needs_number f a op) h = ground arith
resolve-raised field s type_error h = ground arith

not-raised :
    (r : Outcome PredicateError Bool) {e : PredicateError}
    → (r >>= λ b. ok (not b)) ≡ raised e
    → r ≡ raised e
not-raised (ok b) h = cc
not-raised (raised e) h = cc

then-raised :
    (b : Bool) (r : Outcome PredicateError Bool) {e : PredicateError}
    → (if b then r else ok false) ≡ raised e
    → r ≡ raised e
then-raised true r h = h
then-raised false r h = cc

else-raised :
    (b : Bool) (r : Outcome PredicateError Bool) {e : PredicateError}
    → (if b then ok true else r) ≡ raised e
    → r ≡ raised e
else-raised true r h = cc
else-raised false r h = h

compare_node-Blames :
    (op : CompareOp) (field : String) (value : Operand) (s : Subject) (actual : Scalar)
    (e : PredicateError)
    → value_fits_op (record { field = field; op = op; value = value }) ≡ true
    → resolve field s ≡ ok actual
    → compare_node (record { field = field; op = op; value = value }) actual ≡ raised e
    → Blames field s e
unfolding value_fits_op compare_node
compare_node-Blames op field value s actual (missing_feature key) v r h = ground arith
compare_node-Blames op field value s actual (needs_number f a o) v r h = ground arith
compare_node-Blames op field value s actual type_error v r h = ground arith

node-Blamed :
    (node : Compare) (s : Subject) (e : PredicateError) (r : Outcome PredicateError Scalar)
    → value_fits_op node ≡ true
    → resolve node.field s ≡ r
    → (r >>= compare_node node) ≡ raised e
    → Blamed (node.field ∷ []) s e
node-Blamed node s e (ok actual) v r h = (
  node.field,
  rw eq_refl refl,
  compare_node-Blames node.op node.field node.value s actual e v r h,
)
node-Blamed node s e (raised e') v r h = (
  node.field,
  rw eq_refl refl,
  resolve-raised node.field s e (r ∙ ap raised (raised-injective {A = Bool} h)),
)

Blamed-left :
    (xs ys : List String) (s : Subject) (e : PredicateError) → Blamed xs s e → Blamed (xs ++ ys) s e
Blamed-left xs ys s e (f, c, b) = (f, contains-append_left xs ys f c, b)

Blamed-right :
    (xs ys : List String) (s : Subject) (e : PredicateError) → Blamed ys s e → Blamed (xs ++ ys) s e
Blamed-right xs ys s e (f, c, b) = (f, contains-append_right xs ys f c, b)

-- One more child of a conjunction or a disjunction, which `rest` follows if the child does not
-- decide it.
child-Blamed :
    (fields others : List String) (s : Subject) (e : PredicateError)
    (r : Outcome PredicateError Bool) (next : Bool → Outcome PredicateError Bool)
    → (r ≡ raised e → Blamed fields s e)
    → ((b : Bool) → next b ≡ raised e → Blamed others s e)
    → (r >>= next) ≡ raised e
    → Blamed (fields ++ others) s e
child-Blamed fields others s e (ok b) next f g h = Blamed-right fields others s e (g b h)
child-Blamed fields others s e (raised e') next f g h = Blamed-left fields others s e (f h)

mutual
  unfolding evaluate referenced_fields is_valid

  blamed :
      (p : Predicate) (s : Subject) (e : PredicateError)
      → is_valid p ≡ true
      → evaluate p s ≡ raised e
      → Blamed (referenced_fields p) s e
  blamed (compare node) s e v h =
      node-Blamed node s e (resolve node.field s) (and-right _ _ v) refl h
  blamed (all_of nil) s e v h = cc
  blamed (all_of (cons p ps)) s e v h = evaluate_all-Blamed (cons p ps) s e v h
  blamed (any_of nil) s e v h = cc
  blamed (any_of (cons p ps)) s e v h = evaluate_any-Blamed (cons p ps) s e v h
  blamed (negation p) s e v h = blamed p s e v (not-raised _ h)

  evaluate_all-Blamed :
      (ps : Predicates) (s : Subject) (e : PredicateError)
      → are_valid ps ≡ true
      → evaluate_all ps s ≡ raised e
      → Blamed (referenced_by ps) s e
  evaluate_all-Blamed nil s e v h = cc
  evaluate_all-Blamed (cons p ps) s e v h =
      child-Blamed (referenced_fields p) (referenced_by ps) s e (evaluate p s) _
        (blamed p s e (and-left _ _ v))
        (λ b k. evaluate_all-Blamed ps s e (and-right _ _ v) (then-raised b _ k)) h

  evaluate_any-Blamed :
      (ps : Predicates) (s : Subject) (e : PredicateError)
      → are_valid ps ≡ true
      → evaluate_any ps s ≡ raised e
      → Blamed (referenced_by ps) s e
  evaluate_any-Blamed nil s e v h = cc
  evaluate_any-Blamed (cons p ps) s e v h =
      child-Blamed (referenced_fields p) (referenced_by ps) s e (evaluate p s) _
        (blamed p s e (and-left _ _ v))
        (λ b k. evaluate_any-Blamed ps s e (and-right _ _ v) (else-raised b _ k)) h

-- A valid predicate fails only for a field that it reads: either the subject has no such feature,
-- which the error names, or the field is compared by order and its value, which the error holds,
-- is no number. Python's own `TypeError` never occurs.
pub evaluate-raised :
    (p : Predicate) (s : Subject) (e : PredicateError)
    → is_valid p ≡ true
    → evaluate p s ≡ raised e
    → Blamed (referenced_fields p) s e
evaluate-raised p s e v h = blamed p s e v h

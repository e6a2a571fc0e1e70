-- ===== src/Predicate/Reads.antt =====
-- core/gate/predicate.py: evaluation reads the referenced fields alone, and the two junctions mean
-- conjunction and disjunction.
use text.Mathlib.TextPositions.{eq_refl}
use decision_ledger.Prelude.{
  String, ◌≡◌, refl, ap, ◌↔◌, ◌⊎◌, true, false, not, List, arith, contains, ok, ◌>>=◌,
}
use decision_ledger.Prelude.Sets.{contains-append_left, contains-append_right}
use decision_ledger.Predicate.{
  Predicate, compare, all_of, any_of, negation, Predicates, nil, cons, Subject, resolve,
  compare_node, evaluate, referenced_fields, evaluate_all, evaluate_any, referenced_by,
}

-- `s` and `t` answer alike for each of the fields.
abbrev pub SameReads : List String → Subject → Subject → Type 0
SameReads fields s t =
    (field : String) → contains fields field ≡ true → resolve field s ≡ resolve field t

module _ (s t : Subject) where
  mutual
    unfolding evaluate referenced_fields

    same : (p : Predicate) → SameReads (referenced_fields p) s t → evaluate p s ≡ evaluate p t
    same (compare node) h = ap (λ r. r >>= compare_node node) (h node.field (rw eq_refl refl))
    same (all_of ps) h = same_all ps h
    same (any_of ps) h = same_any ps h
    same (negation p) h = ap (λ r. r >>= λ b. ok (not b)) (same p h)

    same_all :
        (ps : Predicates) → SameReads (referenced_by ps) s t → evaluate_all ps s ≡ evaluate_all ps t
    same_all nil h = refl
    same_all (cons p ps) h = rw (
      same p (λ f m. h f (contains-append_left _ _ f m)),
      same_all ps (λ f m. h f (contains-append_right (referenced_fields p) _ f m)),
    )

    same_any :
        (ps : Predicates) → SameReads (referenced_by ps) s t → evaluate_any ps s ≡ evaluate_any ps t
    same_any nil h = refl
    same_any (cons p ps) h = rw (
      same p (λ f m. h f (contains-append_left _ _ f m)),
      same_any ps (λ f m. h f (contains-append_right (referenced_fields p) _ f m)),
    )

  -- Two subjects that answer alike for every referenced field give one result, the error included.
  pub evaluate-SameReads :
      (p : Predicate) → SameReads (referenced_fields p) s t → evaluate p s ≡ evaluate p t
  evaluate-SameReads p h = same p h

abbrev pub EachHolds : Predicates → Subject → Type 0
EachHolds nil s = Unit
EachHolds (cons p ps) s = (evaluate p s ≡ ok true) × EachHolds ps s

-- Some child holds, and every child before it evaluates and does not hold.
abbrev pub SomeHolds : Predicates → Subject → Type 0
SomeHolds nil s = ⊥
SomeHolds (cons p ps) s = (evaluate p s ≡ ok true) ⊎ ((evaluate p s ≡ ok false) × SomeHolds ps s)

all-holds : (ps : Predicates) (s : Subject) → (evaluate_all ps s ≡ ok true) ↔ EachHolds ps s
unfolding evaluate
all-holds nil s = (λ _. tt, λ _. refl)
all-holds (cons p ps) s =
    (λ h. ground (arith, (all-holds ps s).0), λ h. rw (h.0) ((all-holds ps s).1 h.1))

any-holds : (ps : Predicates) (s : Subject) → (evaluate_any ps s ≡ ok true) ↔ SomeHolds ps s
unfolding evaluate
any-holds nil s = (λ h. cc, λ h. absurd h)
any-holds (cons p ps) s =
    (λ h. ground (arith, (any-holds ps s).0), λ h. ground (arith, (any-holds ps s).1))

-- A conjunction holds exactly when every child does; a disjunction, when a child does and the
-- children before it evaluate to false; a negation, when its child evaluates to false.
pub evaluate-holds_iff :
    (ps : Predicates) (p : Predicate) (s : Subject)
    → ((evaluate (all_of ps) s ≡ ok true) ↔ EachHolds ps s)
      × ((evaluate (any_of ps) s ≡ ok true) ↔ SomeHolds ps s)
      × ((evaluate (negation p) s ≡ ok true) ↔ (evaluate p s ≡ ok false))
unfolding evaluate
evaluate-holds_iff ps p s = (all-holds ps s, any-holds ps s, (λ h. ground arith, λ h. rw h))

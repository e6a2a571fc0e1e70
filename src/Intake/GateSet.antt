-- ===== src/Intake/GateSet.antt =====
-- core/submission.py: the gate set of a decision.
use decision_ledger.Prelude.{
  String, ◌≡◌, refl, ap, ◌∙◌, Bool, true, false, ◌&&◌, ◌||◌, not, List, [], ◌∷◌, ◌++◌, arith,
  and-left, and-right, all, any, contains, distinct, ◌==◌, eq_iff, if◌then◌else◌,
}
use decision_ledger.Prelude.Names.{
  sorted_set, without, contains-sorted_set, contains-without, distinct-sorted_set,
}
use decision_ledger.Registration.{GateBinding, ReasonerRegistration, ids_of, gate_ids}
use decision_ledger.Intake.{upgraded, upgrade_all, mandated_only, effective_gate_set}

ids_of-append : (xs ys : List GateBinding) → ids_of (xs ++ ys) ≡ ids_of xs ++ ids_of ys
ids_of-append [] ys = refl
ids_of-append (b ∷ xs) ys = ap (λ r. b.gate_id ∷ r) (ids_of-append xs ys)

ids_of-upgrade_all :
    (mandated : List String) (bindings : List GateBinding)
    → ids_of (upgrade_all mandated bindings) ≡ ids_of bindings
unfolding upgrade_all upgraded
ids_of-upgrade_all mandated [] = refl
ids_of-upgrade_all mandated (b ∷ bindings) = ground (arith, ids_of-upgrade_all mandated bindings)

ids_of-mandated_only : (names : List String) → ids_of (mandated_only names) ≡ names
unfolding mandated_only
ids_of-mandated_only [] = refl
ids_of-mandated_only (n ∷ names) = ap (λ r. n ∷ r) (ids_of-mandated_only names)

pub contains-append :
    (xs ys : List String) (k : String) → contains (xs ++ ys) k ≡ (contains xs k || contains ys k)
contains-append [] ys k = refl
contains-append (x ∷ xs) ys k = ground (arith, contains-append xs ys k)

pub distinct-append :
    (xs ys : List String)
    → distinct xs ≡ true
    → distinct ys ≡ true
    → ((k : String) → contains xs k ≡ true → contains ys k ≡ false)
    → distinct (xs ++ ys) ≡ true
distinct-append [] ys dx dy apart = dy
distinct-append (x ∷ xs) ys dx dy apart = ground (
  arith,
  distinct-append xs ys (and-right (if contains xs x then false else true) (distinct xs) dx) dy
      (λ k h. apart k (or-right (x == k) (contains xs k) h)),
  contains-append xs ys x,
  apart x (or-left (x == x) (contains xs x) ((eq_iff x x).1 refl)),
)
  where
    or-right : (a b : Bool) → b ≡ true → (a || b) ≡ true
    or-right a b h = ground arith

    or-left : (a b : Bool) → a ≡ true → (a || b) ≡ true
    or-left a b h = ground arith

module _ (registration : ReasonerRegistration) (mandated : List String) where
  ids_of-effective_gate_set :
      ids_of (effective_gate_set registration mandated)
      ≡ gate_ids registration ++ sorted_set (without mandated (gate_ids registration))
  unfolding effective_gate_set
  ids_of-effective_gate_set =
      ids_of-append (upgrade_all mandated registration.gates) _
      ∙ rw
          (
            ids_of-upgrade_all mandated registration.gates,
            ids_of-mandated_only (sorted_set (without mandated (gate_ids registration))),
          )
          refl

  -- A gate is in the gate set of a decision just when the registration binds it or the deployment
  -- mandates it.
  pub effective_gate_set-members :
      (gate_id : String)
      → contains (ids_of (effective_gate_set registration mandated)) gate_id
        ≡ (contains (gate_ids registration) gate_id || contains mandated gate_id)
  effective_gate_set-members gate_id =
      ap (λ ids. contains ids gate_id) ids_of-effective_gate_set
      ∙ contains-append (gate_ids registration)
          (sorted_set (without mandated (gate_ids registration))) gate_id
      ∙ ground (
        arith,
        contains-sorted_set (without mandated (gate_ids registration)) gate_id,
        contains-without mandated (gate_ids registration) gate_id,
      )

  -- The gate set lists no gate twice, if the registration binds none twice.
  pub effective_gate_set-distinct :
      distinct (gate_ids registration) ≡ true
      → distinct (ids_of (effective_gate_set registration mandated)) ≡ true
  effective_gate_set-distinct once =
      ap distinct ids_of-effective_gate_set
      ∙ distinct-append (gate_ids registration) _ once (distinct-sorted_set _) (λ k h. ground (
        arith,
        contains-sorted_set (without mandated (gate_ids registration)) k,
        contains-without mandated (gate_ids registration) k,
      ))

pub all-append :
    {A : Type 0} (p : A → Bool) (xs ys : List A) → all p (xs ++ ys) ≡ (all p xs && all p ys)
all-append p [] ys = refl
all-append p (x ∷ xs) ys = ground (arith, all-append p xs ys)

-- A binding that is mandatory when its gate is mandated.
abbrev pub is_upgraded : List String → GateBinding → Bool
is_upgraded mandated b = b.mandatory || not (contains mandated b.gate_id)

all-upgrade_all :
    (mandated : List String) (bindings : List GateBinding)
    → all (is_upgraded mandated) (upgrade_all mandated bindings) ≡ true
unfolding upgrade_all upgraded
all-upgrade_all mandated [] = refl
all-upgrade_all mandated (b ∷ bindings) = ground (arith, all-upgrade_all mandated bindings)

all-mandated_only :
    (mandated names : List String) → all (is_upgraded mandated) (mandated_only names) ≡ true
unfolding mandated_only
all-mandated_only mandated [] = refl
all-mandated_only mandated (n ∷ names) = all-mandated_only mandated names

all-effective_gate_set :
    (registration : ReasonerRegistration) (mandated : List String)
    → all (is_upgraded mandated) (effective_gate_set registration mandated) ≡ true
unfolding effective_gate_set
all-effective_gate_set registration mandated =
    all-append (is_upgraded mandated) (upgrade_all mandated registration.gates) _
    ∙ rw (all-upgrade_all mandated registration.gates)
        (all-mandated_only mandated (sorted_set (without mandated (gate_ids registration))))

-- A mandatory binding of a gate.
abbrev pub binds_mandatory : String → GateBinding → Bool
binds_mandatory gate_id b = b.gate_id == gate_id && b.mandatory

-- A binding of another gate, or a mandatory one.
abbrev pub never_advisory : String → GateBinding → Bool
never_advisory gate_id b = not (b.gate_id == gate_id) || b.mandatory

mandatory-upgraded :
    (mandated : List String) (gate_id : String) (bindings : List GateBinding)
    → contains mandated gate_id ≡ true
    → all (is_upgraded mandated) bindings ≡ true
    → (any (binds_mandatory gate_id) bindings ≡ contains (ids_of bindings) gate_id)
      × (all (never_advisory gate_id) bindings ≡ true)
mandatory-upgraded mandated gate_id [] h all_upgraded = (refl, refl)
mandatory-upgraded mandated gate_id (b ∷ bindings) h all_upgraded =
    let (present, never) =
      mandatory-upgraded mandated gate_id bindings h
        (and-right (is_upgraded mandated b) _ all_upgraded) in
    let upgrades = and-left (is_upgraded mandated b) _ all_upgraded in
    (
      ground (arith, present, upgrades, named b.gate_id),
      ground (arith, never, upgrades, named b.gate_id),
    )
  where
    named : (k : String) → (k == gate_id) ≡ true → contains mandated k ≡ true
    named k same = rw ((eq_iff k gate_id).0 same) h

-- Whatever the registration says, a gate that the deployment mandates has a mandatory binding in the
-- gate set, and no binding of it there is advisory.
pub effective_gate_set-mandatory :
    (registration : ReasonerRegistration) (mandated : List String) (gate_id : String)
    → contains mandated gate_id ≡ true
    → (any (binds_mandatory gate_id) (effective_gate_set registration mandated) ≡ true)
      × (all (never_advisory gate_id) (effective_gate_set registration mandated) ≡ true)
effective_gate_set-mandatory registration mandated gate_id h =
    let (present, never) =
      mandatory-upgraded mandated gate_id (effective_gate_set registration mandated) h
        (all-effective_gate_set registration mandated) in
    (present ∙ (effective_gate_set-members registration mandated gate_id ∙ ground arith), never)

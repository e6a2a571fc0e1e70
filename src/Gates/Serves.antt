-- ===== src/Gates/Serves.antt =====
-- app/gates.py, `check_gate_set`: a registration that passes it is served.
use mathlib.Core.List.{Memᴰ}
use mathlib.Core.List.Memᴰ
use decision_ledger.Prelude.{
  ◌≡◌, refl, ◌∙◌, String, Bool, true, not, ◌||◌, Option, none, some, is_some, List, [], ◌∷◌, map,
  all, contains, arith, eq_iff, ok, require, >>=-eq-ok, require-true, inl, inr, Outcome, raised,
  ok-injective,
}
use decision_ledger.Prelude.Names.{sorted_set, without, contains-sorted_set, contains-without}
use decision_ledger.Gate.{GateOutput}
use decision_ledger.Registration.{GateBinding, ReasonerRegistration, gate_ids}
use decision_ledger.Intake.{upgraded, upgrade_all, mandated_only, effective_gate_set}
use decision_ledger.Intake.GateSet.{all-append}
use decision_ledger.Invocation.{ComposedGate, GateRequest, composed_gate, invoke_gate}
use decision_ledger.Invocation.Laws.{invoke_gate-invoked}
use decision_ledger.Submit.{mandated_gates}
use decision_ledger.Gates.{
  ServedGate, GatePluginError, plugin_error, mandatory_not_composed, served_gate, check_composed,
  check_gate_set, check_gate_sets, GatePlugin, Building, composed_all, stopped, checked_sets,
  concluded, built_if_known, build_each, build_gates,
}

abbrev pub composed_gates : List ServedGate → List ComposedGate
composed_gates = map (λ g. g.composed)

served-composed :
    (gates : List ServedGate) (gate_id : String)
    → is_some (composed_gate (composed_gates gates) gate_id) ≡ is_some (served_gate gates gate_id)
unfolding composed_gate served_gate
served-composed [] gate_id = refl
served-composed (g ∷ gates) gate_id = ground (arith, served-composed gates gate_id)

mandated-composed :
    (gates : List ComposedGate) (gate_id : String)
    → contains (mandated_gates gates) gate_id ≡ true
    → is_some (composed_gate gates gate_id) ≡ true
unfolding composed_gate mandated_gates
mandated-composed [] gate_id h = cc
mandated-composed (g ∷ gates) gate_id h = ground (arith, mandated-composed gates gate_id)

check_composed-all :
    (registration : ReasonerRegistration) (gates : List ServedGate) (bindings : List GateBinding)
    → check_composed registration gates bindings ≡ ok tt
    → all (λ b. is_some (served_gate gates b.gate_id) || not b.mandatory) bindings ≡ true
unfolding check_composed
check_composed-all registration gates [] h = refl
check_composed-all registration gates (b ∷ bindings) h =
    let (u, met, rest) =
      >>=-eq-ok
        (require (is_some (served_gate gates b.gate_id) || not b.mandatory)
          (plugin_error b.gate_id mandatory_not_composed))
        _ h in
    rw (require-true _ _ met) (check_composed-all registration gates bindings rest)

-- A mandatory binding whose gate is composed.
abbrev pub is_provided : List ComposedGate → GateBinding → Bool
is_provided gates b = not b.mandatory || is_some (composed_gate gates b.gate_id)

module _ (gates : List ServedGate) where
  upgraded-provided :
      (bindings : List GateBinding)
      → all (λ b. is_some (served_gate gates b.gate_id) || not b.mandatory) bindings ≡ true
      → all
          (is_provided (composed_gates gates))
          (upgrade_all (mandated_gates (composed_gates gates)) bindings)
        ≡ true
  unfolding upgrade_all upgraded
  upgraded-provided [] h = refl
  upgraded-provided (b ∷ bindings) h = ground (
    arith,
    upgraded-provided bindings,
    served-composed gates b.gate_id,
    mandated-composed (composed_gates gates) b.gate_id,
  )

  mandated_only-provided :
      (names : List String)
      → ((k : String)
          → contains names k ≡ true
          → is_some (composed_gate (composed_gates gates) k) ≡ true)
      → all (is_provided (composed_gates gates)) (mandated_only names) ≡ true
  unfolding mandated_only
  mandated_only-provided [] h = refl
  mandated_only-provided (n ∷ names) h =
      rw
        (
          h n (ground (arith, eq_iff n n)),
          mandated_only-provided names (λ k listed. h k (ground arith)),
        )
        refl

  all-provided :
      (registration : ReasonerRegistration)
      → check_gate_set registration gates ≡ ok tt
      → all
          (is_provided (composed_gates gates))
          (effective_gate_set registration (mandated_gates (composed_gates gates)))
        ≡ true
  unfolding check_gate_set effective_gate_set
  all-provided registration h =
      let mandated = mandated_gates (composed_gates gates) in
      let (u, passes, _) = >>=-eq-ok (check_composed registration gates registration.gates) _ h in
      all-append (is_provided (composed_gates gates)) (upgrade_all mandated registration.gates) _
      ∙ rw
          (
            upgraded-provided registration.gates
                (check_composed-all registration gates registration.gates passes),
            mandated_only-provided (sorted_set (without mandated (gate_ids registration)))
                (λ k listed. mandated-composed (composed_gates gates) k (
                  ground (
                    arith,
                    contains-sorted_set (without mandated (gate_ids registration)) k,
                    contains-without mandated (gate_ids registration) k,
                  ))),
          )
          refl

check_gate_sets-each :
    (registrations : List ReasonerRegistration) (gates : List ServedGate)
    (registration : ReasonerRegistration)
    → check_gate_sets registrations gates ≡ ok tt
    → Memᴰ registration registrations
    → check_gate_set registration gates ≡ ok tt
unfolding check_gate_sets
check_gate_sets-each [] gates registration h listed = absurd (Memᴰ.not-nil listed)
check_gate_sets-each (r ∷ rs) gates registration h listed =
    let (u, passes, rest) = >>=-eq-ok (check_gate_set r gates) _ h in
    elim (Memᴰ.cases_cons listed) [
      | inl e ↦ rw e passes
      | inr later ↦ check_gate_sets-each rs gates registration rest later
    ]

concluded-ok :
    (registrations : List ReasonerRegistration) (gates built : List ServedGate)
    (o : Outcome GatePluginError (Unit {0}))
    → check_gate_sets registrations built ≡ o
    → (checked_sets built o).outcome ≡ ok gates
    → check_gate_sets registrations gates ≡ ok tt
unfolding checked_sets
concluded-ok registrations gates built (ok tt) e h = rw (← ok-injective h) e
concluded-ok registrations gates built (raised problem) e h = cc

building-ok :
    (registrations : List ReasonerRegistration) (gates : List ServedGate) (b : Building)
    → (concluded registrations b).outcome ≡ ok gates
    → check_gate_sets registrations gates ≡ ok tt
unfolding concluded
building-ok registrations gates (stopped e rejected composed) h = cc
building-ok registrations gates (composed_all composed) h =
    concluded-ok registrations gates composed (check_gate_sets registrations composed) refl h

build_gates-checked :
    (plugins : List GatePlugin) (registrations : List ReasonerRegistration)
    (mandated missing : List String) (gates : List ServedGate)
    → (built_if_known plugins registrations mandated missing).outcome ≡ ok gates
    → check_gate_sets registrations gates ≡ ok tt
unfolding built_if_known
build_gates-checked plugins registrations mandated [] gates h =
    building-ok registrations gates (build_each mandated plugins []) h
build_gates-checked plugins registrations mandated (m ∷ missing) gates h = cc

invoked-some :
    (storable : GateOutput → Bool) (o : Option ComposedGate) (request : GateRequest)
    → is_some o ≡ true
    → (invoke_gate storable o request).invoked ≡ true
invoked-some storable none request h = cc
invoked-some storable (some g) request h = invoke_gate-invoked storable request g

all-mem :
    {A : Type 0} (p : A → Bool) (x : A) (xs : List A) → all p xs ≡ true → Memᴰ x xs → p x ≡ true
all-mem p x [] h m = absurd (Memᴰ.not-nil m)
all-mem p x (y ∷ ys) h m = elim (Memᴰ.cases_cons m) [
  | inl e ↦ rw e (ground arith)
  | inr later ↦ all-mem p x ys (ground arith) later
]

-- In a deployment whose gates were built, every mandatory gate in the gate set of a served
-- registration is composed and invoked: no decision fails closed at a mandatory gate for want of it.
pub build_gates-invoked :
    (plugins : List GatePlugin) (registrations : List ReasonerRegistration)
    (mandatory : List String) (gates : List ServedGate) (registration : ReasonerRegistration)
    (b : GateBinding) (storable : GateOutput → Bool) (request : GateRequest)
    → (build_gates plugins registrations mandatory).outcome ≡ ok gates
    → Memᴰ registration registrations
    → Memᴰ b (effective_gate_set registration (mandated_gates (composed_gates gates)))
    → b.mandatory ≡ true
    → (invoke_gate storable (composed_gate (composed_gates gates) b.gate_id) request).invoked ≡ true
unfolding build_gates
build_gates-invoked plugins registrations mandatory gates registration b storable request h served
      listed binds =
    let sets = build_gates-checked plugins registrations mandatory _ gates h in
    let all_provided =
      all-provided gates registration
        (check_gate_sets-each registrations gates registration sets served) in
    let provided = all-mem (is_provided (composed_gates gates)) b _ all_provided listed in
    invoked-some storable (composed_gate (composed_gates gates) b.gate_id) request (ground arith)

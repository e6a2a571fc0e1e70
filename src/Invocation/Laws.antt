-- ===== src/Invocation/Laws.antt =====
-- app/gates.py: an invocation has an output only if everything about it was in order.
use mathlib.Core.Option.{some-injective}
use decision_ledger.Prelude.{
  ℕ, ◌*◌, ◌≤◌, String, ◌≡◌, refl, sym, ap, ◌∙◌, Bool, true, false, not, Option, none, some, List,
  [], ◌∷◌, arith, ltb, ◌==◌, eq_iff, if◌then◌else◌,
}
use decision_ledger.Gate.{
  GateOutput, OutputProblem, for_gate, declared_otherwise, unstorable, Reason,
}
use decision_ledger.Identity.{same}
use decision_ledger.Invocation.{
  GateRequest, Answer, returned, failed_with, cut_off, ComposedGate, composed_gate, FailureKind,
  GateInvocation, output_problem, kept_output, heard_answer, invoke_gate,
}

pub composed_gate-id :
    (gates : List ComposedGate) (gate_id : String) (g : ComposedGate)
    → composed_gate gates gate_id ≡ some g
    → g.gate_id ≡ gate_id
unfolding composed_gate
composed_gate-id [] gate_id g h = cc
composed_gate-id (c ∷ gates) gate_id g h =
    found (c.gate_id == gate_id) (λ is_it. (eq_iff _ _).0 is_it) (composed_gate-id gates gate_id g)
      h
  where
    found :
        (b : Bool)
        → (b ≡ true → c.gate_id ≡ gate_id)
        → (composed_gate gates gate_id ≡ some g → g.gate_id ≡ gate_id)
        → (if b then some c else composed_gate gates gate_id) ≡ some g
        → g.gate_id ≡ gate_id
    found true is_it rest h =
        ap (λ (k : ComposedGate). k.gate_id) (sym (some-injective _ _ h)) ∙ is_it refl
    found false is_it rest h = rest h

same-eq : (a b : Bool) → same a b ≡ true → a ≡ b
same-eq a b h = ground arith

module _ (storable : GateOutput → Bool) (request : GateRequest) where
  -- What is known of an output that an invocation keeps.
  pub record Usable (composed : ComposedGate) (o : GateOutput) : Type 0 where
    pub elapsed : ℕ
    pub answer : composed.evaluate request ≡ returned o elapsed false
    pub in_budget : elapsed ≤ request.budget_ms * 10
    pub own : o.gate_id ≡ composed.gate_id
    pub as_declared : o.deterministic ≡ composed.deterministic
    pub stored : storable o ≡ true

  -- How an invocation ended: with a usable output, or closed with a kind of failure and a reason.
  pub data Ended (composed : Option ComposedGate) (i : GateInvocation) : Type 0 where
    usable :
        (c : ComposedGate) (o : GateOutput)
        → composed ≡ some c
        → Usable c o
        → i.output ≡ some o
        → i.invoked ≡ true
        → i.failure ≡ none
        → i.reason ≡ none
        → Ended composed i
    closed :
        (kind : FailureKind) (reason : Reason)
        → i.output ≡ none
        → i.failure ≡ some kind
        → i.reason ≡ some reason
        → Ended composed i

  Ended-if :
      {composed : Option ComposedGate} (b : Bool) {i j : GateInvocation}
      → Ended composed i
      → (b ≡ false → Ended composed j)
      → Ended composed (if b then i else j)
  Ended-if true this other = this
  Ended-if false this other = other refl

  kept_output-Ended :
      (c : ComposedGate) (o : GateOutput) (elapsed : ℕ)
      → c.evaluate request ≡ returned o elapsed false
      → ltb (request.budget_ms * 10) elapsed ≡ false
      → (own declared stored : Bool) → (own ≡ true → o.gate_id ≡ c.gate_id)
      → (declared ≡ true → o.deterministic ≡ c.deterministic)
      → (stored ≡ true → storable o ≡ true)
      → Ended (some c) (
          kept_output storable request.gate_context.gate_id o elapsed (
            if not own
            then some (for_gate o.gate_id)
            else if not declared
            then some (declared_otherwise o.deterministic)
            else if stored
            then none
            else some unstorable))
  unfolding kept_output
  kept_output-Ended c o elapsed answer within false declared stored h k l =
      closed _ _ refl refl refl
  kept_output-Ended c o elapsed answer within true false stored h k l = closed _ _ refl refl refl
  kept_output-Ended c o elapsed answer within true true false h k l = closed _ _ refl refl refl
  kept_output-Ended c o elapsed answer within true true true h k l =
      usable c o refl
        (record {
          elapsed = elapsed;
          answer = answer;
          in_budget = ground arith;
          own = h refl;
          as_declared = k refl;
          stored = l refl;
        })
        refl refl refl refl

  heard_answer-Ended :
      (c : ComposedGate) (a : Answer)
      → c.evaluate request ≡ a
      → Ended (some c) (heard_answer storable c request a)
  unfolding heard_answer kept_output output_problem
  heard_answer-Ended c (cut_off elapsed) e = closed _ _ refl refl refl
  heard_answer-Ended c (failed_with text elapsed) e = closed _ _ refl refl refl
  heard_answer-Ended c (returned o elapsed true) e = closed _ _ refl refl refl
  heard_answer-Ended c (returned o elapsed false) e =
      Ended-if (ltb (request.budget_ms * 10) elapsed) (closed _ _ refl refl refl) (λ within.
        kept_output-Ended c o elapsed e within (o.gate_id == c.gate_id)
          (same o.deterministic c.deterministic) (storable o) (λ h. (eq_iff _ _).0 h)
          (λ h. same-eq o.deterministic c.deterministic h) (λ h. h))

  -- An invocation ends with an output, and then without a failure, only if the gate is composed,
  -- answered within its budget and before its deadline, and the output is its own, of the kind that it
  -- declares, and storable; else it ends without an output, with a kind of failure and a reason.
  pub invoke_gate-Ended :
      (composed : Option ComposedGate) → Ended composed (invoke_gate storable composed request)
  unfolding invoke_gate
  invoke_gate-Ended none = closed _ _ refl refl refl
  invoke_gate-Ended (some c) = heard_answer-Ended c (c.evaluate request) refl

kept_output-invoked :
    (storable : GateOutput → Bool) (gate_id : String) (output : GateOutput) (elapsed : ℕ)
    (problem : Option OutputProblem)
    → (kept_output storable gate_id output elapsed problem).invoked ≡ true
unfolding kept_output
kept_output-invoked storable gate_id output elapsed none = refl
kept_output-invoked storable gate_id output elapsed (some problem) = refl

heard_answer-invoked :
    (storable : GateOutput → Bool) (request : GateRequest) (c : ComposedGate) (a : Answer)
    → (heard_answer storable c request a).invoked ≡ true
unfolding heard_answer
heard_answer-invoked storable request c (cut_off elapsed) = refl
heard_answer-invoked storable request c (failed_with text elapsed) = refl
heard_answer-invoked storable request c (returned output elapsed expired) = ground (
  arith,
  kept_output-invoked storable request.gate_context.gate_id output elapsed
      (output_problem storable c output),
)

-- A composed gate is always invoked, whatever it answers.
pub invoke_gate-invoked :
    (storable : GateOutput → Bool) (request : GateRequest) (c : ComposedGate)
    → (invoke_gate storable (some c) request).invoked ≡ true
unfolding invoke_gate
invoke_gate-invoked storable request c =
    heard_answer-invoked storable request c (c.evaluate request)

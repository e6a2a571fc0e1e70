-- ===== src/Prelude/Exceptions.antt =====
-- A Python function that may raise: the value that it returns, or the exception.
use mathlib.Core.Path.{◌≡◌, refl}
use mathlib.Core.Bool.{Bool, true, false}

pub data Outcome {ℓ κ} (E : Type ℓ) (A : Type κ) : Type (ℓ ⊔ κ) where
  ok : A → Outcome E A
  raised : E → Outcome E A

infixl 5 ◌>>◌ ◌>>=◌
-- What follows a statement runs on the value that it returned.
abbrev pub ◌>>=◌ {κ ε ℓ} :
    {X : Type ℓ} {Y : Type κ} {E : Type ε} → Outcome E X → (X → Outcome E Y) → Outcome E Y
raised problem >>= next = raised problem
ok value >>= next = next value

abbrev pub ◌>>◌ {κ ε} : {Y : Type κ} {E : Type ε} → Outcome E (Unit {0}) → Outcome E Y → Outcome E Y
statement >> rest = statement >>= λ done. rest

-- `if not test: raise e`
abbrev pub require {ε} : {E : Type ε} → Bool → E → Outcome E (Unit {0})
require false problem = raised problem
require true problem = ok tt

-- A block that returned: its first statement did, and what follows did on that value.
pub >>=-eq-ok {κ ε ℓ} :
    {E : Type ε} {X : Type ℓ} {Y : Type κ} (statement : Outcome E X) (next : X → Outcome E Y)
    {y : Y}
    → (statement >>= next) ≡ ok y
    → (x : X) × (statement ≡ ok x) × (next x ≡ ok y)
>>=-eq-ok (raised problem) next returns = cc
>>=-eq-ok (ok x) next returns = (x, refl, returns)

pub raised-injective {ε ℓ} :
    {E : Type ε} {A : Type ℓ} {e e' : E} → ◌≡◌ {A = Outcome E A} (raised e) (raised e') → e ≡ e'
raised-injective h = cc

pub ok-injective {ε ℓ} :
    {E : Type ε} {A : Type ℓ} {a a' : A} → ◌≡◌ {A = Outcome E A} (ok a) (ok a') → a ≡ a'
ok-injective h = cc

-- A bind of a value that was returned.
pub >>=-ok {ε ℓ κ} :
    {E : Type ε} {A : Type ℓ} {B : Type κ} (m : Outcome E A) (f : A → Outcome E B) {a : A}
    → m ≡ ok a
    → (m >>= f) ≡ f a
>>=-ok m f h = rw h refl

-- A requirement that did not raise was met.
pub require-true {ε} :
    {E : Type ε} (b : Bool) (e : E) {u : Unit {0}} → require b e ≡ ok u → b ≡ true
require-true true e h = refl
require-true false e h = cc

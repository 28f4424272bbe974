-- ===== src/Prelude/Calls.antt =====
-- What a call of a C function comes to: it returns a value, it returns its error code, it touches
-- memory outside of an object, or the fuel of the model's loop is used up. The last two are no
-- values of C, and the theorems on safety and termination say that they do not come about.
use mathlib.Core.Path.{◌≡◌, refl}
use mathlib.Core.Bool.{Bool, true, false}
use mathlib.Core.Option.{Option, none, some}
use smartdns_ui.Prelude.Tests.{if◌then◌else◌}

pub data Outcome {ℓ} (A : Type ℓ) : Type ℓ where
  ok : A → Outcome A
  fail : Outcome A
  fault : Outcome A
  stuck : Outcome A

infixl 5 ◌>>=◌
abbrev pub ◌>>=◌ {ℓ κ} : {A : Type ℓ} {B : Type κ} → Outcome A → (A → Outcome B) → Outcome B
ok a >>= f = f a
fail >>= f = fail
fault >>= f = fault
stuck >>= f = stuck

infixl 5 ◌>>◌
abbrev pub ◌>>◌ {ℓ} : {B : Type ℓ} → Outcome (Unit {0}) → Outcome B → Outcome B
m >> k = m >>= λ _. k

-- `if (b) return -1;`
abbrev pub fail_if : Bool → Outcome (Unit {0})
fail_if true = fail
fail_if false = ok tt

-- An access that needs `b` to stay inside of its object.
abbrev pub access : Bool → Outcome (Unit {0})
access true = ok tt
access false = fault

abbrev pub or_fault {ℓ} : {A : Type ℓ} → Option A → Outcome A
or_fault none = fault
or_fault (some a) = ok a

-- The call returns, and a value that it returns has the property `P`.
abbrev pub Ensures {ℓ} : {A : Type ℓ} → (A → Type 0) → Outcome A → Type 0
Ensures P (ok a) = P a
Ensures P fail = Unit
Ensures P fault = ⊥
Ensures P stuck = ⊥

pub Ensures-bind {ℓ κ} :
    {A : Type ℓ} {B : Type κ} (P : A → Type 0) (Q : B → Type 0) (m : Outcome A) (f : A → Outcome B)
    → Ensures P m
    → ((a : A) → P a → Ensures Q (f a))
    → Ensures Q (m >>= f)
Ensures-bind P Q (ok a) f h k = k a h
Ensures-bind P Q fail f h k = tt
Ensures-bind P Q fault f h k = absurd h
Ensures-bind P Q stuck f h k = absurd h

pub Ensures-mono {ℓ} :
    {A : Type ℓ} (P Q : A → Type 0) (m : Outcome A)
    → Ensures P m
    → ((a : A) → P a → Q a)
    → Ensures Q m
Ensures-mono P Q (ok a) h k = k a h
Ensures-mono P Q fail h k = tt
Ensures-mono P Q fault h k = h
Ensures-mono P Q stuck h k = h

pub Ensures-and {ℓ} :
    {A : Type ℓ} (P Q : A → Type 0) (m : Outcome A)
    → Ensures P m
    → Ensures Q m
    → Ensures (λ a. P a × Q a) m
Ensures-and P Q (ok a) h k = (h, k)
Ensures-and P Q fail h k = tt
Ensures-and P Q fault h k = h
Ensures-and P Q stuck h k = h

pub Ensures-if {ℓ} :
    {A : Type ℓ} (P : A → Type 0) (t : Bool) (m k : Outcome A)
    → (t ≡ true → Ensures P m)
    → (t ≡ false → Ensures P k)
    → Ensures P (if t then m else k)
Ensures-if P true m k f g = f refl
Ensures-if P false m k f g = g refl

-- A chain that succeeds, taken apart.
pub bind-eq-ok {ℓ κ} :
    {A : Type ℓ} {B : Type κ} (m : Outcome A) (f : A → Outcome B) {b : B}
    → (m >>= f) ≡ ok b
    → (a : A) × (m ≡ ok a) × (f a ≡ ok b)
bind-eq-ok (ok a) f e = (a, refl, e)
bind-eq-ok fail f e = cc
bind-eq-ok fault f e = cc
bind-eq-ok stuck f e = cc

pub fail_if-eq-ok {ℓ} :
    {B : Type ℓ} (t : Bool) (k : Outcome B) {b : B} → (fail_if t >> k) ≡ ok b → k ≡ ok b
fail_if-eq-ok true k e = cc
fail_if-eq-ok false k e = e

-- ===== src/Shared/Attempt.antt =====
-- Python code that may raise: a value, or an exception whose kind the caller does not look at.
use mathlib.Core.Path.{◌≡◌, refl}
use mathlib.Core.Option.{Option, none, some}
use mathlib.Core.Bool.{Bool, true, false}

pub data Attempt (A : Type 0) : Type 0 where
  returns : A → Attempt A
  raises : Attempt A

infixl 5 ◌>>=◌ ◌>>◌
abbrev pub ◌>>=◌ : {A B : Type 0} → Attempt A → (A → Attempt B) → Attempt B
returns a >>= f = f a
raises >>= f = raises

abbrev pub ◌>>◌ : {B : Type 0} → Attempt Unit → Attempt B → Attempt B
m >> k = m >>= λ _. k

-- xs[i], which raises out of range
abbrev pub or_raise : {A : Type 0} → Option A → Attempt A
or_raise none = raises
or_raise (some a) = returns a

-- if not test: raise ...
abbrev pub require : Bool → Attempt Unit
require true = returns tt
require false = raises

pub >>=-eq-returns :
    {A B : Type 0} (m : Attempt A) (f : A → Attempt B) {b : B}
    → (m >>= f) ≡ returns b
    → (a : A) × (m ≡ returns a) × (f a ≡ returns b)
>>=-eq-returns (returns a) f h = (a, refl, h)
>>=-eq-returns raises f h = cc

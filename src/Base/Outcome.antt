-- ===== src/Base/Outcome.antt =====
-- What a call of the emulator can come to.
use mathlib.Core.Path.{◌≡◌}
use mathlib.Core.Bool.{Bool, true, false}

-- `died` is an end of the process by `die`, `die_errno`, `exit` or a failed `assert`; `fault` is
-- an access out of bounds or through a bad pointer, which C leaves undefined;
-- `spent` is no outcome of the code, but the end of the fuel of a loop.
pub data Outcome {ℓ} (A : Type ℓ) : Type ℓ where
  ok : A → Outcome A
  died : Outcome A
  fault : Outcome A
  spent : Outcome A

infixl 5 ◌>>=◌ ◌>>◌
abbrev pub ◌>>=◌ {ℓ κ} : {A : Type ℓ} {B : Type κ} → Outcome A → (A → Outcome B) → Outcome B
ok a >>= f = f a
died >>= f = died
fault >>= f = fault
spent >>= f = spent

abbrev pub ◌>>◌ {ℓ} : {B : Type ℓ} → Outcome (Unit {0}) → Outcome B → Outcome B
m >> k = m >>= λ _. k

-- `assert(b)`.
abbrev pub assert : Bool → Outcome (Unit {0})
assert true = ok tt
assert false = died

-- An access that is defined only when `b` holds.
abbrev pub in_bounds : Bool → Outcome (Unit {0})
in_bounds true = ok tt
in_bounds false = fault

-- What holds if a call returns.
abbrev pub Ensures {ℓ κ} : {A : Type ℓ} → (A → Type κ) → Outcome A → Type κ
Ensures P (ok a) = P a
Ensures P died = Unit
Ensures P fault = Unit
Ensures P spent = Unit

pub Ensures-bind {ℓ ℓ' κ κ'} :
    {A : Type ℓ} {B : Type ℓ'} (P : A → Type κ) (Q : B → Type κ') (m : Outcome A)
    (f : A → Outcome B)
    → Ensures P m
    → ((a : A) → P a → Ensures Q (f a))
    → Ensures Q (m >>= f)
Ensures-bind P Q (ok a) f h next = next a h
Ensures-bind P Q died f h next = tt
Ensures-bind P Q fault f h next = tt
Ensures-bind P Q spent f h next = tt

-- What a call that returned ensures.
pub Ensures-ok {ℓ κ} :
    {A : Type ℓ} (P : A → Type κ) (m : Outcome A) (a : A) → Ensures P m → m ≡ ok a → P a
Ensures-ok P m a h e = let h' : Ensures P (ok a) = rw e at h in h'

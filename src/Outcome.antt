-- ===== src/Outcome.antt =====
-- The outcome of code that may stop at an assertion or leave a buffer: a value or a fault.
use schema_code_gen.Base.{◌≡◌, refl, subst, ◌⊎◌, inl, inr, Bool, true, false, if◌then◌else◌}

pub data Fault : Type 0 where
  -- `assert` fails.
  assertion : Fault
  -- A store behind the last element of `argv`.
  argv_overrun : Fault
  -- A buffer that `strncpy` has left without a terminator is read as a string.
  unterminated : Fault
  -- A null pointer is read through.
  null_read : Fault
  -- A byte behind the terminator of a string is read.
  past_end : Fault

pub data Outcome {ℓ} (A : Type ℓ) : Type ℓ where
  ok : A → Outcome A
  fault : Fault → Outcome A

infixl 5 ◌>>=◌
abbrev pub ◌>>=◌ {ℓ κ} : {A : Type ℓ} {B : Type κ} → Outcome A → (A → Outcome B) → Outcome B
ok a >>= f = f a
fault e >>= f = fault e

pub bind-eq-ok {ℓ κ} :
    {A : Type ℓ} {B : Type κ} (m : Outcome A) (f : A → Outcome B) {b : B}
    → (m >>= f) ≡ ok b
    → (a : A) × (m ≡ ok a) × (f a ≡ ok b)
bind-eq-ok (ok a) f h = (a, refl, h)
bind-eq-ok (fault e) f h = cc

pub Outcome-cases {ℓ} :
    {A : Type ℓ} (m : Outcome A) → ((a : A) × (m ≡ ok a)) ⊎ ((e : Fault) × (m ≡ fault e))
Outcome-cases (ok a) = inl (a, refl)
Outcome-cases (fault e) = inr (e, refl)

-- `P` holds of the value, if there is one.
abbrev pub Ensures {ℓ κ} : {A : Type ℓ} → (A → Type κ) → Outcome A → Type κ
Ensures P (ok a) = P a
Ensures P (fault e) = Unit

pub if-Ensures {ℓ κ} :
    {A : Type ℓ} (P : A → Type κ) (b : Bool) (x y : Outcome A)
    → Ensures P x
    → Ensures P y
    → Ensures P (if b then x else y)
if-Ensures P true x y hx hy = hx
if-Ensures P false x y hx hy = hy

pub Ensures-ok {ℓ κ} :
    {A : Type ℓ} (P : A → Type κ) (m : Outcome A) (a : A) → m ≡ ok a → Ensures P m → P a
Ensures-ok P m a e h = subst (Ensures P) e h

pub bind-Ensures {ℓ κ η μ} :
    {A : Type ℓ} {B : Type κ} (P : A → Type η) (Q : B → Type μ) (m : Outcome A) (f : A → Outcome B)
    → Ensures P m
    → ((a : A) → P a → Ensures Q (f a))
    → Ensures Q (m >>= f)
bind-Ensures P Q (ok a) f h k = k a h
bind-Ensures P Q (fault e) f h k = tt

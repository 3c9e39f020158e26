-- ===== src/Shared/Result.antt =====
-- The result of a fallible step: a value, or an error of a type of the caller's.
use open_seavault_rclone.Shared.Tests.{if◌then◌else◌}
use mathlib.Core.Bool.{Bool, true, false}

pub data Result {ℓ κ} (E : Type κ) (A : Type ℓ) : Type (ℓ ⊔ κ) where
  ok : A → Result E A
  err : E → Result E A

infixl 5 ◌>>=◌ ◌>>◌
abbrev pub ◌>>=◌ {ℓ κ ι} :
    {E : Type ι} {A : Type ℓ} {B : Type κ} → Result E A → (A → Result E B) → Result E B
ok a >>= f = f a
err e >>= f = err e

abbrev pub ◌>>◌ {ℓ ι} : {E : Type ι} {B : Type ℓ} → Result E (Unit {0}) → Result E B → Result E B
m >> k = m >>= λ _. k

-- `if !b { return e }`
abbrev pub guard {ι} : {E : Type ι} → Bool → E → Result E (Unit {0})
guard true e = ok tt
guard false e = err e

-- A result is an error, or a value that satisfies `P`.
abbrev pub Ensures {ℓ κ ι} : {E : Type ι} {A : Type ℓ} → (A → Type κ) → Result E A → Type κ
Ensures P (ok a) = P a
Ensures P (err e) = Unit

pub Ensures->>= {ℓ κ ι μ} :
    {E : Type ι} {A : Type ℓ} {B : Type κ} (P : A → Type μ) (Q : B → Type μ) (m : Result E A)
    (f : A → Result E B)
    → Ensures P m
    → ((a : A) → P a → Ensures Q (f a))
    → Ensures Q (m >>= f)
Ensures->>= P Q (ok a) f h g = g a h
Ensures->>= P Q (err e) f h g = tt

pub Ensures-guarded {ℓ κ ι} :
    {E : Type ι} {A : Type ℓ} (P : A → Type κ) (b : Bool) (e : E) (m : Result E A)
    → Ensures P m
    → Ensures P (if b then err e else m)
Ensures-guarded P true e m h = tt
Ensures-guarded P false e m h = h

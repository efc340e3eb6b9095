-- ===== src/Base/Outcome.antt =====
-- shared/contracts/result.ts. A `Result` carries a value, or an error code with the hint that tells
-- the caller whether to try again; messages and audit identifiers are left out.
use mathlib.Core.Path.{◌≡◌, refl}
use mathlib.Core.Logic.{◌⊎◌, inl, inr}

pub data Retry : Type 0 where
  never refresh explicit_resume same_input : Retry

pub data Result {ℓ κ} (C : Type ℓ) (A : Type κ) : Type (ℓ ⊔ κ) where
  ok : A → Result C A
  err : C → Retry → Result C A

infixl 5 ◌>>=◌
abbrev pub ◌>>=◌ {ℓ κ μ} :
    {C : Type ℓ} {A : Type κ} {B : Type μ} → Result C A → (A → Result C B) → Result C B
ok a >>= f = f a
err c r >>= f = err c r

pub Result-cases {ℓ κ} :
    {C : Type ℓ} {A : Type κ} (m : Result C A)
    → ((a : A) × (m ≡ ok a)) ⊎ ((c : C) × (r : Retry) × (m ≡ err c r))
Result-cases (ok a) = inl (a, refl)
Result-cases (err c r) = inr (c, r, refl)

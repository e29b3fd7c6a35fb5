-- ===== src/Common/Result.antt =====
-- A result of the C functions that return a count or a negative error code.
use Prim.Native.Nat.{ℕ}
use mathlib.Core.Path.{◌≡◌, refl}
use mathlib.Core.Logic.{◌⊎◌, inl, inr}

-- `err n` stands for the returned value -n.
pub data Result {ℓ} (A : Type ℓ) : Type ℓ where
  ok : A → Result A
  err : ℕ → Result A

infixl 5 ◌>>=◌
abbrev pub ◌>>=◌ {ℓ κ} : {A : Type ℓ} {B : Type κ} → Result A → (A → Result B) → Result B
ok a >>= f = f a
err e >>= f = err e

pub Result-cases {ℓ} :
    {A : Type ℓ} (r : Result A) → ((a : A) × (r ≡ ok a)) ⊎ ((e : ℕ) × (r ≡ err e))
Result-cases (ok a) = inl (a, refl)
Result-cases (err e) = inr (e, refl)

-- Inversion of a successful bind.
pub bind_ok {ℓ κ ι} :
    {A : Type ℓ} {B : Type κ} {C : Type ι} (m : Result A) (f : A → Result B) {b : B}
    → (m >>= f) ≡ ok b
    → ((a : A) → m ≡ ok a → f a ≡ ok b → C)
    → C
bind_ok (ok a) f h k = k a refl h
bind_ok (err e) f h k = absurd (cc h)

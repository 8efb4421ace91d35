-- ===== src/Prelude/Calls.antt =====
-- What a Go call comes to: it returns, or it panics (an index out of range, a nil pointer).
use mathlib.Core.Path.{◌≡◌, refl, ap}
use mathlib.Core.Logic.{◌⊎◌, inl, inr}

pub data Call {ℓ} (A : Type ℓ) : Type ℓ where
  returns : A → Call A
  panics : Call A

infixl 5 ◌>>=◌ ◌>>◌
abbrev pub ◌>>=◌ {ℓ κ} : {A : Type ℓ} {B : Type κ} → Call A → (A → Call B) → Call B
returns a >>= f = f a
panics >>= f = panics

abbrev pub ◌>>◌ {ℓ κ} : {A : Type ℓ} {B : Type κ} → Call A → Call B → Call B
m >> k = m >>= λ _. k

pub >>=-eq-returns {ℓ κ} :
    {A : Type ℓ} {B : Type κ} (m : Call A) (f : A → Call B) {b : B}
    → (m >>= f) ≡ returns b
    → (a : A) × (m ≡ returns a) × (f a ≡ returns b)
>>=-eq-returns (returns a) f h = (a, refl, h)
>>=-eq-returns panics f h = cc

-- To split on a call and keep the equation.
pub call_cases {ℓ} : {A : Type ℓ} (c : Call A) → ((a : A) × (c ≡ returns a)) ⊎ (c ≡ panics)
call_cases (returns a) = inl (a, refl)
call_cases panics = inr refl

abbrev value_or {ℓ} : {A : Type ℓ} → A → Call A → A
value_or a (returns b) = b
value_or a panics = a

pub returns-inj {ℓ} : {A : Type ℓ} {a b : A} → returns a ≡ returns b → a ≡ b
returns-inj {a = a} h = ap (value_or a) h

-- ===== src/Base/Outcome.antt =====
-- Code that may throw or fail an assertion, without other effects.
use mathlib.Core.Path.{◌≡◌, refl}
use mathlib.Core.Bool.{Bool, true, false}

-- What the code throws: std::runtime_error, std::out_of_range,
-- boost::bad_lexical_cast and boost::bad_any_cast.
pub data Exception : Type 0 where
  runtime_error out_of_range bad_lexical_cast bad_any_cast : Exception

pub data Outcome {ℓ} (A : Type ℓ) : Type ℓ where
  returned : A → Outcome A
  thrown : Exception → Outcome A
  stopped : Outcome A

infixl 5 ◌>>=◌ ◌>>◌
abbrev pub ◌>>=◌ {ℓ κ} : {A : Type ℓ} {B : Type κ} → Outcome A → (A → Outcome B) → Outcome B
returned a >>= f = f a
thrown x >>= f = thrown x
stopped >>= f = stopped

abbrev pub ◌>>◌ {ℓ} : {B : Type ℓ} → Outcome (Unit {0}) → Outcome B → Outcome B
m >> k = m >>= λ _. k

-- `assert`, and a test that throws.
abbrev pub asserting : Bool → Outcome (Unit {0})
asserting true = returned tt
asserting false = stopped

abbrev pub throw_if : Bool → Exception → Outcome (Unit {0})
throw_if true x = thrown x
throw_if false x = returned tt

pub >>=-eq-returned {ℓ κ} :
    {A : Type ℓ} {B : Type κ} (m : Outcome A) (f : A → Outcome B) {b : B}
    → (m >>= f) ≡ returned b
    → (a : A) × (m ≡ returned a) × (f a ≡ returned b)
>>=-eq-returned (returned a) f h = (a, refl, h)
>>=-eq-returned (thrown x) f h = cc
>>=-eq-returned stopped f h = cc

-- The code fails no assertion.
abbrev pub Goes {ℓ} : {A : Type ℓ} → Outcome A → Type 0
Goes stopped = ⊥
Goes m = Unit

pub >>=-Goes {ℓ κ} :
    {A : Type ℓ} {B : Type κ} (m : Outcome A) (f : A → Outcome B)
    → Goes m
    → ((a : A) → Goes (f a))
    → Goes (m >>= f)
>>=-Goes (returned a) f g h = h a
>>=-Goes (thrown x) f g h = tt
>>=-Goes stopped f g h = g

pub throw_if-Goes : (b : Bool) (x : Exception) → Goes (throw_if b x)
throw_if-Goes true x = tt
throw_if-Goes false x = tt

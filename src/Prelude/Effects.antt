-- ===== src/Prelude/Effects.antt =====
-- What a C++ call can do: return, throw, or run into undefined behaviour.
use mathlib.Core.Path.{◌≡◌, refl}

-- The exceptions that the code throws or lets through, by their standard class.
pub data Exception : Type 0 where
  out_of_range bad_alloc runtime_error bad_variant_access : Exception

-- `undefined` covers accesses out of bounds and the use of a variable that was never set.
pub data Outcome {ℓ} (A : Type ℓ) : Type ℓ where
  ok : A → Outcome A
  throws : Exception → Outcome A
  undefined : Outcome A

infixl 5 ◌>>=◌
abbrev pub ◌>>=◌ {ℓ κ} : {A : Type ℓ} {B : Type κ} → Outcome A → (A → Outcome B) → Outcome B
ok a >>= f = f a
throws e >>= f = throws e
undefined >>= f = undefined

-- A call that returns was given a value by what it called first.
pub >>=-eq-ok {ℓ κ} :
    {A : Type ℓ} {B : Type κ} {r : B} (call : Outcome A) (next : A → Outcome B)
    → (call >>= next) ≡ ok r
    → (v : A) × (call ≡ ok v) × (next v ≡ ok r)
>>=-eq-ok (ok v) next returns = (v, refl, returns)
>>=-eq-ok (throws e) next returns = cc
>>=-eq-ok undefined next returns = cc

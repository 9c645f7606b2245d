-- ===== src/Base/Errors.antt =====
-- A result of a Go function that returns a value and an error: the value is read only if the error
-- is nil. A chain of such calls is a do block.
use mathlib.Core.Path.{◌≡◌, refl}
use mathlib.Core.Logic.{◌⊎◌, inl, inr}
use mathlib.Core.Bool.{Bool, true, false}

pub data Result {ℓ} (E A : Type ℓ) : Type ℓ where
  ok : A → Result E A
  err : E → Result E A

-- `if !b { return err }`.
abbrev pub require : {E : Type 0} → Bool → E → Result E (Unit {0})
require false failure = err failure
require true failure = ok tt

infixl 5 ◌>>=◌
abbrev pub ◌>>=◌ {ℓ} : {E A B : Type ℓ} → Result E A → (A → Result E B) → Result E B
err failure >>= go_on = err failure
ok value >>= go_on = go_on value

infixl 5 ◌>>◌
abbrev pub ◌>>◌ {ℓ} : {E B : Type ℓ} → Result E (Unit {ℓ}) → Result E B → Result E B
first >> second = first >>= λ done. second

-- A chain that succeeds has run both parts.
pub >>=-eq-ok :
    {E A B : Type 0} (first : Result E A) (go_on : A → Result E B) {last : B}
    → first >>= go_on ≡ ok last
    → (value : A) × (first ≡ ok value) × (go_on value ≡ ok last)
>>=-eq-ok (err failure) go_on chain = cc
>>=-eq-ok (ok value) go_on chain = (value, refl, chain)

pub Result-cases {ℓ} :
    {E A : Type ℓ} (r : Result E A) → ((e : E) × (r ≡ err e)) ⊎ ((a : A) × (r ≡ ok a))
Result-cases (ok a) = inr (a, refl)
Result-cases (err e) = inl (e, refl)

-- ===== src/Prelude/Result.antt =====
-- `crate::Result`: a value or one of the error variants, with `?` as a bind. The texts that the
-- variants carry are left out.
use mathlib.Core.Path.{◌≡◌, refl}
use mathlib.Core.Logic.{◌⊎◌, inl, inr}
use mathlib.Core.Bool.{Bool, true, false}
use mathlib.Core.Option.{Option, none, some}

pub data Error : Type 0 where
  invalid_cert pow_failed crypto auth_failed handshake onion dht hidden_service io serde : Error
  closed not_found rate_limited puzzle_required : Error

pub data Result {ℓ} (Value : Type ℓ) : Type ℓ where
  err : Error → Result Value
  ok : Value → Result Value

-- `ok_or_else`
abbrev pub or_fail {ℓ} : {Value : Type ℓ} → Option Value → Error → Result Value
or_fail none e = err e
or_fail (some v) e = ok v

-- The `?` operator.
module _ {ℓ κ} {Value : Type ℓ} {Next : Type κ} where
  infixl 5 ◌>>=◌
  abbrev pub ◌>>=◌ : Result Value → (Value → Result Next) → Result Next
  err e >>= next = err e
  ok v >>= next = next v

-- `if !cond { return Err(e) }`
abbrev pub guard : Bool → Error → Result (Unit {0})
guard false e = err e
guard true e = ok tt

infixl 5 ◌>>◌
abbrev pub ◌>>◌ {κ} : {Next : Type κ} → Result (Unit {0}) → Result Next → Result Next
err e >> next = err e
ok _ >> next = next

-- A chain that succeeds did so at each step.
pub >>=-eq-ok {ℓ κ} :
    {Value : Type ℓ} {Next : Type κ} {last : Next} (first : Result Value)
    (next : Value → Result Next)
    → first >>= next ≡ ok last
    → (v : Value) × (first ≡ ok v) × (next v ≡ ok last)
>>=-eq-ok (err e) next chain = cc
>>=-eq-ok (ok v) next chain = (v, refl, chain)

pub Result-cases {ℓ} :
    {A : Type ℓ} (r : Result A) → ((a : A) × (r ≡ ok a)) ⊎ ((e : Error) × (r ≡ err e))
Result-cases (ok a) = inl (a, refl)
Result-cases (err e) = inr (e, refl)

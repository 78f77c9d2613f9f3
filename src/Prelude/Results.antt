-- ===== src/Prelude/Results.antt =====
-- A JavaScript function that may throw an `Error`: its value, or the error's message.
use mathlib.Core.Path.{◌≡◌, refl}
use mathlib.Core.Logic.{◌⊎◌, inl, inr}
use complytime_providers.Prelude.Strings.{Text}
use mathlib.Core.Bool.{Bool, true, false}

pub data Result {ℓ} (Value : Type ℓ) : Type ℓ where
  err : (message : Text) → Result Value
  ok : (value : Value) → Result Value

abbrev pub is_ok {ℓ} : {Value : Type ℓ} → Result Value → Bool
is_ok (err message) = false
is_ok (ok value) = true

-- What follows a call that may throw.
infixl 5 ◌>>=◌
abbrev pub ◌>>=◌ {ℓ κ} :
    {Value : Type ℓ} {Next : Type κ} → Result Value → (Value → Result Next) → Result Next
err message >>= next = err message
ok value >>= next = next value

pub >>=-eq-ok {ℓ κ} :
    {Value : Type ℓ} {Next : Type κ} (r : Result Value) (next : Value → Result Next) {b : Next}
    → (r >>= next) ≡ ok b
    → (a : Value) × (r ≡ ok a) × (next a ≡ ok b)
>>=-eq-ok (err message) next h = cc
>>=-eq-ok (ok value) next h = (value, refl, h)

pub Result-cases {ℓ} :
    {Value : Type ℓ} (r : Result Value)
    → ((message : Text) × (r ≡ err message)) ⊎ ((value : Value) × (r ≡ ok value))
Result-cases (err message) = inl (message, refl)
Result-cases (ok value) = inr (value, refl)

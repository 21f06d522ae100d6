-- ===== src/Base/Results.antt =====
-- Fallible code: what the source throws, and what is undefined behaviour there, is an error value.
use mathlib.Core.Path.{◌≡◌, refl}
use mathlib.Core.Logic.{◌⊎◌, inl, inr}
use mathlib.Core.Option.{Option, none, some}

-- `out_of_bounds` is an access outside an array and `out_of_fuel` a loop cut short; the others are
-- the exceptions that the source throws.
pub data Error : Type 0 where
  out_of_bounds out_of_fuel : Error
  slot_empty store_full order_not_found bad_transition unrecognized_state malformed : Error
  vanished_after_add parse_failed rest_failed : Error
  ring_overflow message_too_long control_too_long rng_failed : Error
  reserved_bits masked_frame reserved_opcode unknown_op market_order no_orders : Error
  stream_ended upgrade_refused accept_missing accept_wrong instrument_not_found : Error

pub data Result {ℓ} (A : Type ℓ) : Type ℓ where
  err : Error → Result A
  ok : A → Result A

-- What follows a call that may throw.
abbrev pub ◌>>=◌ {κ ℓ} : {B : Type κ} {A : Type ℓ} → Result B → (B → Result A) → Result A
err e >>= next = err e
ok value >>= next = next value

infixl 5 ◌>>=◌
abbrev pub or_throw {ℓ} : {A : Type ℓ} → Error → Option A → Result A
or_throw e (some a) = ok a
or_throw e none = err e

pub Result-cases {ℓ} :
    {A : Type ℓ} (outcome : Result A)
    → ((value : A) × (outcome ≡ ok value)) ⊎ ((e : Error) × (outcome ≡ err e))
Result-cases (err e) = inr (e, refl)
Result-cases (ok value) = inl (value, refl)

-- Calls that agree, with the rest of the code agreeing on what they return.
pub bind_congr {κ ℓ} :
    {B : Type κ} {A : Type ℓ} (a b : Result B) (f g : B → Result A)
    → a ≡ b
    → ((value : B) → f value ≡ g value)
    → (a >>= f) ≡ (b >>= g)
bind_congr a (err e) f g h k = rw h refl
bind_congr a (ok value) f g h k = rw h (k value)

pub ok_inj {ℓ} : {A : Type ℓ} (a b : A) → ok a ≡ ok b → a ≡ b
ok_inj a b e = cc

-- ===== src/Prelude/Exceptions.antt =====
-- The exceptions that the modelled code raises or catches, and the result of code that may raise
-- (utils/hybrid_optimizer_v31.py). `other_error` is any exception the code does not name.
pub data Exception : Type 0 where
  circuit_open timeout_error connection_error quota_exceeded : Exception
  type_error zero_division attribute_error name_error other_error : Exception

pub data Result {ℓ} (A : Type ℓ) : Type ℓ where
  ok : A → Result A
  err : Exception → Result A

abbrev pub and_then {ℓ κ} : {A : Type ℓ} {B : Type κ} → Result A → (A → Result B) → Result B
and_then (ok a) f = f a
and_then (err e) f = err e

infixl 5 ◌>>=◌
abbrev pub ◌>>=◌ {ℓ κ} : {A : Type ℓ} {B : Type κ} → Result A → (A → Result B) → Result B
m >>= f = and_then m f

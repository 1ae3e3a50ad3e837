-- ===== src/Errors.antt =====
-- The exceptions that the modelled code raises, with their messages, and computations that may
-- raise one: app/domain/shared/exceptions.py and Python's ValueError, KeyError, TypeError and
-- RuntimeError.
use clean_data_platform_airf.Prelude.{
  ◌⊎◌, inl, inr, String, [], ◌∷◌, format, ◌≡◌, refl, Bool, true, false,
}

pub data PlatformError : Type 0 where
  value_error key_error type_error : String → PlatformError
  not_found_error validation_error : String → PlatformError
  invalid_state_transition destructive_override : String → PlatformError
  circuit_breaker_open multiple_results : String → PlatformError
  runtime_error : String → PlatformError

pub data Result {ℓ} (A : Type ℓ) : Type ℓ where
  err : PlatformError → Result A
  ok : A → Result A

infixl 5 ◌>>=◌
abbrev pub ◌>>=◌ {ℓ κ} : {A : Type ℓ} {B : Type κ} → Result A → (A → Result B) → Result B
err problem >>= next = err problem
ok value >>= next = next value

-- Inversion of a chain that returned.
module _ {ℓ κ} {A : Type ℓ} {B : Type κ} (next : A → Result B) {result : B} where
  pub >>=-eq-ok :
      (first : Result A)
      → (first >>= next) ≡ ok result
      → (value : A) × (first ≡ ok value) × (next value ≡ ok result)
  >>=-eq-ok (err problem) returned = cc
  >>=-eq-ok (ok value) returned = (value, refl, returned)

pub Result-cases {ℓ} :
    {A : Type ℓ} (r : Result A) → ((e : PlatformError) × (r ≡ err e)) ⊎ ((a : A) × (r ≡ ok a))
Result-cases (err e) = inl (e, refl)
Result-cases (ok a) = inr (a, refl)

abbrev pub is_ok {ℓ} : {A : Type ℓ} → Result A → Bool
is_ok (ok a) = true
is_ok (err e) = false

abbrev pub is_err {ℓ} : {A : Type ℓ} → Result A → Bool
is_err (ok a) = false
is_err (err e) = true

-- What a caller holds who catches the exception: the object as it was.
abbrev pub or_else {ℓ} : {A : Type ℓ} → A → Result A → A
or_else a (ok b) = b
or_else a (err e) = a

-- `str(e)`: the text of a KeyError is the representation of its key, here one without quotes.
abbrev pub message : PlatformError → String
message (value_error s) = s
message (key_error k) = format ("'" ∷ k ∷ "'" ∷ [])
message (type_error s) = s
message (not_found_error s) = s
message (validation_error s) = s
message (invalid_state_transition s) = s
message (destructive_override s) = s
message (circuit_breaker_open s) = s
message (multiple_results s) = s
message (runtime_error s) = s

-- ===== src/Prelude/Errors.antt =====
-- Python's exceptions as values.
use mathlib.Core.Path.{◌≡◌, refl}
use mathlib.Core.Logic.{◌⊎◌, inl, inr}

-- The exceptions that the program raises, catches or lets through.
pub data Exception : Type 0 where
  value_error type_error key_error attribute_error recursion_error : Exception
  validation_error does_not_exist item_not_found invalid_key : Exception
  permission_denied not_found parse_error multiple_objects_returned : Exception
  operational_error overflow_error : Exception

-- What a call does: it raises, or it returns a value.
pub data Result {ℓ} (Value : Type ℓ) : Type ℓ where
  raise : Exception → Result Value
  ok : Value → Result Value

module _ {ℓ κ} {Value : Type ℓ} {Answer : Type κ} where
  infixl 5 ◌>>=◌
  abbrev pub ◌>>=◌ : Result Value → (Value → Result Answer) → Result Answer
  raise exception >>= next = raise exception
  ok value >>= next = next value

  -- Where two calls in a row return, so did the first.
  pub >>=-eq-ok :
      (call : Result Value) (next : Value → Result Answer) {answer : Answer}
      → (call >>= next) ≡ ok answer
      → (value : Value) × (call ≡ ok value) × (next value ≡ ok answer)
  >>=-eq-ok (raise exception) next returned = cc
  >>=-eq-ok (ok value) next returned = (value, refl, returned)

pub Result-cases {ℓ} :
    {Value : Type ℓ} (call : Result Value)
    → ((exception : Exception) × (call ≡ raise exception)) ⊎ ((value : Value) × (call ≡ ok value))
Result-cases (raise exception) = inl (exception, refl)
Result-cases (ok value) = inr (value, refl)

pub ok_inj {ℓ} : {Value : Type ℓ} {a b : Value} → ok a ≡ ok b → a ≡ b
ok_inj e = cc

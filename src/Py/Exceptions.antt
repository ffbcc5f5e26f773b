-- ===== src/Py/Exceptions.antt =====
-- A call that may raise, as a value.
use auto_test_poc.Base.{Option, none, some, Bool, true, false}

pub data Error : Type 0 where
  value_error key_error index_error type_error attribute_error unicode_error : Error
  runtime_error assertion_error name_error empty_error : Error

-- What the call returned, or the exception.
pub data Result {ℓ} (A : Type ℓ) : Type ℓ where
  ok : (value : A) → Result A
  err : (raised : Error) → Result A

-- `raise` where a value is missing
abbrev pub or_raise {ℓ} : {A : Type ℓ} → Option A → Error → Result A
or_raise none raised = err raised
or_raise (some value) raised = ok value

-- `if not holds: raise …`
abbrev pub guard : Bool → Error → Result (Unit {0})
guard false raised = err raised
guard true raised = ok tt

infixl 5 ◌>>=◌
abbrev pub ◌>>=◌ {ℓ κ} : {A : Type ℓ} → {B : Type κ} → Result A → (A → Result B) → Result B
err raised >>= next = err raised
ok value >>= next = next value

infixl 5 ◌>>◌
abbrev pub ◌>>◌ {ℓ} : {A : Type ℓ} → Result (Unit {0}) → Result A → Result A
err raised >> rest = err raised
ok done >> rest = rest

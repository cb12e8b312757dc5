-- ===== src/Prelude/Results.antt =====
-- Go's results: a value or an error. An error keeps its text and the kind that the code asks for.
use Prim.Native.String.{String}
use mathlib.Core.Path.{◌≡◌, refl}
use mathlib.Core.Bool.{Bool, true, false}
use mathlib.Core.Option.{Option, none, some}

-- `not_found` and `invalid` are what `IsNotFound` and `IsInvalid` of the Kubernetes API recognise,
-- `permanent` what `controller.IsPermanentError` does, `network` what `errors.As` finds.
-- `panicked` is a Go panic, such as a nil dereference, which nothing in the code recovers.
pub data Error : Type 0 where
  plain not_found invalid network panicked : String → Error
  permanent : Error → Error

abbrev pub message : Error → String
message (plain m) = m
message (not_found m) = m
message (invalid m) = m
message (network m) = m
message (panicked m) = m
message (permanent e) = message e

abbrev pub is_not_found : Error → Bool
is_not_found (not_found m) = true
is_not_found _ = false

abbrev pub is_invalid : Error → Bool
is_invalid (invalid m) = true
is_invalid _ = false

abbrev pub is_permanent : Error → Bool
is_permanent (permanent e) = true
is_permanent _ = false

pub data Result {ℓ} (A : Type ℓ) : Type ℓ where
  ok : A → Result A
  err : Error → Result A

-- `if err != nil { return …, err }`: the rest of the function runs on the value.
infixl 5 ◌>>=◌
abbrev pub ◌>>=◌ {ℓ κ} :
    {Value : Type ℓ} {Answer : Type κ} → Result Value → (Value → Result Answer) → Result Answer
first >>= rest = elim first [ err e ↦ err e | ok value ↦ rest value ]

-- What a call returns to its caller: a panic is not returned.
abbrev pub returned {ℓ} : {A : Type ℓ} → Result A → Result (Result A)
returned (ok a) = ok (ok a)
returned (err (panicked m)) = err (panicked m)
returned (err e) = ok (err e)

abbrev pub is_ok {ℓ} : {A : Type ℓ} → Result A → Bool
is_ok (ok a) = true
is_ok (err e) = false

abbrev pub error_of {ℓ} : {A : Type ℓ} → Result A → Option Error
error_of (ok a) = none
error_of (err e) = some e

pub ok_injective {ℓ} : {A : Type ℓ} {a b : A} → ok a ≡ ok b → a ≡ b
ok_injective e = cc

-- A function that returns no error met none on the way.
pub bind-ok_inv {ℓ κ} :
    {Value : Type ℓ} {Answer : Type κ} (first : Result Value) (rest : Value → Result Answer)
    (answer : Answer)
    → (first >>= rest) ≡ ok answer
    → (value : Value) × (first ≡ ok value) × (rest value ≡ ok answer)
bind-ok_inv (err e) rest answer returned = cc
bind-ok_inv (ok value) rest answer returned = (value, refl, returned)

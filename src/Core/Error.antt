-- ===== src/Core/Error.antt =====
-- `RolekitError` of src/core/errors.ts, and results of code that may throw it.
use rolekit.Common.{
  Bool, true, false, ◌≡◌, refl, ◌⊎◌, inl, inr, Option, none, some, List, [], ◌∷◌, ◌++◌,
}
use rolekit.Common.Text.{Text, codes, join}
use rolekit.Core.Json.Data.{Json, arr, obj, end, field, texts}

pub data ErrorCode : Type 0 where
  duplicate_adapter duplicate_role duplicate_run invalid_contract invalid_schema : ErrorCode
  unknown_adapter unknown_role unsupported_output_schema : ErrorCode

pub record RolekitError : Type 0 where
  pub code : ErrorCode
  pub message : Text
  pub details : Option Json

pub data Result {ℓ} (A : Type ℓ) : Type ℓ where
  ok : A → Result A
  err : RolekitError → Result A

abbrev pub throw {ℓ} : {A : Type ℓ} → ErrorCode → Text → Result A
throw code message = err (record { code = code; message = message; details = none })

infixl 5 ◌>>=◌ ◌>>◌
-- The next statement runs on the value, and a thrown error ends the sequence.
abbrev pub ◌>>=◌ {κ ℓ} :
    {Value : Type κ} {Next : Type ℓ} → Result Value → (Value → Result Next) → Result Next
err thrown >>= next = err thrown
ok value >>= next = next value

-- A statement that only checks.
abbrev pub ◌>>◌ {ℓ} : {Next : Type ℓ} → Result (Unit {0}) → Result Next → Result Next
err thrown >> rest = err thrown
ok value >> rest = rest

-- `if (!test) throw new RolekitError('invalid_contract', message)`
abbrev pub require : Bool → Text → Result (Unit {0})
require true message = ok tt
require false message = throw invalid_contract message

-- `assertStrictContract`: the argument is what the schema's validator has to say.
abbrev pub assert_strict_contract : Text → List Text → Result (Unit {0})
assert_strict_contract label [] = ok tt
assert_strict_contract label (e ∷ es) = err (record {
  code = invalid_contract;
  message = label ++ (codes " is invalid: " ++ join (codes "; ") (e ∷ es));
  details = some (obj (field (codes "errors") (arr (texts (e ∷ es))) end));
})

pub Result-cases {ℓ} :
    {A : Type ℓ} (m : Result A) → ((a : A) × (m ≡ ok a)) ⊎ ((e : RolekitError) × (m ≡ err e))
Result-cases (ok a) = inl (a, refl)
Result-cases (err e) = inr (e, refl)

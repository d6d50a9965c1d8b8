-- ===== src/Core/Options/Tests.antt =====
-- Options at concrete values, and the theorems on them.
use rolekit.Common.{true, false, ◌≡◌, refl, none, some, [], ◌∷◌, All, arith}
use rolekit.Common.Text.{codes, includes, has, text_eq, decimal}
use rolekit.Common.SortedUnique.{text_leb}
use rolekit.Core.Json.Data.{Json, bool, str, num, arr, obj, nil, cons, end, field, member}
use rolekit.Core.Redact.JsonValue.{strings}
use rolekit.Core.Options.Pointers.{entries, sensitive_pointer_errors, replace_unit}
use rolekit.Core.Options.Safety.{visit, marker_errors, secrets_of, public_option_errors}
use rolekit.Core.Options.Prepared.{
  copied, Candidate, Prepared, validate_prepared_executor_options, prepared_errors, prepared_of,
  shape_errors, public_errors,
}
use rolekit.Core.Options.Clean.{public_option_errors_free, validate_prepared_executor_options_free}

-- A marker at the declared pointer, and a plain option.
abbrev safe : Json
safe = obj (
    field (codes "key")
      (obj
        (field (codes "source") (str (codes "literal")) (field (codes "redacted") (bool true) end)))
      (field (codes "level") (num (codes "3")) end))

-- The marker stands elsewhere, and an entry of an array holds the secret.
abbrev unsafe : Json
unsafe = obj (
    field (codes "a/b")
      (obj
        (field (codes "source") (str (codes "literal")) (field (codes "redacted") (bool true) end)))
      (field (codes "list") (arr (cons (str (codes "my hush")) nil)) end))

machine : Unit {0}
unfolding public_option_errors secrets_of text_eq sensitive_pointer_errors visit marker_errors
    decimal replace_unit text_leb member includes
machine = tt

safe_run :
    public_option_errors safe (codes "hush" ∷ []) (entries (some (codes "/key") ∷ [])) (codes "L")
    ≡ []
unfolding machine
safe_run = refl

unsafe_run :
    public_option_errors unsafe
      (codes "hush" ∷ [])
      (entries (some (codes "/key") ∷ some (codes "/key") ∷ none ∷ []))
      (codes "L")
    ≡ codes "adapter sensitiveOptionPointers repeats /key"
      ∷ codes "adapter sensitiveOptionPointers contains an invalid JSON Pointer"
      ∷ codes "L/a~1b contains a public secret marker outside an adapter-declared sensitive pointer"
      ∷ codes "L/list/0 contains a declared sensitive literal"
      ∷ []
unfolding machine
unsafe_run = refl

listed : has (codes "hush" ∷ []) (codes "hush") ≡ true
unfolding has text_eq
listed = refl

public_option_errors_free_example : All (λ t. includes t (codes "hush") ≡ false) (strings safe)
public_option_errors_free_example =
    public_option_errors_free safe (codes "hush" ∷ []) (entries (some (codes "/key") ∷ []))
      (codes "L") (codes "hush") safe_run listed (omega arith)

abbrev candidate : Candidate
candidate = record {
  value = copied (
      obj (
        field (codes "executionOptions") (str (codes "hush")) (
          field (codes "publicOptions") safe
            (field (codes "sensitiveValues") (arr (cons (str (codes "hush")) nil)) end))));
  unfrozen = [];
}

abbrev prepared : Prepared
prepared = record {
  execution_options = str (codes "hush");
  public_options = safe;
  sensitive_values = codes "hush" ∷ [];
  requested_provider = none;
  requested_model = none;
}

prepared_run :
    (validate_prepared_executor_options candidate (entries (some (codes "/key") ∷ []))).prepared
    ≡ some prepared
unfolding machine validate_prepared_executor_options prepared_errors prepared_of shape_errors
    public_errors
prepared_run = refl

validate_prepared_executor_options_free_example :
    All (λ t. includes t (codes "hush") ≡ false) (strings prepared.public_options)
validate_prepared_executor_options_free_example =
    validate_prepared_executor_options_free candidate (entries (some (codes "/key") ∷ [])) prepared
      (codes "hush") prepared_run listed (omega arith)

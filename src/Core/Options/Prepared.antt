-- ===== src/Core/Options/Prepared.antt =====
-- `validatePreparedExecutorOptions` and `preparedSensitiveValues` of src/core/validation.ts.
use rolekit.Common.{
  Bool, true, false, not, Option, none, some, List, [], ◌∷◌, ◌++◌, ltb, length, is_some, filter,
}
use rolekit.Common.Text.{Text, codes}
use rolekit.Core.Json.Data.{Json, null, str, arr, obj, Items, nil, cons, Fields, member}
use rolekit.Core.Options.Pointers.{Declared, sensitive_pointer_errors}
use rolekit.Core.Options.Safety.{public_option_errors}

-- What a value of unknown origin copies to: JSON data, or the message of the copy's error.
pub data Copied : Type 0 where
  copied : Json → Copied
  not_portable : Text → Copied

-- Options as an adapter returns them. The second field is what `frozenSnapshotErrors` finds on the
-- objects themselves, which their copy does not show.
pub record Candidate : Type 0 where
  pub value : Copied
  pub unfrozen : List Text

-- `PreparedExecutorOptions`
pub record Prepared : Type 0 where
  pub execution_options : Json
  pub public_options : Json
  pub sensitive_values : List Text
  pub requested_provider : Option Text
  pub requested_model : Option Text

abbrev pub error_if : Bool → Text → List Text
error_if true message = message ∷ []
error_if false message = []

abbrev pub is_object : Option Json → Bool
is_object (some (obj fs)) = true
is_object _ = false

abbrev all_strings : Items → Bool
all_strings nil = true
all_strings (cons (str t) xs) = all_strings xs
all_strings (cons _ xs) = false

abbrev is_string_array : Option Json → Bool
is_string_array (some (arr xs)) = all_strings xs
is_string_array _ = false

abbrev is_optional_string : Option Json → Bool
is_optional_string none = true
is_optional_string (some (str t)) = true
is_optional_string (some _) = false

-- The strings of an array.
unfoldable pub string_items : Items → List Text
string_items nil = []
string_items (cons (str t) xs) = t ∷ string_items xs
string_items (cons _ xs) = string_items xs

unfoldable pub strings_of : Option Json → List Text
unfolding string_items
strings_of (some (arr xs)) = string_items xs
strings_of _ = []

-- `preparedSensitiveValues`
unfoldable pub prepared_sensitive_values : Candidate → List Text
unfolding strings_of member
prepared_sensitive_values c = elim c.value [
  | copied (obj fs) ↦
      filter (λ t. ltb 0 (length t)) (strings_of (member (codes "sensitiveValues") fs))
  | _ ↦ []
]

-- What is wrong with the shape of the options.
unfoldable pub shape_errors : Fields → List Text
unfolding member
shape_errors fs =
    error_if (not (is_some (member (codes "executionOptions") fs)))
      (codes "Prepared executor options must include executionOptions")
    ++ (error_if (not (is_object (member (codes "publicOptions") fs)))
          (codes "Prepared executor options publicOptions must be a JSON object")
        ++ (error_if (not (is_string_array (member (codes "sensitiveValues") fs)))
              (codes "Prepared executor options sensitiveValues must be an array of strings")
            ++ (error_if (not (is_optional_string (member (codes "requestedProvider") fs)))
                  (codes "Prepared executor options requestedProvider must be a string")
                ++ error_if (not (is_optional_string (member (codes "requestedModel") fs)))
                    (codes "Prepared executor options requestedModel must be a string"))))

-- What is wrong with the public options, under the strings among the sensitive values.
unfoldable pub public_errors : Option Json → List Text → Declared → List Text
unfolding public_option_errors sensitive_pointer_errors
public_errors (some (obj fs)) sensitive_values pointers =
    public_option_errors (obj fs) sensitive_values pointers (codes "Prepared public options")
public_errors _ sensitive_values pointers = (sensitive_pointer_errors pointers).0

unfoldable pub prepared_errors : Fields → List Text → Declared → List Text
prepared_errors fs unfrozen pointers =
    shape_errors fs
    ++ (unfrozen
        ++ public_errors (member (codes "publicOptions") fs)
            (strings_of (member (codes "sensitiveValues") fs)) pointers)

abbrev pub or_null : Option Json → Json
or_null none = null
or_null (some j) = j

abbrev as_text : Option Json → Option Text
as_text (some (str t)) = some t
as_text _ = none

-- The options at their type, from the members.
unfoldable pub prepared_of : Fields → Prepared
unfolding strings_of member
prepared_of fs = record {
  execution_options = or_null (member (codes "executionOptions") fs);
  public_options = or_null (member (codes "publicOptions") fs);
  sensitive_values = strings_of (member (codes "sensitiveValues") fs);
  requested_provider = as_text (member (codes "requestedProvider") fs);
  requested_model = as_text (member (codes "requestedModel") fs);
}

pub record PreparedValidation : Type 0 where
  pub prepared : Option Prepared
  pub errors : List Text

abbrev pub checked_options : Fields → List Text → PreparedValidation
checked_options fs [] = record { prepared = some (prepared_of fs); errors = [] }
checked_options fs (e ∷ es) = record { prepared = none; errors = e ∷ es }

-- The options are valid where they are there.
unfoldable pub validate_prepared_executor_options : Candidate → Declared → PreparedValidation
validate_prepared_executor_options c pointers = elim c.value [
  | not_portable message ↦ record { prepared = none; errors = message ∷ [] }
  | copied (obj fs) ↦ checked_options fs (prepared_errors fs c.unfrozen pointers)
  | copied _ ↦ record {
    prepared = none;
    errors = codes "Prepared executor options must be a JSON object" ∷ [];
  }
]

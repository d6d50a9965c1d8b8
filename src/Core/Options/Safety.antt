-- ===== src/Core/Options/Safety.antt =====
-- `validatePublicOptionSafety` of src/core/validation.ts, on JSON data.
use rolekit.Common.{ℕ, ◌+◌, Bool, not, List, [], ◌∷◌, ◌++◌, if◌then◌else◌, any, filter, ltb, length}
use rolekit.Common.Text.{Text, codes, includes, dedupe, decimal}
use rolekit.Core.Json.Data.{
  Json, null, bool, num, str, arr, obj, Items, nil, cons, Fields, end, field,
}
use rolekit.Core.Options.Pointers.{
  json_pointer, looks_like_marker, is_marker, Declared, sensitive_pointer_errors,
  pointer_is_declared,
}

abbrev or_root : Text → Text
or_root [] = codes "/"
or_root (c ∷ t) = c ∷ t

abbrev error_at : Text → Text → Text → List Text
error_at label pointer message = (label ++ (pointer ++ message)) ∷ []

-- The sensitive values that are not empty, each once.
unfoldable pub secrets_of : List Text → List Text
unfolding dedupe
secrets_of values = filter (λ v. ltb 0 (length v)) (dedupe values)

abbrev pub leaks : List Text → Text → Bool
leaks secrets t = any (λ s. includes t s) secrets

-- What `visit` pushes of an object before it looks at the members.
unfoldable pub marker_errors : Text → List Text → Text → Fields → List Text
unfolding looks_like_marker is_marker pointer_is_declared
marker_errors label pointers pointer fs =
    if not (looks_like_marker fs)
    then []
    else if not (is_marker fs)
    then error_at label (or_root pointer) (codes " contains an invalid public secret marker")
    else if not (pointer_is_declared pointer pointers)
    then error_at label (or_root pointer)
        (codes " contains a public secret marker outside an adapter-declared sensitive pointer")
    else []

-- The function `visit`: the errors below a value at a pointer, in the order that they are pushed.
module _ (label : Text) (secrets pointers : List Text) where
  unfoldable mutual
    unfolding marker_errors json_pointer decimal

    pub visit : Json → Text → List Text
    visit (str t) pointer =
        if leaks secrets t
        then error_at label (or_root pointer) (codes " contains a declared sensitive literal")
        else []
    visit null pointer = []
    visit (bool b) pointer = []
    visit (num t) pointer = []
    visit (arr xs) pointer = visit_items xs pointer 0
    visit (obj fs) pointer = marker_errors label pointers pointer fs ++ visit_fields fs pointer

    pub visit_items : Items → Text → ℕ → List Text
    visit_items nil pointer index = []
    visit_items (cons x xs) pointer index =
        visit x (json_pointer pointer (decimal index)) ++ visit_items xs pointer (index + 1)

    pub visit_fields : Fields → Text → List Text
    visit_fields end pointer = []
    visit_fields (field k v fs) pointer =
        (if leaks secrets k
          then error_at label (json_pointer pointer k)
              (codes " contains a declared sensitive literal in a key")
          else [])
        ++ (visit v (json_pointer pointer k) ++ visit_fields fs pointer)

-- The errors; the value is valid where there are none.
unfoldable pub public_option_errors : Json → List Text → Declared → Text → List Text
unfolding visit secrets_of sensitive_pointer_errors
public_option_errors value sensitive_values pointers label =
    (sensitive_pointer_errors pointers).0
    ++ visit label (secrets_of sensitive_values) (sensitive_pointer_errors pointers).1 value []

-- ===== src/Core/Options/Pointers.antt =====
-- JSON Pointers and public secret markers of src/core/validation.ts.
use rolekit.Common.{
  ℕ, Bool, true, false, not, ◌&&◌, ◌||◌, Option, none, some, List, [], ◌∷◌, ◌++◌, if◌then◌else◌,
  any, ltb, length, is_some, ◌==◌,
}
use rolekit.Common.Text.{Text, codes, text_eq, has, starts_with}
use rolekit.Common.Sort.{sort_by}
use rolekit.Common.SortedUnique.{text_leb}
use rolekit.Core.Json.Data.{Json, bool, str, Fields, member, keys}

-- `text.replaceAll(unit, by)`
unfoldable pub replace_unit : ℕ → Text → Text → Text
replace_unit u by [] = []
replace_unit u by (c ∷ t) =
    let rest = replace_unit u by t in if c == u then by ++ rest else c ∷ rest

-- `jsonPointer`
unfoldable pub json_pointer : Text → Text → Text
unfolding replace_unit
json_pointer path key =
    path ++ (47 ∷ replace_unit 47 (codes "~1") (replace_unit 126 (codes "~0") key))

abbrev is_true : Option Json → Bool
is_true (some (bool b)) = b
is_true _ = false

abbrev is_text : Text → Option Json → Bool
is_text t (some (str s)) = text_eq s t
is_text t _ = false

-- `looksLikeMarker` on an object
unfoldable pub looks_like_marker : Fields → Bool
unfolding member
looks_like_marker fs =
    is_true (member (codes "redacted") fs) && is_some (member (codes "source") fs)

-- One text list equal to another.
unfoldable pub same_list : List Text → List Text → Bool
unfolding text_eq
same_list [] [] = true
same_list (x ∷ xs) (y ∷ ys) = text_eq x y && same_list xs ys
same_list _ _ = false

abbrev sorted_keys : Fields → List Text
sorted_keys fs = sort_by text_leb (keys fs)

abbrev is_filled_text : Option Json → Bool
is_filled_text (some (str s)) = ltb 0 (length s)
is_filled_text _ = false

-- Whether `markerAt` finds a marker at an object.
unfoldable pub is_marker : Fields → Bool
unfolding member keys same_list sort_by text_leb
is_marker fs =
    is_true (member (codes "redacted") fs)
    && ((is_text (codes "literal") (member (codes "source") fs)
          && same_list (sorted_keys fs) (codes "redacted" ∷ codes "source" ∷ []))
        || (is_text (codes "env") (member (codes "source") fs)
            && (is_filled_text (member (codes "name") fs)
                && same_list (sorted_keys fs)
                    (codes "name" ∷ codes "redacted" ∷ codes "source" ∷ []))))

-- What an adapter has as `sensitiveOptionPointers`; an entry is none where it is not a string.
pub data Declared : Type 0 where
  undeclared not_an_array : Declared
  entries : List (Option Text) → Declared

-- `/~(?:[^01]|$)/u`: a tilde that is not followed by 0 or 1
unfoldable pub has_bad_escape : Text → Bool
has_bad_escape [] = false
has_bad_escape (c ∷ []) = c == 126
has_bad_escape (c ∷ d ∷ t) = (c == 126 && not (d == 48 || d == 49)) || has_bad_escape (d ∷ t)

abbrev pub PointerErrors : Type 0
PointerErrors = List Text × List Text

abbrev valid_pointer : Text → Bool
valid_pointer p = starts_with p (codes "/") && not (has_bad_escape p)

abbrev invalid_pointer : Text
invalid_pointer = codes "adapter sensitiveOptionPointers contains an invalid JSON Pointer"

-- The loop of `sensitivePointerErrors`: the pointers seen, and what is pushed, the errors first.
unfoldable pub pointer_errors_from : List Text → List (Option Text) → PointerErrors
unfolding has starts_with has_bad_escape
pointer_errors_from seen [] = ([], [])
pointer_errors_from seen (none ∷ ps) =
    let rest = pointer_errors_from seen ps in (invalid_pointer ∷ rest.0, rest.1)
pointer_errors_from seen (some p ∷ ps) =
    let skipped = pointer_errors_from seen ps in
    let kept = pointer_errors_from (p ∷ seen) ps in
    if not (valid_pointer p)
    then (invalid_pointer ∷ skipped.0, skipped.1)
    else if has seen p
    then ((codes "adapter sensitiveOptionPointers repeats " ++ p) ∷ skipped.0, skipped.1)
    else (kept.0, p ∷ kept.1)

unfoldable pub sensitive_pointer_errors : Declared → PointerErrors
unfolding pointer_errors_from
sensitive_pointer_errors undeclared = ([], [])
sensitive_pointer_errors not_an_array =
    (codes "adapter sensitiveOptionPointers must be an array of JSON Pointers" ∷ [], [])
sensitive_pointer_errors (entries ps) = pointer_errors_from [] ps

-- `pointerIsDeclared`
unfoldable pub pointer_is_declared : Text → List Text → Bool
unfolding text_eq starts_with
pointer_is_declared pointer declarations =
    any (λ d. text_eq pointer d || starts_with pointer (d ++ codes "/")) declarations

-- ===== src/Core/Redact/Replace.antt =====
-- `redactSensitiveText` of src/core/validation.ts.
use rolekit.Common.{ℕ, zero, suc, ◌-◌, Bool, List, [], ◌∷◌, ◌++◌, if◌then◌else◌, leb, ltb, length}
use rolekit.Common.Text.{Text, codes, starts_with, dedupe}
use rolekit.Common.Sort.{sort_by}

-- `text.split(separator).join(marker)` for a separator that is not empty: its occurrences from left
-- to right, none inside another. The number counts what is left to skip of the last occurrence.
unfoldable pub replace_from : Text → Text → ℕ → Text → Text
unfolding starts_with
replace_from separator marker skip [] = []
replace_from separator marker (suc skip) (c ∷ text) = replace_from separator marker skip text
replace_from separator marker zero (c ∷ text) =
    let hit = marker ++ replace_from separator marker (length separator - 1) text in
    let miss = c ∷ replace_from separator marker zero text in
    if starts_with (c ∷ text) separator then hit else miss

abbrev pub redacted : Text
redacted = codes "[REDACTED]"

-- `right.length - left.length <= 0`: longer values come first.
abbrev pub longer_first : Text → Text → Bool
longer_first left right = leb (length right) (length left)

-- The loop of `redactSensitiveText`, over the sorted values.
unfoldable pub redact_each : List Text → Text → Text
unfolding replace_from
redact_each [] text = text
redact_each (value ∷ values) text =
    redact_each values (if ltb 0 (length value) then replace_from value redacted 0 text else text)

unfoldable pub redact_sensitive_text : Text → List Text → Text
unfolding redact_each dedupe sort_by
redact_sensitive_text text sensitive_values =
    redact_each (sort_by longer_first (dedupe sensitive_values)) text

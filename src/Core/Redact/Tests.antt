-- ===== src/Core/Redact/Tests.antt =====
-- Redactions at concrete texts, and the theorem on them.
use rolekit.Common.{All, true, false, ◌≡◌, refl, List, [], ◌∷◌, arith}
use rolekit.Common.Text.{Text, codes, includes, has, text_eq}
use rolekit.Core.Json.Data.{bool, num, str, arr, obj, nil, cons, end, field, Json}
use rolekit.Core.Redact.JsonValue.{
  redact_sensitive_json_value, strings, redact_sensitive_json_value_absent,
}
use rolekit.Core.Redact.Replace.{redact_sensitive_text}
use rolekit.Core.Redact.Absent.{redact_sensitive_text_absent}

-- One value is part of the other: the longer one goes first.
abbrev values : List Text
values = codes "key" ∷ codes "key-12" ∷ []

redact_run :
    redact_sensitive_text (codes "a key-12 is a key") values ≡ codes "a [REDACTED] is a [REDACTED]"
unfolding redact_sensitive_text text_eq
redact_run = refl

listed : has values (codes "key") ≡ true
unfolding has text_eq
listed = refl

redact_sensitive_text_absent_example :
    includes (redact_sensitive_text (codes "a key-12 is a key") values) (codes "key") ≡ false
redact_sensitive_text_absent_example =
    redact_sensitive_text_absent (codes "a key-12 is a key") values (codes "key") (omega arith)
      (ground arith) listed

-- Two keys that become one.
abbrev document : Json
document = obj (
    field (codes "key") (num (codes "1")) (
      field (codes "a") (arr (cons (str (codes "my key-12")) nil))
        (field (codes "key-12") (bool true) end)))

document_run :
    redact_sensitive_json_value document values
    ≡ obj (
        field
          (codes "[REDACTED]")
          (bool true)
          (field (codes "a") (arr (cons (str (codes "my [REDACTED]")) nil)) end))
unfolding redact_sensitive_json_value redact_sensitive_text text_eq
document_run = refl

redact_sensitive_json_value_absent_example :
    All
      (λ t. includes t (codes "key") ≡ false)
      (strings (redact_sensitive_json_value document values))
redact_sensitive_json_value_absent_example =
    redact_sensitive_json_value_absent values (codes "key") listed (omega arith) (ground arith)
      document

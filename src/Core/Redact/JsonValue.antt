-- ===== src/Core/Redact/JsonValue.antt =====
-- `redactSensitiveJsonValue` of src/core/validation.ts, on JSON data: a value that cannot be copied as
-- JSON is returned as it is by the source, and is no value of this model.
use rolekit.Common.{
  ◌<◌, true, false, ◌≡◌, inl, inr, List, [], ◌∷◌, ◌++◌, if◌then◌else◌, length, all, arith, All,
  All-append, All-left, All-right, Bool-cases, ◌==◌,
}
use rolekit.Common.Text.{Text, includes, has, text_eq, text_eq_sound}
use rolekit.Core.Json.Data.{
  Json, null, bool, num, str, arr, obj, Items, nil, cons, Fields, end, field, assign,
}
use rolekit.Core.Redact.Replace.{redacted, redact_sensitive_text}
use rolekit.Core.Redact.Absent.{IsDisjoint, redact_sensitive_text_absent}

-- `Object.fromEntries` sets the members one after the other: of two keys that become equal the second
-- one's value stays, at the first one's place.
unfoldable mutual
  unfolding redact_sensitive_text assign

  pub redact_json_value : Json → List Text → Json
  redact_json_value (str t) values = str (redact_sensitive_text t values)
  redact_json_value null values = null
  redact_json_value (bool b) values = bool b
  redact_json_value (num t) values = num t
  redact_json_value (arr xs) values = arr (redact_items xs values)
  redact_json_value (obj fs) values = obj (redact_entries fs values end)

  pub redact_items : Items → List Text → Items
  redact_items nil values = nil
  redact_items (cons x xs) values = cons (redact_json_value x values) (redact_items xs values)

  pub redact_entries : Fields → List Text → Fields → Fields
  redact_entries end values done = done
  redact_entries (field k v fs) values done =
      redact_entries fs values
        (assign (redact_sensitive_text k values) (redact_json_value v values) done)

unfoldable pub redact_sensitive_json_value : Json → List Text → Json
unfolding redact_json_value
redact_sensitive_json_value value values =
    if all (λ v. length v == 0) values then value else redact_json_value value values

-- Every string of a JSON value, keys included.
unfoldable mutual
  pub strings : Json → List Text
  strings (str t) = t ∷ []
  strings null = []
  strings (bool b) = []
  strings (num t) = []
  strings (arr xs) = item_strings xs
  strings (obj fs) = field_strings fs

  pub item_strings : Items → List Text
  item_strings nil = []
  item_strings (cons x xs) = strings x ++ item_strings xs

  pub field_strings : Fields → List Text
  field_strings end = []
  field_strings (field k v fs) = k ∷ (strings v ++ field_strings fs)

-- Setting a member adds no string but its own.
assign-strings :
    (P : Text → Type 0) (key : Text) (value : Json) (fs : Fields)
    → P key
    → All P (strings value)
    → All P (field_strings fs)
    → All P (field_strings (assign key value fs))
unfolding assign strings
assign-strings P key value end p q h = (p, All-append P (strings value) [] q tt)
assign-strings P key value (field k v fs) p q (a, h) = elim (Bool-cases (text_eq k key)) [
  | inl same ↦
      rw (assign, same)
        (a, All-append P (strings value) (field_strings fs) q (All-right P (strings v) _ h))
  | inr other ↦
      rw (assign, other)
        (
          a,
          All-append P (strings v) _ (All-left P (strings v) _ h)
              (assign-strings P key value fs p q (All-right P (strings v) _ h)),
        )
]

module _ (values : List Text) (value : Text) (there : has values value ≡ true)
    (filled : 0 < length value) (apart : IsDisjoint redacted value) where
  abbrev IsFree : Text → Type 0
  IsFree t = includes t value ≡ false

  cleaned : (t : Text) → IsFree (redact_sensitive_text t values)
  cleaned t = redact_sensitive_text_absent t values value filled apart there

  mutual
    unfolding strings redact_json_value

    json-IsFree : (j : Json) → All IsFree (strings (redact_json_value j values))
    json-IsFree (str t) = (cleaned t, tt)
    json-IsFree null = tt
    json-IsFree (bool b) = tt
    json-IsFree (num t) = tt
    json-IsFree (arr xs) = items-IsFree xs
    json-IsFree (obj fs) = entries-IsFree fs end tt

    items-IsFree : (xs : Items) → All IsFree (item_strings (redact_items xs values))
    items-IsFree nil = tt
    items-IsFree (cons x xs) =
        All-append IsFree (strings (redact_json_value x values))
          (item_strings (redact_items xs values)) (json-IsFree x) (items-IsFree xs)

    entries-IsFree :
        (fs done : Fields)
        → All IsFree (field_strings done)
        → All IsFree (field_strings (redact_entries fs values done))
    entries-IsFree end done h = h
    entries-IsFree (field k v fs) done h =
        entries-IsFree fs
          (assign (redact_sensitive_text k values) (redact_json_value v values) done)
          (assign-strings IsFree (redact_sensitive_text k values) (redact_json_value v values) done
            (cleaned k) (json-IsFree v) h)

  some_filled : (vs : List Text) → has vs value ≡ true → all (λ v. length v == 0) vs ≡ false
  unfolding has
  some_filled [] h = absurd (ground arith)
  some_filled (v ∷ vs) h = elim (Bool-cases (text_eq v value)) [
    | inl same ↦ let long : 0 < length v = rw (text_eq_sound v value same) filled in ground arith
    | inr other ↦ ground (arith, some_filled vs)
  ]

  -- A sensitive value that is not empty and shares no code unit with the marker "[REDACTED]" occurs in no
  -- string and in no key of the redacted JSON value.
  pub redact_sensitive_json_value_absent :
      (j : Json)
      → All (λ t. includes t value ≡ false) (strings (redact_sensitive_json_value j values))
  unfolding redact_sensitive_json_value
  redact_sensitive_json_value_absent j = rw (some_filled values there) (json-IsFree j)

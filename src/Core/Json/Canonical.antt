-- ===== src/Core/Json/Canonical.antt =====
-- `canonicalJson` of src/core/json.ts: the text of JSON data with sorted keys and no spaces.
use rolekit.Common.{
  ℕ, ◌+◌, ◌/◌, ◌%◌, Bool, true, false, ◌&&◌, ◌||◌, List, [], ◌∷◌, ◌++◌, if◌then◌else◌, ltb, leb,
  ◌==◌, ◌≡◌, refl,
}
use rolekit.Common.Text.{Text, codes, join}
use rolekit.Common.Sort.{sort_by}
use rolekit.Common.SortedUnique.{text_leb}
use rolekit.Core.Json.Data.{
  Json, null, bool, num, str, arr, obj, Items, nil, cons, Fields, end, field,
}

-- A lower-case hexadecimal digit.
hex_digit : ℕ → ℕ
hex_digit n = if ltb n 10 then 48 + n else 87 + n

unicode_escape : ℕ → Text
unfolding hex_digit
unicode_escape c =
    codes "\\u"
    ++ (hex_digit (c / 4096)
        ∷ hex_digit (c / 256 % 16)
        ∷ hex_digit (c / 16 % 16)
        ∷ hex_digit (c % 16)
        ∷ [])

abbrev is_high : ℕ → Bool
is_high c = leb 55296 c && leb c 56319

abbrev is_low : ℕ → Bool
is_low c = leb 56320 c && leb c 57343

-- One code unit that is no half of a surrogate pair.
escape_unit : ℕ → Text
unfolding unicode_escape
escape_unit c =
    if c == 34
    then codes "\\\""
    else if c == 92
    then codes "\\\\"
    else if c == 8
    then codes "\\b"
    else if c == 12
    then codes "\\f"
    else if c == 10
    then codes "\\n"
    else if c == 13
    then codes "\\r"
    else if c == 9
    then codes "\\t"
    else if ltb c 32 || is_high c || is_low c
    then unicode_escape c
    else c ∷ []

-- A surrogate pair stands as it is; a lone surrogate is escaped.
unfoldable pub escape : Text → Text
unfolding escape_unit
escape [] = []
escape (c ∷ []) = escape_unit c
escape (c ∷ d ∷ t) =
    let paired = c ∷ d ∷ escape t in
    let single = escape_unit c ++ escape (d ∷ t) in if is_high c && is_low d then paired else single

-- `JSON.stringify(text)`
unfoldable pub stringify : Text → Text
unfolding escape
stringify t = 34 ∷ (escape t ++ (34 ∷ []))

-- The order of members: by key.
abbrev key_order : Text × Text → Text × Text → Bool
key_order a b = text_leb a.0 b.0

-- `"key":value` for each member
unfoldable pub member_texts : List (Text × Text) → List Text
unfolding stringify
member_texts [] = []
member_texts ((k, v) ∷ ms) = (stringify k ++ (58 ∷ v)) ∷ member_texts ms

unfoldable mutual
  unfolding stringify member_texts sort_by join text_leb

  pub encode_canonical : Json → Text
  encode_canonical null = codes "null"
  encode_canonical (bool true) = codes "true"
  encode_canonical (bool false) = codes "false"
  encode_canonical (num t) = t
  encode_canonical (str t) = stringify t
  encode_canonical (arr xs) = 91 ∷ (join (codes ",") (encode_items xs) ++ (93 ∷ []))
  encode_canonical (obj fs) =
      123 ∷ (join (codes ",") (member_texts (sort_by key_order (encode_fields fs))) ++ (125 ∷ []))

  pub encode_items : Items → List Text
  encode_items nil = []
  encode_items (cons x xs) = encode_canonical x ∷ encode_items xs

  -- each member's key with the text of its value
  pub encode_fields : Fields → List (Text × Text)
  encode_fields end = []
  encode_fields (field k v fs) = (k, encode_canonical v) ∷ encode_fields fs

sample :
    encode_canonical (
      obj (
        field
          (codes "b")
          (arr (cons null (cons (num (codes "1")) nil)))
          (field (codes "a") (str (codes "x\"")) end)))
    ≡ codes "{\"a\":\"x\\\"\",\"b\":[null,1]}"
unfolding encode_canonical
sample = refl

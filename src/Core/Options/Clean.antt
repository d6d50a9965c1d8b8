-- ===== src/Core/Options/Clean.antt =====
-- Options that pass hold no sensitive value.
use rolekit.Common.{
  ℕ, ◌+◌, ◌<◌, Bool, true, false, not, ◌≡◌, refl, ap, ◌∙◌, inl, inr, Option, none, some, List, [],
  ◌∷◌, ◌++◌, filter, ltb, length, arith, All, All-append, Bool-cases,
}
use rolekit.Common.Text.{Text, codes, includes, dedupe, decimal, has, text_eq, text_eq_sound}
use rolekit.Common.Sort.{has-dedupe}
use rolekit.Core.Json.Data.{
  Json, null, bool, num, str, arr, obj, Items, nil, cons, Fields, end, field, member,
}
use rolekit.Core.Redact.JsonValue.{strings, item_strings, field_strings}
use rolekit.Core.Options.Pointers.{json_pointer, Declared, sensitive_pointer_errors}
use rolekit.Core.Options.Safety.{
  secrets_of, leaks, visit, visit_items, visit_fields, public_option_errors,
}
use rolekit.Core.Options.Prepared.{
  Copied, copied, not_portable, Candidate, Prepared, is_object, or_null, error_if, strings_of,
  shape_errors, public_errors, prepared_errors, prepared_of, checked_options,
  validate_prepared_executor_options,
}

pub append_nothing {ℓ} : {A : Type ℓ} (xs ys : List A) → (xs ++ ys) ≡ [] → (xs ≡ []) × (ys ≡ [])
append_nothing [] ys h = (refl, h)
append_nothing (x ∷ xs) ys h = absurd (cc)

has_secret :
    (values : List Text) (value : Text)
    → has values value ≡ true
    → 0 < length value
    → has (filter (λ v. ltb 0 (length v)) values) value ≡ true
unfolding has
has_secret [] value h p = h
has_secret (v ∷ vs) value h p = elim (Bool-cases (text_eq v value)) [
  | inl same ↦ let e = text_eq_sound v value same in ground arith
  | inr other ↦ ground (arith, has_secret vs value)
]

not_leaked :
    (secrets : List Text) (value t : Text)
    → has secrets value ≡ true
    → leaks secrets t ≡ false
    → includes t value ≡ false
unfolding has
not_leaked [] value t h p = absurd (ground arith)
not_leaked (s ∷ ss) value t h p = elim (Bool-cases (text_eq s value)) [
  | inl same ↦ rw (← text_eq_sound s value same) (ground arith)
  | inr other ↦ not_leaked ss value t (ground arith) (ground arith)
]

module _ (label : Text) (secrets pointers : List Text) (value : Text)
    (there : has secrets value ≡ true) where
  abbrev IsFree : Text → Type 0
  IsFree t = includes t value ≡ false

  mutual
    unfolding strings visit

    visit-IsFree :
        (j : Json) (pointer : Text)
        → visit label secrets pointers j pointer ≡ []
        → All IsFree (strings j)
    visit-IsFree (str t) pointer h = (not_leaked secrets value t there (ground arith), tt)
    visit-IsFree null pointer h = tt
    visit-IsFree (bool b) pointer h = tt
    visit-IsFree (num t) pointer h = tt
    visit-IsFree (arr xs) pointer h = items-IsFree xs pointer 0 h
    visit-IsFree (obj fs) pointer h = fields-IsFree fs pointer (append_nothing _ _ h).1

    items-IsFree :
        (xs : Items) (pointer : Text) (n : ℕ)
        → visit_items label secrets pointers xs pointer n ≡ []
        → All IsFree (item_strings xs)
    items-IsFree nil pointer n h = tt
    items-IsFree (cons x xs) pointer n h =
        let (a, b) = append_nothing _ _ h in
        All-append IsFree (strings x) (item_strings xs)
          (visit-IsFree x (json_pointer pointer (decimal n)) a) (items-IsFree xs pointer (n + 1) b)

    fields-IsFree :
        (fs : Fields) (pointer : Text)
        → visit_fields label secrets pointers fs pointer ≡ []
        → All IsFree (field_strings fs)
    fields-IsFree end pointer h = tt
    fields-IsFree (field k v fs) pointer h =
        let (a, rest) = append_nothing _ _ h in
        let (b, c) = append_nothing _ _ rest in
        (
          not_leaked secrets value k there (ground arith),
          All-append IsFree (strings v) (field_strings fs)
              (visit-IsFree v (json_pointer pointer k) b) (fields-IsFree fs pointer c),
        )

secrets_of-has :
    (values : List Text) (value : Text)
    → has values value ≡ true
    → 0 < length value
    → has (secrets_of values) value ≡ true
unfolding secrets_of
secrets_of-has values value h p = has_secret (dedupe values) value (has-dedupe values value ∙ h) p

-- Public options that `validatePublicOptionSafety` finds no error in hold no sensitive value that is not
-- empty, in no string and in no key.
pub public_option_errors_free :
    (value : Json) (sensitive_values : List Text) (pointers : Declared) (label secret : Text)
    → public_option_errors value sensitive_values pointers label ≡ []
    → has sensitive_values secret ≡ true
    → 0 < length secret
    → All (λ t. includes t secret ≡ false) (strings value)
unfolding public_option_errors
public_option_errors_free value sensitive_values pointers label secret h there p =
    visit-IsFree label (secrets_of sensitive_values) (sensitive_pointer_errors pointers).1 secret
      (secrets_of-has sensitive_values secret there p) value [] (append_nothing _ _ h).1

checked_of :
    (fs : Fields) (es : List Text) (p : Prepared)
    → (checked_options fs es).prepared ≡ some p
    → (es ≡ []) × (prepared_of fs ≡ p)
checked_of fs [] p h = (refl, ground arith)
checked_of fs (e ∷ es) p h = absurd (ground arith)

object_of : (o : Option Json) → is_object o ≡ true → (gs : Fields) × (o ≡ some (obj gs))
object_of none h = absurd (ground arith)
object_of (some null) h = absurd (ground arith)
object_of (some (bool b)) h = absurd (ground arith)
object_of (some (num t)) h = absurd (ground arith)
object_of (some (str t)) h = absurd (ground arith)
object_of (some (arr xs)) h = absurd (ground arith)
object_of (some (obj gs)) h = (gs, refl)

nothing_wrong : (b : Bool) (message : Text) → error_if (not b) message ≡ [] → b ≡ true
nothing_wrong b message h = ground arith

-- Where the shape is right, the public options are an object.
shape_of_public :
    (fs : Fields)
    → shape_errors fs ≡ []
    → (gs : Fields) × (member (codes "publicOptions") fs ≡ some (obj gs))
unfolding shape_errors
shape_of_public fs h =
    let (first, more) = append_nothing _ _ h in
    let (second, rest) = append_nothing _ _ more in
    object_of (member (codes "publicOptions") fs) (nothing_wrong _ _ second)

public_free :
    (o : Option Json) (gs : Fields) (values : List Text) (pointers : Declared) (secret : Text)
    → o ≡ some (obj gs)
    → public_errors o values pointers ≡ []
    → has values secret ≡ true
    → 0 < length secret
    → All (λ t. includes t secret ≡ false) (strings (or_null o))
unfolding public_errors
public_free (some (obj fs)) gs values pointers secret e h there p =
    public_option_errors_free (obj fs) values pointers (codes "Prepared public options") secret h
      there p
public_free none gs values pointers secret e h there p = absurd (ground arith)
public_free (some null) gs values pointers secret e h there p = absurd (ground arith)
public_free (some (bool b)) gs values pointers secret e h there p = absurd (ground arith)
public_free (some (num t)) gs values pointers secret e h there p = absurd (ground arith)
public_free (some (str t)) gs values pointers secret e h there p = absurd (ground arith)
public_free (some (arr xs)) gs values pointers secret e h there p = absurd (ground arith)

options_free :
    (fs : Fields) (unfrozen : List Text) (pointers : Declared) (secret : Text)
    → prepared_errors fs unfrozen pointers ≡ []
    → has (prepared_of fs).sensitive_values secret ≡ true
    → 0 < length secret
    → All (λ t. includes t secret ≡ false) (strings (prepared_of fs).public_options)
unfolding prepared_errors prepared_of
options_free fs unfrozen pointers secret h there p =
    let parts =
      append_nothing (shape_errors fs)
        (unfrozen
          ++ public_errors (member (codes "publicOptions") fs)
              (strings_of (member (codes "sensitiveValues") fs)) pointers)
        h in
    let public =
      append_nothing unfrozen
        (public_errors (member (codes "publicOptions") fs)
          (strings_of (member (codes "sensitiveValues") fs)) pointers)
        parts.1 in
    let (gs, here) = shape_of_public fs parts.0 in
    public_free (member (codes "publicOptions") fs) gs
      (strings_of (member (codes "sensitiveValues") fs)) pointers secret here public.1 there p

candidate_free :
    (v : Copied) (u : List Text) (pointers : Declared) (p : Prepared) (secret : Text)
    → (validate_prepared_executor_options (record { value = v; unfrozen = u }) pointers).prepared
      ≡ some p
    → has p.sensitive_values secret ≡ true
    → 0 < length secret
    → All (λ t. includes t secret ≡ false) (strings p.public_options)
unfolding validate_prepared_executor_options
candidate_free (not_portable m) u pointers p secret h there q = absurd (ground arith)
candidate_free (copied null) u pointers p secret h there q = absurd (ground arith)
candidate_free (copied (bool b)) u pointers p secret h there q = absurd (ground arith)
candidate_free (copied (num t)) u pointers p secret h there q = absurd (ground arith)
candidate_free (copied (str t)) u pointers p secret h there q = absurd (ground arith)
candidate_free (copied (arr xs)) u pointers p secret h there q = absurd (ground arith)
candidate_free (copied (obj fs)) u pointers p secret h there q =
    let (fine, same) = checked_of fs (prepared_errors fs u pointers) p h in
    rw (← same) (
      options_free fs u pointers secret fine
        (ap (λ (x : Prepared). has x.sensitive_values secret) same ∙ there) q)

-- Prepared options that pass the validation show none of their own sensitive values, if it is not empty,
-- in any string or key of the public options.
pub validate_prepared_executor_options_free :
    (c : Candidate) (pointers : Declared) (p : Prepared) (secret : Text)
    → (validate_prepared_executor_options c pointers).prepared ≡ some p
    → has p.sensitive_values secret ≡ true
    → 0 < length secret
    → All (λ t. includes t secret ≡ false) (strings p.public_options)
validate_prepared_executor_options_free c pointers p secret h there q =
    candidate_free c.value c.unfrozen pointers p secret h there q

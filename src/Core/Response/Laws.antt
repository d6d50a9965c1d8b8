-- ===== src/Core/Response/Laws.antt =====
-- Which responses `validateExecutorResponse` accepts.
use rolekit.Common.{
  Bool, true, false, ◌≡◌, refl, ◌↔◌, Option, none, some, List, [], ◌∷◌, ◌++◌, if◌then◌else◌, map,
  All, arith, ℕ, ◌⊎◌, inl, inr,
}
use rolekit.Common.Text.{Text}
use rolekit.Common.Trim.{IsPrinted, length-trim_iff}
use rolekit.Core.Json.Data.{Json}
use rolekit.Core.Response.Data.{
  RunStatus, completed, failed, blocked, cancelled, JsNumber, natural, fraction, negative,
  not_finite, Content, absent, text, structured, TokenUsage, Artifact, ExecutorResponse,
}
use rolekit.Common.SortedUnique.{IsDistinct}
use rolekit.Core.Response.Distinct.{duplicate_values-eq-nil_iff}
use rolekit.Core.Response.Validate.{
  duplicate_values, usage_error, output_errors, semantic_valid, is_count, is_measure, usage_errors,
  is_blank, content_errors, duplicate_errors, Snapshot, response_errors, validate_executor_response,
}
use rolekit.Core.Response.Coherent.{IsCoherent, IsCoherent-of, semantic_valid-of}

blank_iff : (b : Bool) (message : Text) → ((if b then message ∷ [] else []) ≡ []) ↔ (b ≡ false)
blank_iff b message = ground arith

append-eq-nil_iff {ℓ} : {A : Type ℓ} (xs ys : List A) → ((xs ++ ys) ≡ []) ↔ ((xs ≡ []) × (ys ≡ []))
append-eq-nil_iff [] ys = ((λ h. (refl, h)), (λ h. h.1))
append-eq-nil_iff (x ∷ xs) ys = ((λ h. absurd (cc)), (λ h. absurd (cc)))

-- A value that is there is such a number.
abbrev pub Fits : (JsNumber → Type 0) → Option JsNumber → Type 0
Fits P none = Unit
Fits P (some v) = P v

abbrev pub IsCount : JsNumber → Type 0
IsCount v = (n : ℕ) × (v ≡ natural n)

-- A finite number that is not negative.
abbrev pub IsMeasure : JsNumber → Type 0
IsMeasure v = IsCount v ⊎ ((t : Text) × (v ≡ fraction t))

is_count_iff : (v : JsNumber) → (is_count v ≡ true) ↔ IsCount v
is_count_iff (natural n) = ((λ _. (n, refl)), (λ _. refl))
is_count_iff (fraction t) = ((λ h. absurd (ground arith)), (λ (n, e). absurd (cc)))
is_count_iff (negative t) = ((λ h. absurd (ground arith)), (λ (n, e). absurd (cc)))
is_count_iff not_finite = ((λ h. absurd (ground arith)), (λ (n, e). absurd (cc)))

measure_of : (v : JsNumber) → IsMeasure v → is_measure v ≡ true
measure_of v (inl (n, e)) = rw e refl
measure_of v (inr (t, e)) = rw e refl

is_measure_iff : (v : JsNumber) → (is_measure v ≡ true) ↔ IsMeasure v
is_measure_iff v = ((λ h. of_test v h), measure_of v)
  where
    of_test : (v : JsNumber) → is_measure v ≡ true → IsMeasure v
    of_test (natural n) h = inl (n, refl)
    of_test (fraction t) h = inr (t, refl)
    of_test (negative t) h = absurd (ground arith)
    of_test not_finite h = absurd (ground arith)

-- Token counts are natural numbers, and measures are finite and not negative.
abbrev pub IsSoundUsage : Option TokenUsage → Type 0
IsSoundUsage none = Unit
IsSoundUsage (some u) =
    Fits IsCount u.input_tokens
    × Fits IsCount u.output_tokens
    × Fits IsCount u.total_tokens
    × Fits IsCount u.cached_input_tokens
    × Fits IsMeasure u.duration_ms
    × Fits IsMeasure u.cost_usd

-- A text content has a unit that is no white space.
abbrev pub IsFilled : Content → Type 0
IsFilled absent = Unit
IsFilled (text t) = IsPrinted t
IsFilled (structured json) = Unit

is_blank_iff : (c : Content) → (is_blank c ≡ false) ↔ IsFilled c
is_blank_iff absent = ((λ _. tt), (λ _. refl))
is_blank_iff (text t) = length-trim_iff t
is_blank_iff (structured json) = ((λ _. tt), (λ _. refl))

-- A completed response has an output that the role's schema accepts.
abbrev pub HasFitOutput : (Json → List Text) → ExecutorResponse → Type 0
HasFitOutput check r =
    r.status ≡ completed → (output : Json) × (r.output ≡ some output) × (check output ≡ [])

pub record IsSoundResponse (check : Json → List Text) (r : ExecutorResponse) : Type 0 where
  pub output_fits : HasFitOutput check r
  pub names_distinct : IsDistinct (map (λ (a : Artifact). a.name) r.artifacts)
  pub contents_full : All (λ (a : Artifact). IsFilled a.content) r.artifacts
  pub usage_sound : IsSoundUsage r.usage

nil_iff {ℓ κ} :
    {A : Type ℓ} {P Q : Type κ} {xs ys : List A}
    → (xs ≡ []) ↔ P
    → (ys ≡ []) ↔ Q
    → ((xs ++ ys) ≡ []) ↔ (P × Q)
nil_iff {xs} {ys} p q = (
  (λ h. let (a, b) = (append-eq-nil_iff xs ys).0 h in (p.0 a, q.0 b)),
  (λ h. (append-eq-nil_iff xs ys).1 (p.1 h.0, q.1 h.1)),
)

content_errors_iff :
    (artifacts : List Artifact)
    → (content_errors artifacts ≡ []) ↔ All (λ (a : Artifact). IsFilled a.content) artifacts
unfolding content_errors
content_errors_iff [] = ((λ _. tt), (λ _. refl))
content_errors_iff (a ∷ rest) =
    let (no_message, no_blank) = blank_iff (is_blank a.content) _ in
    let (filled, full) = is_blank_iff a.content in
    nil_iff ((λ h. filled (no_message h)), (λ k. no_blank (full k))) (content_errors_iff rest)

usage_error_iff :
    (p : JsNumber → Bool) (P : JsNumber → Type 0)
    → ((v : JsNumber) → (p v ≡ true) ↔ P v)
    → (message : Text) (o : Option JsNumber) → (usage_error p message o ≡ []) ↔ Fits P o
unfolding usage_error
usage_error_iff p P test message none = ((λ _. tt), (λ _. refl))
usage_error_iff p P test message (some v) =
    let (to, from) = test v in
    ((λ h. to (ground arith)), (λ fits. let passes = from fits in ground arith))

usage_errors_iff : (u : Option TokenUsage) → (usage_errors u ≡ []) ↔ IsSoundUsage u
unfolding usage_errors
usage_errors_iff none = ((λ _. tt), (λ _. refl))
usage_errors_iff (some u) =
    let e : _ = nil_iff (usage_error_iff is_count IsCount is_count_iff _ u.input_tokens) (
      nil_iff (usage_error_iff is_count IsCount is_count_iff _ u.output_tokens) (
        nil_iff (usage_error_iff is_count IsCount is_count_iff _ u.total_tokens) (
          nil_iff (usage_error_iff is_count IsCount is_count_iff _ u.cached_input_tokens) (
            nil_iff (usage_error_iff is_measure IsMeasure is_measure_iff _ u.duration_ms)
              (usage_error_iff is_measure IsMeasure is_measure_iff _ u.cost_usd))))) in
    (
      (λ h. let (a, (b, (c, (d, (f, g))))) = e.0 h in (a, b, c, d, f, g)),
      (λ h. e.1 (h.0, (h.1, (h.2, (h.3, (h.4, h.5)))))),
    )

duplicates_none : (ds : List Text) → duplicate_errors ds ≡ [] → ds ≡ []
unfolding duplicate_errors
duplicates_none [] h = refl
duplicates_none (d ∷ ds) h = cc

no_duplicates : duplicate_errors [] ≡ []
unfolding duplicate_errors
no_duplicates = refl

map-eq-nil_iff {ℓ κ} :
    {A : Type ℓ} {B : Type κ} (f : A → B) (xs : List A) → (map f xs ≡ []) ↔ (xs ≡ [])
map-eq-nil_iff f [] = ((λ _. refl), (λ _. refl))
map-eq-nil_iff f (x ∷ xs) = ((λ h. absurd (cc)), (λ h. absurd (cc)))

module _ (check : Json → List Text) where
  output_errors_iff :
      (status : RunStatus) (output : Option Json)
      → (output_errors check status output ≡ [])
        ↔ (status ≡ completed → (x : Json) × (output ≡ some x) × (check x ≡ []))
  unfolding output_errors
  output_errors_iff completed none =
      ((λ h. absurd (cc)), (λ k. let (x, e, _) = k refl in absurd (cc)))
  output_errors_iff completed (some x) = (
    (λ h _. (x, refl, (map-eq-nil_iff _ (check x)).0 h)),
    (λ k. let (y, e, h) = k refl in (map-eq-nil_iff _ (check x)).1 (ground arith)),
  )
  output_errors_iff failed output = ((λ _ e. absurd (cc)), (λ _. refl))
  output_errors_iff blocked output = ((λ _ e. absurd (cc)), (λ _. refl))
  output_errors_iff cancelled output = ((λ _ e. absurd (cc)), (λ _. refl))

  duplicate_errors_iff :
      (xs : List Text) → (duplicate_errors (duplicate_values xs) ≡ []) ↔ IsDistinct xs
  duplicate_errors_iff xs = (
    (λ h. (duplicate_values-eq-nil_iff xs).0 (duplicates_none (duplicate_values xs) h)),
    (λ h. rw ((duplicate_values-eq-nil_iff xs).1 h) no_duplicates),
  )

  response_errors_iff :
      (r : ExecutorResponse) → (response_errors check r ≡ []) ↔ IsSoundResponse check r
  unfolding response_errors
  response_errors_iff r =
      let e : _ = nil_iff (output_errors_iff r.status r.output) (
        nil_iff (duplicate_errors_iff (map (λ (a : Artifact). a.name) r.artifacts))
          (nil_iff (content_errors_iff r.artifacts) (usage_errors_iff r.usage))) in
      (
        (λ h.
            let (a, (b, (c, d))) = e.0 h in
            record { output_fits = a; names_distinct = b; contents_full = c; usage_sound = d }),
        (λ h. e.1 (h.output_fits, (h.names_distinct, (h.contents_full, h.usage_sound)))),
      )

  valid_tests :
      (s : Snapshot)
      → ((validate_executor_response check (some s)).valid ≡ true) ↔ (
          (semantic_valid s ≡ true)
          × (s.schema_errors ≡ [])
          × (response_errors check s.response ≡ []))
  unfolding validate_executor_response
  valid_tests s = ((λ h. (ground arith, ground arith, ground arith)), (λ h. ground arith))

  -- `validateExecutorResponse` accepts a frozen snapshot exactly if it has an output and no error where it says
  -- completed, an error and no output where it says failed, blocked or cancelled; the response schema has
  -- no objection; and the response has, where it is completed, an output that the role accepts, artifacts
  -- with distinct names and no text content of white space only, token counts that are natural numbers,
  -- and a duration and a cost that are finite and not negative.
  pub validate_executor_response-valid_iff :
      (s : Snapshot)
      → ((validate_executor_response check (some s)).valid ≡ true)
        ↔ (IsCoherent s × (s.schema_errors ≡ []) × IsSoundResponse check s.response)
  validate_executor_response-valid_iff s = (
    (λ h.
        let (a, b, c) = (valid_tests s).0 h in
        (IsCoherent-of s a, b, (response_errors_iff s.response).0 c)),
    (λ h. (valid_tests s).1 (semantic_valid-of s h.0, h.1, (response_errors_iff s.response).1 h.2)),
  )

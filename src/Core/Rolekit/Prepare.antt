-- ===== src/Core/Rolekit/Prepare.antt =====
-- `captureRunOptions`, `#prepareAdapter`, `#admit` and the probe of src/core/rolekit.ts.
use rolekit.Common.{
  Bool, false, not, Option, none, some, List, [], ◌∷◌, ◌++◌, map, if◌then◌else◌, ◌⊎◌, inl, inr,
}
use rolekit.Common.Text.{Text, codes, text_eq, join}
use rolekit.Common.Thrown.{Thrown, an_error, safe_error_message}
use rolekit.Core.Json.Data.{Json, bool, str, arr, obj, end, field, texts}
use rolekit.Core.Error.{Result, ok, err, throw, require, invalid_contract, ◌>>=◌, ◌>>◌}
use rolekit.Core.Redact.Replace.{redact_sensitive_text}
use rolekit.Core.Redact.JsonValue.{redact_sensitive_json_value}
use rolekit.Core.Plan.Data.{RoleSpec, TaskPacket, Admission}
use rolekit.Core.Plan.Normalize.{quoted}
use rolekit.Core.Options.Safety.{public_option_errors}
use rolekit.Core.Options.Prepared.{
  Copied, copied, not_portable, Candidate, Prepared, prepared_sensitive_values,
  validate_prepared_executor_options,
}
use rolekit.Core.Rolekit.Adapter.{Attempt, threw, returned, Descriptor, Probe, Adapter, Views}
use rolekit.Core.Rolekit.Registry.{is_id}

-- `ExecutorProfileProvenanceInput`
pub record Profile : Type 0 where
  pub id : Text
  pub digest : Text
  pub required_secrets : List Text

pub data RunId : Type 0 where
  not_given not_a_string : RunId
  given : Text → RunId

-- Run options as they are read: whether reading them throws; a text is none where the value is no string,
-- and a profile is none where its frozen copy or its schema fails.
pub record RunOptions : Type 0 where
  pub unreadable : Bool
  pub executor_id : Option Text
  pub cwd : Option Text
  pub adapter_options : Json
  pub profile : Option (Option Profile)
  pub public_option_context : Option Json
  pub run_id : RunId
  pub bad_signal : Bool
  pub bad_on_event : Bool

pub record Captured : Type 0 where
  pub executor_id : Text
  pub cwd : Text
  pub adapter_options : Json
  pub profile : Option Profile
  pub public_option_context : Option Json
  pub run_id : Text

abbrev filled : Option Text → Text → Result Text
filled none message = throw invalid_contract message
filled (some []) message = throw invalid_contract message
filled (some (c ∷ t)) message = ok (c ∷ t)

unfoldable pub executor_of : Option Text → Result Text
unfolding is_id
executor_of none = throw invalid_contract (codes "Run options executorId is invalid.")
executor_of (some id) =
    if is_id id then ok id else throw invalid_contract (codes "Run options executorId is invalid.")

-- The run's id, or what `createRunId` gives: none where that is no string.
unfoldable pub run_id_of : RunId → Attempt (Option Text) → Result Text
run_id_of (given id) created =
    filled (some id) (codes "Run options runId must be a non-empty string.")
run_id_of not_a_string created =
    throw invalid_contract (codes "Run options runId must be a non-empty string.")
run_id_of not_given (threw t) = throw invalid_contract (codes "Rolekit createRunId() failed.")
run_id_of not_given (returned id) =
    filled id (codes "Run options runId must be a non-empty string.")

abbrev profile_of : Option (Option Profile) → Result (Option Profile)
profile_of none = ok none
profile_of (some none) = throw invalid_contract (codes "Run options profile provenance is invalid.")
profile_of (some (some p)) = ok (some p)

unfoldable pub capture_run_options : RunOptions → Attempt (Option Text) → Result Captured
unfolding executor_of run_id_of
capture_run_options options created = do
  require (not options.unreadable) (codes "Run options could not be captured.")
  executor_id ← executor_of options.executor_id
  cwd ← filled options.cwd (codes "Run options cwd must be a non-empty string.")
  run_id ← run_id_of options.run_id created
  profile ← profile_of options.profile
  require (not options.bad_signal) (codes "Run options signal must be an AbortSignal.")
  require (not options.bad_on_event) (codes "Run options onEvent must be a function.")
  ok (record {
    executor_id = executor_id;
    cwd = cwd;
    adapter_options = options.adapter_options;
    profile = profile;
    public_option_context = options.public_option_context;
    run_id = run_id;
  })

-- A frozen copy that a schema accepts, or the message of the error that is thrown in its place.
unfoldable pub checked_copy : (Json → List Text) → Text → Copied → Text ⊎ Json
unfolding join
checked_copy errors label (not_portable message) = inl message
checked_copy errors label (copied j) = elim (errors j) [
  | [] ↦ inr j
  | e ∷ es ↦ inl (label ++ (codes " is invalid: " ++ join (codes "; ") (e ∷ es)))
]

abbrev adapter_says : Adapter → Text → Text → Text
adapter_says adapter what why = quoted (codes "Executor adapter ") adapter.id (what ++ why)

-- The message of a thrown value, redacted.
unfoldable pub redacted_reason : Text → Thrown → List Text → Text
unfolding redact_sensitive_text safe_error_message
redacted_reason fallback reason sensitive_values =
    redact_sensitive_text (safe_error_message fallback reason) sensitive_values

pub record Compilation : Type 0 where
  pub prepared : Prepared
  pub descriptor : Descriptor

-- The options that an adapter returns, validated.
unfoldable pub checked_options_of : Adapter → Candidate → Result Prepared
unfolding prepared_sensitive_values validate_prepared_executor_options redact_sensitive_text join
checked_options_of adapter candidate =
    let validation = validate_prepared_executor_options candidate adapter.pointers in
    let secrets = prepared_sensitive_values candidate in
    elim validation.prepared [
      | some p ↦ ok p
      | none ↦ err (record {
        code = invalid_contract;
        message =
            redact_sensitive_text
              (adapter_says adapter (codes " returned invalid prepared options: ")
                (join (codes "; ") validation.errors ++ codes "."))
              secrets;
        details = some (
            obj (
              field (codes "errors")
                (arr (texts (map (λ e. redact_sensitive_text e secrets) validation.errors))) end));
      })
    ]

abbrev prepared_or_throw : Adapter → Attempt Candidate → Result Prepared
prepared_or_throw adapter (threw reason) = throw invalid_contract (
    adapter_says adapter (codes " options could not be prepared: ")
      (safe_error_message (codes "Unknown option error.") reason))
prepared_or_throw adapter (returned c) = checked_options_of adapter c

abbrev invalid_descriptor : Adapter → Text → List Text → Result Descriptor
invalid_descriptor adapter why sensitive_values = throw invalid_contract (
    adapter_says adapter (codes " returned an invalid descriptor: ") (
      redacted_reason (codes "Unknown descriptor validation error.") (an_error why)
        sensitive_values))

module _ (views : Views) where
  unfoldable pub described : Adapter → List Text → Text ⊎ Json → Result Descriptor
  unfolding redacted_reason text_eq
  described adapter sensitive_values (inl why) = invalid_descriptor adapter why sensitive_values
  described adapter sensitive_values (inr j) =
      if text_eq (views.descriptor_of j).id adapter.id
      then ok (views.descriptor_of j)
      else invalid_descriptor adapter
          (quoted (codes "Executor descriptor id ") (views.descriptor_of j).id
            (codes " does not match adapter id " ++ quoted [] adapter.id (codes ".")))
          sensitive_values

  abbrev described_or_throw : Adapter → List Text → Attempt Copied → Result Descriptor
  described_or_throw adapter sensitive_values (threw reason) = throw invalid_contract (
      adapter_says adapter (codes " could not be inspected: ")
        (redacted_reason (codes "Unknown inspection error.") reason sensitive_values))
  described_or_throw adapter sensitive_values (returned c) =
      described adapter sensitive_values (
        checked_copy views.descriptor_errors (quoted (codes "Executor descriptor ") adapter.id [])
          c)

  -- `#prepareAdapter`; the admission that it makes up is replaced in every run.
  unfoldable pub prepare_adapter : Adapter → Json → Option Json → Result Compilation
  unfolding checked_options_of
  prepare_adapter adapter options public_context = do
    prepared ← prepared_or_throw adapter (adapter.prepare_options options public_context)
    descriptor ← described_or_throw adapter prepared.sensitive_values (adapter.inspect prepared)
    ok (record { prepared = prepared; descriptor = descriptor })

  abbrev invalid_admission : Adapter → Text → List Text → Result Admission
  invalid_admission adapter why sensitive_values = throw invalid_contract (
      adapter_says adapter (codes " returned invalid admission data: ") (
        redacted_reason (codes "Unknown admission validation error.") (an_error why)
          sensitive_values))

  -- An admission whose public options are safe is redacted as a whole.
  unfoldable pub admitted : Adapter → List Text → Text ⊎ Json → Result Admission
  unfolding redact_sensitive_json_value public_option_errors join
  admitted adapter sensitive_values (inl why) = invalid_admission adapter why sensitive_values
  admitted adapter sensitive_values (inr j) =
      elim (public_option_errors (views.admission_of j).effective_public_options sensitive_values
        adapter.pointers (codes "Effective public options")) [
          | [] ↦ ok (views.admission_of (redact_sensitive_json_value j sensitive_values))
          | e ∷ es ↦
              invalid_admission adapter
                (adapter_says adapter (codes " returned unsafe effective public options: ")
                  (join (codes "; ") (e ∷ es) ++ codes "."))
                sensitive_values
        ]

  -- `#admit`
  unfoldable pub admit :
      Adapter → RoleSpec → TaskPacket → Prepared → Option Probe → Result Admission
  unfolding checked_copy admitted
  admit adapter role task prepared probe = elim (adapter.admit role task prepared probe) [
    | threw reason ↦ throw invalid_contract (
        adapter_says adapter (codes " admission failed: ")
          (redacted_reason (codes "Unknown admission error.") reason prepared.sensitive_values))
    | returned c ↦ admitted adapter prepared.sensitive_values (
        checked_copy views.admission_errors (quoted (codes "Execution admission ") adapter.id []) c)
  ]

  -- The probe's data: a probe that throws counts as unavailable.
  unfoldable pub probe_candidate : List Text → Attempt Copied → Copied
  probe_candidate sensitive_values (returned c) = c
  probe_candidate sensitive_values (threw reason) = copied (
      obj (
        field (codes "available") (bool false) (
          field (codes "featureChecks") (obj end) (
            field (codes "diagnostic")
              (str (redacted_reason (codes "Executor probe failed.") reason sensitive_values))
              end))))

  abbrev redacted_copy : List Text → Copied → Copied
  redacted_copy sensitive_values (copied j) =
      copied (redact_sensitive_json_value j sensitive_values)
  redacted_copy sensitive_values (not_portable m) = not_portable m

  unfoldable pub take_probe : Adapter → Prepared → Result Probe
  unfolding checked_copy probe_candidate
  take_probe adapter prepared =
      elim (checked_copy views.probe_errors (quoted (codes "Executor probe ") adapter.id []) (
        redacted_copy prepared.sensitive_values
          (probe_candidate prepared.sensitive_values (adapter.probe prepared)))) [
            | inr j ↦ ok (views.probe_of j)
            | inl why ↦ throw invalid_contract (
                adapter_says adapter (codes " returned invalid probe data: ") (
                  redacted_reason (codes "Unknown probe validation error.") (an_error why)
                    prepared.sensitive_values))
          ]

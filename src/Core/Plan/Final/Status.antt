-- ===== src/Core/Plan/Final/Status.antt =====
-- Which statuses a finalization may come to.
use rolekit.Common.{
  ℕ, true, false, ◌&&◌, ◌≡◌, refl, sym, ap, ◌∙◌, ◌⊎◌, inl, inr, Option, none, some, List, [], ◌∷◌,
  arith, All, Option-cases, Bool-cases,
}
use rolekit.Common.Text.{Text, text_eq, text_eq_sound}
use rolekit.Core.Json.Data.{Json}
use rolekit.Core.Error.{ok}
use rolekit.Core.Response.Data.{
  RunStatus, completed, failed, blocked, cancelled, Artifact, ExecutorResponse,
}
use rolekit.Core.Response.Validate.{Snapshot, Validation, is_completed, validate_executor_response}
use rolekit.Core.Response.Laws.{IsSoundResponse, validate_executor_response-valid_iff}
use rolekit.Core.Plan.Data.{ExpectedArtifact, Verdict, allowed, denied, ExecutionPlan, ResolvedPlan}
use rolekit.Core.Plan.Receipt.{ExecutionReceipt, RunResult}
use rolekit.Core.Plan.Outcome.{
  Outcome, is_present, missing_artifacts, invalid_outcome, completed_outcome, normalized_outcome,
}
use rolekit.Core.Plan.Finalize.{FinalizeEnv, run_result, may_finalize, finalize_execution}
use rolekit.Core.Plan.Final.Parts.{FinalParts, validation_of, finalize-parts}

-- The response has an artifact of that name and kind.
abbrev pub Holds : List Artifact → ExpectedArtifact → Type 0
Holds [] e = ⊥
Holds (a ∷ rest) e = ((a.name ≡ e.name) × (a.kind ≡ e.kind)) ⊎ Holds rest e

is_present-Holds :
    (artifacts : List Artifact) (e : ExpectedArtifact)
    → is_present artifacts e ≡ true
    → Holds artifacts e
unfolding is_present
is_present-Holds [] e h = absurd (ground arith)
is_present-Holds (a ∷ rest) e h =
    elim (Bool-cases (text_eq a.name e.name && text_eq a.kind e.kind)) [
      | inl here ↦ inl (text_eq_sound _ _ (ground arith), text_eq_sound _ _ (ground arith))
      | inr other ↦ inr (is_present-Holds rest e (ground arith))
    ]

none_missing :
    (expected : List ExpectedArtifact) (actual : List Artifact)
    → missing_artifacts expected actual ≡ []
    → All (Holds actual) expected
unfolding missing_artifacts
none_missing [] actual h = tt
none_missing (e ∷ es) actual h = elim (Bool-cases (is_present actual e)) [
  | inl there ↦ (is_present-Holds actual e there, none_missing es actual (ground arith))
  | inr gone ↦ absurd (ground arith)
]

-- What a completed outcome rests on.
record IsCompleted (plan : ExecutionPlan) (v : Validation) (o : Outcome) : Type 0 where
  valid : v.valid ≡ true
  response : ExecutorResponse
  trusted : v.response ≡ some response
  reported : response.status ≡ completed
  output : o.output ≡ response.output
  whole : missing_artifacts plan.content.task.expected_artifacts response.artifacts ≡ []

is_completed-eq : (s : RunStatus) → is_completed s ≡ true → s ≡ completed
is_completed-eq completed h = refl
is_completed-eq failed h = absurd (ground arith)
is_completed-eq blocked h = absurd (ground arith)
is_completed-eq cancelled h = absurd (ground arith)

-- Only a response that lacks no artifact comes to `completed`.
completed_outcome_lem :
    (plan : ExecutionPlan) (r : ExecutorResponse) (missing : List ExpectedArtifact)
    → (completed_outcome plan r missing).status ≡ completed
    → (missing ≡ []) × ((completed_outcome plan r missing).output ≡ r.output)
unfolding completed_outcome
completed_outcome_lem plan r [] c = (refl, refl)
completed_outcome_lem plan r (m ∷ ms) c = absurd (ground arith)

completed_response :
    (plan : ExecutionPlan) (v : Validation) (o : Outcome) (r : ExecutorResponse)
    → v.valid ≡ true
    → v.response ≡ some r
    → normalized_outcome plan v ≡ ok o
    → o.status ≡ completed
    → IsCompleted plan v o
unfolding normalized_outcome
completed_response plan v o r valid there h c = elim (Bool-cases (is_completed r.status)) [
  | inr other ↦ let same : o.status ≡ r.status = ground arith in absurd (ground arith)
  | inl reported ↦
      let same : completed_outcome plan r
            (missing_artifacts plan.content.task.expected_artifacts r.artifacts)
          ≡ o =
        ground arith in
      let (whole, output) =
        completed_outcome_lem plan r
          (missing_artifacts plan.content.task.expected_artifacts r.artifacts)
          (ap (λ (x : Outcome). x.status) same ∙ c) in
      record {
        valid = valid;
        response = r;
        trusted = there;
        reported = is_completed-eq r.status reported;
        output = sym (ap (λ (x : Outcome). x.output) same) ∙ output;
        whole = whole;
      }
]

invalid_outcome-failed :
    (plan : ExecutionPlan) (errors : List Text) (response : Option ExecutorResponse)
    → (invalid_outcome plan errors response).status ≡ failed
unfolding invalid_outcome
invalid_outcome-failed plan errors response = refl

invalid_failed :
    (plan : ExecutionPlan) (v : Validation) (o : Outcome)
    → normalized_outcome plan v ≡ ok o
    → v.valid ≡ false
    → o.status ≡ failed
unfolding normalized_outcome
invalid_failed plan v o h bad =
    let same : invalid_outcome plan v.errors v.response ≡ o = ground arith in
    sym (ap (λ (x : Outcome). x.status) same) ∙ invalid_outcome-failed plan v.errors v.response

no_snapshot :
    (plan : ExecutionPlan) (v : Validation) (o : Outcome)
    → v.valid ≡ true
    → v.response ≡ none
    → normalized_outcome plan v ≡ ok o
    → ⊥
unfolding normalized_outcome
no_snapshot plan v o valid nothing h = ground arith

failed_completed : failed ≡ completed → ⊥
failed_completed h = ground arith

completed_of :
    (plan : ExecutionPlan) (v : Validation) (o : Outcome)
    → normalized_outcome plan v ≡ ok o
    → o.status ≡ completed
    → IsCompleted plan v o
completed_of plan v o h c = elim (Bool-cases v.valid) [
  | inr bad ↦ absurd (failed_completed (sym (invalid_failed plan v o h bad) ∙ c))
  | inl good ↦ elim (Option-cases v.response) [
    | inl nothing ↦ absurd (no_snapshot plan v o good nothing h)
    | inr (r, there) ↦ completed_response plan v o r good there h c
  ]
]

-- The validation of a receipt's response: a trusted response is the snapshot's.
validated_snapshot :
    (check : Json → List Text) (response : Option Snapshot) (r : ExecutorResponse)
    → (validate_executor_response check response).valid ≡ true
    → (validate_executor_response check response).response ≡ some r
    → (s : Snapshot) × (response ≡ some s) × (s.response ≡ r)
unfolding validate_executor_response
validated_snapshot check none r valid there = absurd (ground arith)
validated_snapshot check (some s) r valid there = (s, refl, ground arith)

-- What stands behind a completed result of a receipt under a plan.
pub record IsEarned (env : FinalizeEnv) (p : ResolvedPlan) (receipt : ExecutionReceipt)
    (result : RunResult) : Type 0 where
  pub snapshot : Snapshot
  pub shown : receipt.response ≡ some snapshot
  pub reported : snapshot.response.status ≡ completed
  pub sound : IsSoundResponse (env.check_output p.plan.content.role.output_schema) snapshot.response
  pub whole : All (Holds snapshot.response.artifacts) p.plan.content.task.expected_artifacts
  pub output : result.output ≡ snapshot.response.output
  pub error : result.error ≡ none
  pub admitted : p.plan.content.policy.admission ≡ allowed

may_finalize_completed :
    (a : Verdict) (r : ExecutorResponse)
    → may_finalize a (some r) ≡ true
    → r.status ≡ completed
    → a ≡ allowed
may_finalize_completed allowed r h c = refl
may_finalize_completed (denied e) r h c = absurd (ground arith)

completed_result :
    (p : ResolvedPlan) (receipt : ExecutionReceipt) (n : ℕ) (o : Outcome)
    → (run_result p receipt n o).status ≡ completed
    → (o.status ≡ completed)
      × ((run_result p receipt n o).output ≡ o.output)
      × ((run_result p receipt n o).error ≡ none)
unfolding run_result
completed_result p receipt n o c = (c, rw c refl, rw c refl)

IsEarned-of :
    (env : FinalizeEnv) (p : ResolvedPlan) (receipt : ExecutionReceipt) (result : RunResult)
    → FinalParts env p receipt result
    → result.status ≡ completed
    → IsEarned env p receipt result
IsEarned-of env p receipt result f c =
    let check : Json → List Text = env.check_output p.plan.content.role.output_schema in
    let (done, output, error) =
      completed_result p receipt f.duration f.outcome
        (sym (ap (λ (x : RunResult). x.status) f.made) ∙ c) in
    let d = completed_of p.plan (validation_of env p receipt) f.outcome f.normalized done in
    let (s, shown, same) = validated_snapshot check receipt.response d.response d.valid d.trusted in
    let sound : IsSoundResponse check s.response =
      ((validate_executor_response-valid_iff check s).0
        (ap (λ x. (validate_executor_response check x).valid) (sym shown) ∙ d.valid)).2 in
    record {
      snapshot = s;
      shown = shown;
      reported = ap (λ (x : ExecutorResponse). x.status) same ∙ d.reported;
      sound = sound;
      whole =
          rw same
            (none_missing p.plan.content.task.expected_artifacts d.response.artifacts d.whole);
      output =
          ap (λ (x : RunResult). x.output) f.made
          ∙ output
          ∙ d.output
          ∙ sym (ap (λ (x : ExecutorResponse). x.output) same);
      error = ap (λ (x : RunResult). x.error) f.made ∙ error;
      admitted =
          may_finalize_completed p.plan.content.policy.admission d.response
            (ap (may_finalize p.plan.content.policy.admission) (sym d.trusted) ∙ f.permitted)
            d.reported;
    }

-- A finalization that returns a completed result rests on a receipt whose response is a snapshot that
-- says completed and that is sound under the output schema of the plan's role; it has an artifact of the
-- name and kind of every one that the task expects; the result has its output and no error; and the
-- plan's admission is allowed.
pub finalize-IsEarned :
    (env : FinalizeEnv) (p : ResolvedPlan) (receipt : ExecutionReceipt) (result : RunResult)
    → finalize_execution env p receipt ≡ ok result
    → result.status ≡ completed
    → IsEarned env p receipt result
finalize-IsEarned env p receipt result h c =
    IsEarned-of env p receipt result (finalize-parts env p receipt result h) c

-- ===== src/Review/Validate/OfPayload.antt =====
-- .opencode/plugins/review-dispatch/index.ts: `validateContext` and `validatePayloadSemantics`.
use complytime_providers.Prelude.{Text, txt, ◌==◌, Bool, true, false, not, List, ◌++◌, Runtime}
use complytime_providers.Review.Model.{
  is_verdict, verdict_text, Command, triage_issue, InputContext, pr, local, issue, ProfileKind,
  issue_profile, Payload,
}
use complytime_providers.Review.Votes.{calculated_workflow_value, project_native_value}
use complytime_providers.Review.Validate.Keys.{when, unique_sorted}
use complytime_providers.Review.Validate.OfPlan.{validate_plan_and_runs}
use complytime_providers.Review.Validate.OfCounts.{validate_run_counts}
use complytime_providers.Review.Validate.OfFindings.{validate_findings}

abbrev is_triage_issue : Command → Bool
is_triage_issue triage_issue = true
is_triage_issue _ = false

-- Whether both the input context and the change profile are those of an issue.
abbrev both_issue : InputContext → ProfileKind → Bool
both_issue (issue _) (issue_profile _) = true
both_issue _ _ = false

abbrev hashes_differ : InputContext → ProfileKind → Bool
hashes_differ (issue a) (issue_profile b) = not (a == b)
hashes_differ _ _ = false

abbrev commit_differs : Text → InputContext → Bool
commit_differs commit (pr head_sha) = not (commit == head_sha)
commit_differs commit (local head_sha) = not (commit == head_sha)
commit_differs commit (issue _) = false

abbrev differ : Bool → Bool → Bool
differ true b = not b
differ false b = b

unfoldable pub validate_context : Payload → Text → List Text
unfolding txt
validate_context payload commit =
    when
      (differ (is_triage_issue payload.command)
        (both_issue payload.input_context payload.change_profile))
      (txt "input context and change profile do not match the workflow")
    ++ when (hashes_differ payload.input_context payload.change_profile)
        (txt "issue input context and change profile content hashes differ")
    ++ when (commit_differs commit payload.input_context)
        (txt "artifact commit must equal the immutable reviewed head SHA")

-- The checks of the recorded result against the one that the votes give.
unfoldable pub validate_result : Payload → List Text
unfolding calculated_workflow_value project_native_value verdict_text txt
validate_result payload =
    let expected = calculated_workflow_value payload.kind payload.runs payload.advisories in
    when (not (is_verdict payload.value expected)) (
      txt "workflow_result.value is "
      ++ verdict_text payload.value
      ++ txt "; expected "
      ++ verdict_text expected)
    ++ when (not (is_verdict payload.verdict (project_native_value expected))) (
        txt "verdict is "
        ++ verdict_text payload.verdict
        ++ txt "; expected "
        ++ verdict_text (project_native_value expected))

unfoldable pub validate_payload_semantics : Runtime → Payload → Text → List Text
unfolding validate_context validate_plan_and_runs validate_run_counts validate_findings
    validate_result unique_sorted
validate_payload_semantics js payload commit = unique_sorted (
    validate_context payload commit
    ++ validate_plan_and_runs js payload
    ++ validate_run_counts payload
    ++ validate_findings js payload
    ++ validate_result payload)

-- ===== src/Review/Validate/OfPlan.antt =====
-- .opencode/plugins/review-dispatch/index.ts: `validatePlanAndRuns`.
use complytime_providers.Prelude.{
  Text, txt, Bool, true, not, ◌&&◌, Option, none, some, List, [], ◌∷◌, ◌++◌, any, if◌then◌else◌,
  is_some, includes, add, Assoc, get, put, decimal, Runtime,
}
use complytime_providers.Review.Model.{
  Verdict, approve, approve_with_advisories, request_changes, valid, invalid, needs_clarification,
  accept, author_decides, is_verdict, Kind, triage, feedback, kind_text, source_text, is_include,
  Run, PlanEntry, Payload,
}
use complytime_providers.Review.Votes.{is_cons}
use complytime_providers.Review.Validate.Keys.{
  when, plan_identity, entry_identity, run_identity, about,
}
use complytime_providers.Review.Validate.OfRun.{validate_run_state, validate_run_model}

unfoldable pub allowed_run_verdicts : Kind → List Verdict
allowed_run_verdicts triage = valid ∷ invalid ∷ needs_clarification ∷ []
allowed_run_verdicts feedback = accept ∷ author_decides ∷ []
allowed_run_verdicts _ = approve ∷ approve_with_advisories ∷ request_changes ∷ []

unfoldable pub is_allowed : Kind → Option Verdict → Bool
unfolding allowed_run_verdicts
is_allowed kind none = true
is_allowed kind (some v) = any (is_verdict v) (allowed_run_verdicts kind)

abbrev entry_place : PlanEntry → Text
entry_place e = e.agent ++ b'/' ∷ decimal e.sequence

-- The first loop of `validatePlanAndRuns`: the entries by identity, and its messages.
unfoldable pub collect_entries : Assoc PlanEntry → List PlanEntry → Assoc PlanEntry × List Text
unfolding plan_identity source_text decimal txt
collect_entries entries [] = (entries, [])
collect_entries entries (e ∷ es) =
    let (rest, later) = collect_entries (put entries (entry_identity e) e) es in
    (
      rest,
      when (is_some (get entries (entry_identity e))) (
            txt "duplicate plan entry "
            ++ e.agent
            ++ b'/' ∷ source_text e.source
            ++ b'/' ∷ decimal e.sequence)
          ++ when (is_include e.decision && is_cons e.validation_errors)
              (txt "included plan entry " ++ entry_place e ++ txt " has validation errors")
          ++ later,
    )

abbrev included : Option PlanEntry → Option PlanEntry
included none = none
included (some e) = if is_include e.decision then some e else none

-- The second loop: the identities observed, and its messages.
unfoldable pub check_runs :
    Runtime → Kind → Assoc PlanEntry → List Text → List Text → List Run → List Text × List Text
unfolding plan_identity validate_run_state validate_run_model is_allowed kind_text decimal txt
check_runs js kind entries run_ids observed [] = (observed, [])
check_runs js kind entries run_ids observed (run ∷ runs) =
    let duplicate =
      when (includes run_ids run.run_id) (about (txt "duplicate run id ") run.run_id []) in
    let ids = add run_ids run.run_id in
    elim (included (get entries (run_identity run))) [
      | none ↦
          let (seen, later) = check_runs js kind entries ids observed runs in
          (
            seen,
            duplicate
                ++ about (txt "run ") run.run_id (txt " has no included plan entry") ∷ []
                ++ later,
          )
      | some entry ↦
          let (seen, later) =
            check_runs js kind entries ids (add observed (run_identity run)) runs in
          (
            seen,
            duplicate
                ++ when (includes observed (run_identity run))
                    (txt "plan entry " ++ entry_place entry ++ txt " has more than one run")
                ++ validate_run_state js run
                ++ validate_run_model run entry
                ++ when (not (is_allowed kind run.workflow_verdict)) (
                    about (txt "run ") run.run_id (txt " has a verdict outside " ++ kind_text kind))
                ++ later,
          )
    ]

-- The third loop: the included entries with no run.
unfoldable pub unobserved : List Text → List PlanEntry → List Text
unfolding plan_identity decimal txt
unobserved observed [] = []
unobserved observed (e ∷ es) =
    when (is_include e.decision && not (includes observed (entry_identity e)))
      (txt "included plan entry " ++ entry_place e ++ txt " has no run")
    ++ unobserved observed es

unfoldable pub validate_plan_and_runs : Runtime → Payload → List Text
unfolding collect_entries check_runs unobserved
validate_plan_and_runs js payload =
    let (entries, entry_errors) = collect_entries [] payload.plan in
    let (observed, run_errors) = check_runs js payload.kind entries [] [] payload.runs in
    entry_errors ++ run_errors ++ unobserved observed payload.plan

-- ===== src/Dispatch/Core/Recorded.antt =====
-- .opencode/plugins/review-dispatch/index.ts: the run files that `executeDispatchRun` writes, under the
-- finalizer's checks of a run.
use complytime_providers.Prelude.{
  ◌≡◌, refl, inl, inr, true, false, ◌||◌, Option, none, some, List, [], if◌then◌else◌, is_some,
  is_none, find, Result, ok, err, ◌>>=◌, Runtime, Bool-cases, Option-cases, arith,
}
use complytime_providers.Review.Model.{success, failed, cancelled, is_status, Kind}
use complytime_providers.Review.Validate.OfRun.{earlier, validate_run_state}
use complytime_providers.Review.Consolidate.{PersistedRun, dispatch_run}
use complytime_providers.Review.Consolidate.Keys.{IsRecorded, validate_run_state-dispatch_run}
use complytime_providers.Plan.Policy.{Matrix, Reviewer}
use complytime_providers.Dispatch.Folder.{Folder}
use complytime_providers.Dispatch.Executor.{InvokeAgentResult}
use complytime_providers.Dispatch.Executor.Session.{execute_agent_session}
use complytime_providers.Dispatch.Executor.Session.Results.{IsSettled}
use complytime_providers.Dispatch.Executor.Session.Settled.{execute_agent_session-IsSettled}
use complytime_providers.Dispatch.Core.{
  should_reclassify_to_success, DispatchOutcome, is_agent, early_exit, provenance_of, run_data_of,
  run_selected, run_selection, execute_with, execute_dispatch_run,
}
use complytime_providers.Dispatch.Submissions.{Submitted, Submissions, harvest}
use complytime_providers.Dispatch.Selecting.{
  RunOptions, World, Selected, Selection, selected, exits, select_model,
}

-- The run that an execution has made, if it has not thrown or left early.
abbrev pub recorded_run : Result (DispatchOutcome × Submissions × Folder) → Option PersistedRun
recorded_run (err message) = none
recorded_run (ok (outcome, left, after)) = outcome.run_data

module _ (world : World) (options : RunOptions) where
  -- The result of the session of a choice.
  abbrev pub session_of : Selected → InvokeAgentResult
  session_of choice =
      (execute_agent_session world.redact (provenance_of world options choice) choice.identity
        world.agenda).0

  provenance_of-fresh :
      (choice : Selected)
      → ((provenance_of world options choice).model_mismatch ≡ false)
        × ((provenance_of world options choice).reported_child_model ≡ none)
  unfolding provenance_of
  provenance_of-fresh choice = elim (Option-cases choice.parent) [
    | inl alone ↦ rw alone (refl, refl)
    | inr (parent, there) ↦ rw there (refl, refl)
  ]

  pub session_of-IsSettled :
      (choice : Selected)
      → IsSettled
          (provenance_of world options choice)
          choice.identity
          (session_of choice)
          (execute_agent_session world.redact
            (provenance_of world options choice)
            choice.identity
            world.agenda).1
  session_of-IsSettled choice =
      execute_agent_session-IsSettled world.redact (provenance_of world options choice)
        choice.identity (provenance_of-fresh choice) world.agenda

  -- A run file is written for a model that was selected, from the result of its session.
  pub record IsRun (store : Submissions) (run : PersistedRun) : Type 0 where
    pub matrix : Matrix
    pub choice : Selected
    pub chosen : select_model world options matrix ≡ ok (selected choice)
    pub made :
        run
        ≡ run_data_of world options choice
            (session_of choice)
            (harvest store (session_of choice).child_session_id).0

  run_selection-IsRun :
      (store : Submissions) (folder : Folder) (matrix : Matrix) (selection : Selection)
      {run : PersistedRun}
      → select_model world options matrix ≡ ok selection
      → (run_selection world options store folder selection).0.run_data ≡ some run
      → IsRun store run
  unfolding run_selection run_selected early_exit
  run_selection-IsRun store folder matrix (selected choice) chosen h = record {
    matrix = matrix;
    choice = choice;
    chosen = chosen;
    made = cc;
  }
  run_selection-IsRun store folder matrix (exits placeholder code message retryable) chosen h = cc

  status-run_data_of :
      (choice : Selected) (result : InvokeAgentResult) (submitted : Submitted)
      → (run_data_of world options choice result submitted).status
        ≡ (if should_reclassify_to_success result submitted then success else result.status)
  unfolding run_data_of
  status-run_data_of choice result submitted = refl

  error-run_data_of :
      (choice : Selected) (result : InvokeAgentResult) (submitted : Submitted)
      → (run_data_of world options choice result submitted).error
        ≡ (if should_reclassify_to_success result submitted then none else result.error)
  unfolding run_data_of
  error-run_data_of choice result submitted = refl

  run_data_of-IsRecorded :
      (js : Runtime)
      → earlier js world.finished_at world.started_at ≡ false
      → (choice : Selected) (result : InvokeAgentResult) (submitted : Submitted)
      → (is_status result.status success
          || is_status result.status failed
          || is_status result.status cancelled)
        ≡ true
      → (is_status result.status success ≡ false → is_some result.error ≡ true)
      → IsRecorded js (run_data_of world options choice result submitted)
  run_data_of-IsRecorded js ordered choice result submitted ended explained = record {
    ended = ground (arith, status-run_data_of choice result submitted);
    ordered = unfold run_data_of in ordered;
    explained = λ h. ground (
      arith,
      status-run_data_of choice result submitted,
      error-run_data_of choice result submitted,
    );
  }

  execute_selection-IsRun :
      (store : Submissions) (folder : Folder) (matrix : Matrix) (selection : Result Selection)
      {run : PersistedRun}
      → select_model world options matrix ≡ selection
      → recorded_run
          (selection >>= λ (s : Selection). ok (run_selection world options store folder s))
        ≡ some run
      → IsRun store run
  execute_selection-IsRun store folder matrix (err message) chosen h = cc
  execute_selection-IsRun store folder matrix (ok selection) chosen h =
      run_selection-IsRun store folder matrix selection chosen h

  execute_with-IsRun :
      (store : Submissions) (folder : Folder) (policies : Result (Matrix × List Reviewer))
      {run : PersistedRun}
      → recorded_run (execute_with world options store folder policies) ≡ some run
      → IsRun store run
  unfolding execute_with early_exit
  execute_with-IsRun store folder (err message) h = cc
  execute_with-IsRun store folder (ok (matrix, reviewers)) h =
      elim (Bool-cases (is_none (find (is_agent options.agent) reviewers))) [
        | inl absent ↦ cc (rw absent at h)
        | inr present ↦
            execute_selection-IsRun store folder matrix (select_model world options matrix) refl
              (rw present at h)
      ]

  pub execute_dispatch_run-IsRun :
      (store : Submissions) (folder : Folder) {run : PersistedRun}
      → recorded_run (execute_dispatch_run world options store folder) ≡ some run
      → IsRun store run
  unfolding execute_dispatch_run
  execute_dispatch_run-IsRun store folder h = execute_with-IsRun store folder world.policies h

  -- What an execution records of a run that ends no earlier than it starts passes the finalizer's
  -- check of the state of a run, also where a failure is recorded as a success.
  pub validate_run_state-execute_dispatch_run :
      (js : Runtime) (kind : Kind) (store : Submissions) (folder : Folder) (run : PersistedRun)
      → earlier js world.finished_at world.started_at ≡ false
      → recorded_run (execute_dispatch_run world options store folder) ≡ some run
      → validate_run_state js (dispatch_run kind run) ≡ []
  validate_run_state-execute_dispatch_run js kind store folder run ordered h =
      let r = execute_dispatch_run-IsRun store folder h in
      let settled = session_of-IsSettled r.choice in
      let submitted = (harvest store (session_of r.choice).child_session_id).0 in
      rw r.made (
        validate_run_state-dispatch_run js kind
          (run_data_of world options r.choice (session_of r.choice) submitted)
          (run_data_of-IsRecorded js ordered r.choice (session_of r.choice) submitted settled.ended
            settled.explained))

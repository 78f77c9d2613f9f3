-- ===== src/Dispatch/Core/Refused.antt =====
-- .opencode/plugins/review-dispatch/index.ts: the run files of `executeDispatchRun` that
-- `validateRunModel` refuses whatever the plan's entry is.
use complytime_providers.Prelude.{
  ◌≡◌, Text, true, Option, none, some, is_some, Result, ok, err, ◌>>=◌, arith,
}
use complytime_providers.Review.Model.{success, is_status, Kind, advisor, host, Run, PlanEntry}
use complytime_providers.Review.Votes.{is_cons}
use complytime_providers.Review.Validate.OfRun.{
  host_model_errors, inherited_model_errors, provenance_errors, validate_run_model,
}
use complytime_providers.Review.Consolidate.{PersistedRun, dispatch_run}
use complytime_providers.Plan.Policy.{Matrix, Resolved, profile_pair}
use complytime_providers.Dispatch.Folder.{Folder}
use complytime_providers.Dispatch.Core.{run_data_of, execute_dispatch_run}
use complytime_providers.Dispatch.Submissions.{Submissions}
use complytime_providers.Dispatch.Selecting.{
  RunOptions, World, Selected, selected, inherit_model, select_profile, select_resolved, tier_label,
  select_by, select_model,
}
use complytime_providers.Dispatch.Core.Recorded.{recorded_run, execute_dispatch_run-IsRun}

-- A host run that names a model is refused.
validate_run_model-host :
    (run : Run) (entry : PlanEntry)
    → run.source ≡ host
    → is_some run.requested_model ≡ true
    → is_cons (validate_run_model run entry) ≡ true
unfolding validate_run_model provenance_errors host_model_errors
validate_run_model-host run entry hosted named = simp (hosted, named) (ground arith)

-- So is a successful advisor run that has inherited a model without a variant.
validate_run_model-advisor :
    (run : Run) (entry : PlanEntry)
    → run.source ≡ advisor
    → run.requested_model ≡ none
    → is_status run.status success ≡ true
    → run.resolved_parent_variant ≡ none
    → is_cons (validate_run_model run entry) ≡ true
unfolding validate_run_model provenance_errors inherited_model_errors
validate_run_model-advisor run entry advised silent good bare =
    simp (advised, silent, good, bare) (ground arith)

module _ (world : World) (options : RunOptions) where
  select_profile-host :
      (tier : Text) (model variant : Option Text) {choice : Selected}
      → select_profile world options tier host model variant ≡ selected choice
      → is_some choice.requested ≡ true
  unfolding select_profile inherit_model
  select_profile-host tier (some model) variant h = ground arith
  select_profile-host tier none variant h = ground arith

  select_found-host :
      (tier : Text) (found : Result Resolved) {choice : Selected}
      → (found >>= λ (resolved : Resolved). ok (select_resolved world options tier host resolved))
        ≡ ok (selected choice)
      → is_some choice.requested ≡ true
  unfolding select_resolved
  select_found-host tier (err message) h = ground arith
  select_found-host tier (ok resolved) {choice} h =
      select_profile-host tier resolved.model resolved.variant {choice = choice} (cc h)

  select_by-host :
      (matrix : Matrix) (model : Option Text) {choice : Selected}
      → options.source ≡ host
      → select_by world options matrix model ≡ ok (selected choice)
      → is_some choice.requested ≡ true
  unfolding select_by
  select_by-host matrix (some model) hosted h = ground arith
  select_by-host matrix none {choice} hosted h =
      select_found-host (tier_label world options)
        (profile_pair matrix (tier_label world options) options.variant) {choice = choice}
        (rw hosted at h)

  -- Whatever is recorded for an entry with the source host is refused by the finalizer, whatever the
  -- entry is: the dispatch always requests a model for it.
  pub validate_run_model-execute_host :
      (kind : Kind) (store : Submissions) (folder : Folder) (run : PersistedRun) (entry : PlanEntry)
      → options.source ≡ host
      → recorded_run (execute_dispatch_run world options store folder) ≡ some run
      → is_cons (validate_run_model (dispatch_run kind run) entry) ≡ true
  unfolding dispatch_run run_data_of select_model
  validate_run_model-execute_host kind store folder run entry hosted h =
      let r = execute_dispatch_run-IsRun world options store folder h in
      validate_run_model-host (dispatch_run kind run) entry (ground (arith, r.made))
        (ground (arith, r.made, select_by-host r.matrix options.model hosted r.chosen))

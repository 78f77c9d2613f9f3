-- ===== src/Dispatch/Core.antt =====
-- .opencode/plugins/review-dispatch/index.ts: `executeDispatchRun`, with
-- `shouldReclassifyToSuccess` and the write of the run file.
pub mod Recorded
pub mod Modelled
pub mod Reporting
pub mod Refused
pub mod Persisted
use complytime_providers.Prelude.{
  ℕ, Text, txt, ◌==◌, Bool, true, false, not, ◌&&◌, ◌||◌, Option, none, some, List, [], ◌∷◌, ◌++◌,
  find, if◌then◌else◌, or_else, is_some, is_none, get, put, Assoc, Result, ok, err, ◌>>=◌,
}
use complytime_providers.Review.Model.{
  Status, success, failed, cancelled, is_status, Source, explicit, advisor, host, Tier, tier_text,
  Finding, RunError, PlanEntry,
}
use complytime_providers.Review.Votes.{is_cons}
use complytime_providers.Review.Consolidate.{Proposal, PostSubmissionAbort, PersistedRun}
use complytime_providers.Plan.Policy.{Matrix, Reviewer, Resolved, profile_pair}
use complytime_providers.Dispatch.Folder.{
  RunFile, run_file, garbled, Folder, remove, move, temporary_path,
}
use complytime_providers.Dispatch.Executor.{
  ModelIdentity, Provenance, InvokeAgentResult, Response, sanitize_invocation_error,
  direct_model_identity, failed_result,
}
use complytime_providers.Dispatch.Executor.Session.{Agenda, execute_agent_session}
use complytime_providers.Dispatch.Executor.HostModel.{HostMessage, HostModel, resolve_host_model}
use complytime_providers.Dispatch.Submissions.{Submitted, Submissions, harvest}
use complytime_providers.Dispatch.Selecting.{
  RunOptions, resolve_plan_entry_runtime, World, Selected, Selection, inherit_model, select_profile,
  select_resolved, tier_label, select_by, select_model, selected, exits,
}

unfoldable pub make_provenance : Text → Option Text → Option Text → Bool → Provenance
make_provenance agent requested variant read_only = record {
  agent = agent;
  requested_model = requested;
  requested_variant = variant;
  resolved_parent_model = none;
  resolved_parent_variant = none;
  reported_child_model = none;
  model_mismatch = false;
  read_only = read_only;
}

has_code : Option RunError → Text → Bool
has_code none code = false
has_code (some error) code = error.code == code

unfoldable pub should_reclassify_to_success : InvokeAgentResult → Submitted → Bool
unfolding has_code txt
should_reclassify_to_success result submitted =
    is_status result.status failed
    && has_code result.error (txt "child_message_error")
    && (is_cons submitted.findings || is_cons submitted.proposals)
    && is_cons result.text
    && not result.provenance.model_mismatch

pub record DispatchOutcome : Type 0 where
  pub result : InvokeAgentResult
  pub run_data : Option PersistedRun
  pub persisted : Bool
  pub run_id : Text

-- `text || null`
abbrev pub or_null : Text → Option Text
or_null [] = none
or_null (c ∷ s) = some (c ∷ s)

is_agent : Text → Reviewer → Bool
is_agent agent reviewer = reviewer.agent == agent

module _ (world : World) (options : RunOptions) where
  unfoldable pub early_exit : Text → Text → Text → Bool → DispatchOutcome
  unfolding failed_result make_provenance
  early_exit placeholder code message retryable = record {
    result =
        failed_result world.redact
          (make_provenance options.agent (some placeholder) options.variant options.read_only) code
          message retryable failed [] none;
    run_data = none;
    persisted = false;
    run_id = world.run_id;
  }

  -- The run of a choice, before the session.
  unfoldable pub provenance_of : Selected → Provenance
  unfolding make_provenance
  provenance_of choice = elim choice.parent [
    | none ↦ make_provenance options.agent choice.requested choice.variant options.read_only
    | some parent ↦ record (make_provenance options.agent choice.requested none options.read_only) {
      resolved_parent_model = some parent.model;
      resolved_parent_variant = parent.variant;
    }
  ]

  audit : Bool → InvokeAgentResult → Option RunError → Option PostSubmissionAbort
  audit true result (some error) = some (record {
    original_status = result.status;
    error_code = error.code;
    error_message = error.message;
  })
  audit _ result _ = none

  unfoldable pub run_data_of : Selected → InvokeAgentResult → Submitted → PersistedRun
  unfolding should_reclassify_to_success audit
  run_data_of choice result submitted =
      let reclassified = should_reclassify_to_success result submitted in
      record {
        correlation_id = options.correlation_id;
        run_id = world.run_id;
        agent = options.agent;
        source = options.source;
        sequence = options.sequence;
        status = if reclassified then success else result.status;
        started_at = world.started_at;
        finished_at = world.finished_at;
        requested_model = choice.requested;
        provider = if is_some choice.parent then none else or_null choice.identity.provider_id;
        model_id = if is_some choice.parent then none else or_null choice.identity.model_id;
        variant = if is_some choice.parent then none else choice.variant;
        resolved_parent_model = elim choice.parent [
          | some parent ↦ some parent.model
          | none ↦ result.provenance.resolved_parent_model
        ];
        resolved_parent_variant = elim choice.parent [
          | some parent ↦ parent.variant
          | none ↦ result.provenance.resolved_parent_variant
        ];
        reported_model = result.provenance.reported_child_model;
        model_mismatch = result.provenance.model_mismatch;
        usage = result.usage;
        error = if reclassified then none else result.error;
        workflow_verdict = none;
        findings = submitted.findings;
        proposals = submitted.proposals;
        text = result.text;
        read_only = options.read_only;
        prompt = some options.prompt_text;
        post_submission_abort = audit reclassified result result.error;
        discarded_submissions = none;
      }

  abbrev pub active_name : Text
  active_name = txt "run-" ++ options.agent ++ txt ".json"

  -- The temporary file that a failure may leave is removed where that succeeds.
  abandoned : Folder → Folder
  unfolding remove
  abandoned folder =
      if world.unlinks then remove folder (temporary_path active_name world.run_id) else folder

  -- The write of the run file: whether it has reached the disk, and the folder.
  unfoldable pub persist_run : PersistedRun → Folder → Bool × Folder
  unfolding abandoned move put
  persist_run run folder =
      let temporary = temporary_path active_name world.run_id in
      let written = put folder temporary (run_file run) in
      if not world.makes_folder
      then (false, abandoned folder)
      else if not world.writes
      then (false, abandoned (if world.leaves_part then put folder temporary garbled else folder))
      else if not world.renames
      then (false, abandoned written)
      else (true, move written temporary active_name (run_file run))

  unfoldable pub run_selected :
      Selected → Submissions → Folder → DispatchOutcome × Submissions × Folder
  unfolding provenance_of execute_agent_session harvest run_data_of persist_run
  run_selected choice store folder =
      let (result, linked) =
        execute_agent_session world.redact (provenance_of choice) choice.identity world.agenda in
      let (submitted, left) = harvest store result.child_session_id in
      let run = run_data_of choice result submitted in
      let (persisted, after) = persist_run run folder in
      (
        record {
          result = result;
          run_data = some run;
          persisted = persisted;
          run_id = world.run_id;
        },
        left,
        after,
      )

  run_selection : Submissions → Folder → Selection → DispatchOutcome × Submissions × Folder
  unfolding run_selected early_exit
  run_selection store folder (selected choice) = run_selected choice store folder
  run_selection store folder (exits placeholder code message retryable) =
      (early_exit placeholder code message retryable, store, folder)

  requested_placeholder : Text
  unfolding tier_label
  requested_placeholder = elim options.model [
    | some model ↦ model
    | none ↦ tier_label world options
  ]

  -- With the policies, or the message of the error that loading them has thrown.
  execute_with :
      Submissions
      → Folder
      → Result (Matrix × List Reviewer)
      → Result (DispatchOutcome × Submissions × Folder)
  unfolding early_exit requested_placeholder sanitize_invocation_error is_agent select_model
      run_selection txt
  execute_with store folder (err message) = ok (
    early_exit requested_placeholder (txt "policy_load_failed")
        (sanitize_invocation_error world.redact message) true,
    store,
    folder,
  )
  execute_with store folder (ok (matrix, reviewers)) =
      if is_none (find (is_agent options.agent) reviewers)
      then ok (
        early_exit requested_placeholder (txt "unknown_agent")
            (txt "agent " ++ options.agent ++ txt " is absent from the reviewer manifest") false,
        store,
        folder,
      )
      else select_model world options matrix >>= λ (selection : Selection).
          ok (run_selection store folder selection)

  -- The store is the one that the children have left when the session has ended. A thrown error
  -- stops before the session and the folder are touched.
  unfoldable pub execute_dispatch_run :
      Submissions → Folder → Result (DispatchOutcome × Submissions × Folder)
  unfolding execute_with
  execute_dispatch_run store folder = execute_with store folder world.policies

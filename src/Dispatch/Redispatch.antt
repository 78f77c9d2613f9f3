-- ===== src/Dispatch/Redispatch.antt =====
-- .opencode/plugins/review-dispatch/index.ts: the tool `redispatch_failed_runs`, behind the check of its
-- arguments and of the session's metadata. The texts of the reasons are left out.
pub mod Active
pub mod Kept
pub mod Once
pub mod Recoverable
pub mod Recovering
use complytime_providers.Prelude.{
  ℕ, Text, txt, ◌==◌, Bool, true, false, not, ◌&&◌, ◌||◌, Option, none, some, List, [], ◌∷◌, ◌++◌,
  map, length, count, find, ltb, nat_eq, if◌then◌else◌, is_none, get, put, sort_by, Result, ok, err,
  Runtime,
}
use complytime_providers.Review.Model.{
  Status, failed, is_status, Source, explicit, advisor, host, RunError, PlanEntry, is_include,
}
use complytime_providers.Review.Consolidate.{PersistedRun}
use complytime_providers.Dispatch.Folder.{
  RunFile, run_file, garbled, Folder, remove, LoadedRun, LoadedRuns, load_dispatch_run_files,
}
use complytime_providers.Dispatch.Targets.{
  resolve_recovery_targets, scoped_unreadable_agents, missing_agent_names,
}
use complytime_providers.Dispatch.Core.{DispatchOutcome, execute_dispatch_run}
use complytime_providers.Dispatch.Submissions.{Submissions}
use complytime_providers.Dispatch.Selecting.{RunOptions, World, resolve_plan_entry_runtime}
use complytime_providers.Dispatch.Archive.{
  RedispatchOutcome, redispatch_index, RedispatchRunResult, Session, RedispatchCalls, is_entry_of,
  redispatch_result, superseded_name, superseded_path, options_of, archive_run,
  restore_prior_run_file, redispatched, early_exited, refused, not_found, unreadable,
  missing_prompt, no_plan_entry, error,
}

module _ (calls : RedispatchCalls) where
  -- A run that has left no run file: the prior one is restored, or its place is reported.
  unfoldable pub give_up :
      LoadedRun → RedispatchOutcome → Option RunError → Session → RedispatchRunResult × Session
  unfolding restore_prior_run_file redispatch_result superseded_path
  give_up target outcome failure session =
      let (restored, after) = restore_prior_run_file calls target session in
      let result = record (redispatch_result target.run outcome) { error = failure } in
      (
        if restored then result else record result {
          outcome = error;
          superseded_run_file = some (superseded_path target.run);
        },
        after,
      )

  unfoldable pub replaced : LoadedRun → PersistedRun → RedispatchRunResult
  unfolding redispatch_result superseded_path
  replaced target run = record (redispatch_result target.run redispatched) {
    superseded_run_file = some (superseded_path target.run);
    new_run_id = some run.run_id;
    new_status = some run.status;
    findings = length run.findings;
    proposals = length run.proposals;
    error = run.error;
  }

  after_execution :
      LoadedRun → DispatchOutcome → Option PersistedRun → Session → RedispatchRunResult × Session
  unfolding give_up replaced
  after_execution target outcome none session =
      give_up target early_exited outcome.result.error session
  after_execution target outcome (some run) session =
      if outcome.persisted
      then (replaced target run, session)
      else give_up target error outcome.result.error session

  unfoldable pub after_core :
      LoadedRun
      → Session
      → Result (DispatchOutcome × Submissions × Folder)
      → RedispatchRunResult × Session
  unfolding give_up after_execution
  after_core target session (err message) = give_up target error none session
  after_core target session (ok (outcome, left, folder)) =
      after_execution target outcome outcome.run_data
        (record session { store = left; folder = folder })

  -- The run behind the archive move.
  unfoldable pub execute_again :
      LoadedRun → PlanEntry → Text → Session → RedispatchRunResult × Session
  unfolding options_of execute_dispatch_run after_core
  execute_again target entry prompt session = after_core target session (
      execute_dispatch_run (calls.worlds target.run)
        (options_of calls.correlation_id target.run entry prompt) session.store session.folder)

  with_archive :
      LoadedRun → PlanEntry → Text → Session → Option Session → RedispatchRunResult × Session
  unfolding redispatch_result execute_again
  with_archive target entry prompt session none = (redispatch_result target.run error, session)
  with_archive target entry prompt session (some archived) =
      execute_again target entry prompt archived

  with_entry : LoadedRun → Option PlanEntry → Option Text → Session → RedispatchRunResult × Session
  unfolding redispatch_result with_archive archive_run
  with_entry target none prompt session = (redispatch_result target.run no_plan_entry, session)
  with_entry target (some entry) none session =
      (redispatch_result target.run missing_prompt, session)
  with_entry target (some entry) (some prompt) session =
      with_archive target entry prompt session (archive_run calls target session)

  -- The body of the loop.
  unfoldable pub redispatch_target :
      List PlanEntry → LoadedRun → Session → RedispatchRunResult × Session
  unfolding redispatch_result is_entry_of with_entry
  redispatch_target plan target session =
      if not (is_status target.run.status failed)
      then (redispatch_result target.run refused, session)
      else with_entry target (find (is_entry_of target.run) plan) target.run.prompt session

  unfoldable pub redispatch_targets :
      List PlanEntry → List LoadedRun → Session → List RedispatchRunResult × Session
  unfolding redispatch_target
  redispatch_targets plan [] session = ([], session)
  redispatch_targets plan (target ∷ targets) session =
      let (result, next) = redispatch_target plan target session in
      let (results, last) = redispatch_targets plan targets next in (result ∷ results, last)

pub record RedispatchSummary : Type 0 where
  pub found : Bool
  pub runs : List RedispatchRunResult
  pub total_runs : ℕ
  pub redispatched_runs : ℕ
  pub refused_runs : ℕ

has_outcome : RedispatchOutcome → RedispatchRunResult → Bool
has_outcome outcome result = nat_eq (redispatch_index result.outcome) (redispatch_index outcome)

redispatch_summary : Bool → List RedispatchRunResult → RedispatchSummary
unfolding has_outcome
redispatch_summary found results = record {
  found = found;
  runs = results;
  total_runs = length results;
  redispatched_runs = count (has_outcome redispatched) results;
  refused_runs = count (has_outcome refused) results;
}

bare_result : RedispatchOutcome → Text → RedispatchRunResult
bare_result outcome agent = record {
  agent = agent;
  run_id = none;
  outcome = outcome;
  superseded_run_file = none;
  new_run_id = none;
  new_status = none;
  findings = 0;
  proposals = 0;
  error = none;
}

abbrev agent_of_result : RedispatchRunResult → Text
agent_of_result result = result.agent

all_redispatched :
    LoadedRuns → Option (List Text) → List RedispatchRunResult → List RedispatchRunResult
unfolding bare_result scoped_unreadable_agents missing_agent_names
all_redispatched runs agents results =
    let reported =
      results
      ++ map (bare_result unreadable) (scoped_unreadable_agents runs.unreadable_files agents) in
    reported
    ++ map (bare_result not_found) (missing_agent_names agents (map agent_of_result reported))

-- `a.run.sequence - b.run.sequence || a.run.agent.localeCompare(b.run.agent)`
runs_before : Runtime → LoadedRun → LoadedRun → Bool
runs_before js a b =
    ltb a.run.sequence b.run.sequence
    || (nat_eq a.run.sequence b.run.sequence && js.locale_leb a.run.agent b.run.agent)

unfoldable pub ordered_targets : Runtime → List LoadedRun → Option (List Text) → List LoadedRun
unfolding resolve_recovery_targets sort_by runs_before
ordered_targets js runs agents =
    sort_by (runs_before js)
      (resolve_recovery_targets runs agents (λ (run : PersistedRun). is_status run.status failed))

redispatch_loaded :
    Runtime
    → RedispatchCalls
    → List PlanEntry
    → Option (List Text)
    → Session
    → Option LoadedRuns
    → RedispatchSummary × Session
unfolding ordered_targets redispatch_targets redispatch_summary all_redispatched
redispatch_loaded js calls plan agents session none = (redispatch_summary false [], session)
redispatch_loaded js calls plan agents session (some runs) =
    let (results, after) =
      redispatch_targets calls plan (ordered_targets js runs.loaded agents) session in
    (redispatch_summary true (all_redispatched runs agents results), after)

-- The tool, with the plan of the session's metadata: its summary, and the session that it leaves.
unfoldable pub redispatch_failed_runs :
    Runtime
    → RedispatchCalls
    → List PlanEntry
    → Option (List Text)
    → Session
    → RedispatchSummary × Session
unfolding load_dispatch_run_files redispatch_loaded
redispatch_failed_runs js calls plan agents session =
    redispatch_loaded js calls plan agents session
      (load_dispatch_run_files calls.listed session.folder)

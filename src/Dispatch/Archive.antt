-- ===== src/Dispatch/Archive.antt =====
-- .opencode/plugins/review-dispatch/index.ts: the results of a redispatch, and the archive of the run
-- files that it replaces.
use complytime_providers.Prelude.{
  ℕ, Text, txt, ◌==◌, Bool, true, false, ◌&&◌, Option, none, some, ◌∷◌, ◌++◌, nat_eq, if◌then◌else◌,
  get, put,
}
use complytime_providers.Review.Model.{
  Status, Source, explicit, advisor, host, RunError, PlanEntry, is_include,
}
use complytime_providers.Review.Consolidate.{PersistedRun}
use complytime_providers.Dispatch.Folder.{Folder, remove, LoadedRun}
use complytime_providers.Dispatch.Submissions.{Submissions}
use complytime_providers.Dispatch.Selecting.{RunOptions, World, resolve_plan_entry_runtime}

pub data RedispatchOutcome : Type 0 where
  redispatched early_exited refused not_found unreadable missing_prompt no_plan_entry error :
      RedispatchOutcome

abbrev pub redispatch_index : RedispatchOutcome → ℕ
redispatch_index redispatched = 0
redispatch_index early_exited = 1
redispatch_index refused = 2
redispatch_index not_found = 3
redispatch_index unreadable = 4
redispatch_index missing_prompt = 5
redispatch_index no_plan_entry = 6
redispatch_index error = 7

pub record RedispatchRunResult : Type 0 where
  pub agent : Text
  pub run_id : Option Text
  pub outcome : RedispatchOutcome
  pub superseded_run_file : Option Text
  pub new_run_id : Option Text
  pub new_status : Option Status
  pub findings : ℕ
  pub proposals : ℕ
  pub error : Option RunError

-- The submissions, the session's folder, and its folder `superseded`.
pub record Session : Type 0 where
  pub store : Submissions
  pub folder : Folder
  pub archive : Folder

-- The identifier of the session, and what the calls answer: whether the folder can be listed, whether
-- a run file can be archived and whether it can be restored, and what happens to the run that is
-- executed again.
pub record RedispatchCalls : Type 0 where
  pub correlation_id : Text
  pub listed : Bool
  pub archives : PersistedRun → Bool
  pub restores : PersistedRun → Bool
  pub worlds : PersistedRun → World

abbrev source_index : Source → ℕ
source_index explicit = 0
source_index advisor = 1
source_index host = 2

unfoldable pub is_entry_of : PersistedRun → PlanEntry → Bool
is_entry_of run entry =
    entry.agent == run.agent
    && nat_eq (source_index entry.source) (source_index run.source)
    && nat_eq entry.sequence run.sequence
    && is_include entry.decision

unfoldable pub redispatch_result : PersistedRun → RedispatchOutcome → RedispatchRunResult
redispatch_result run outcome = record {
  agent = run.agent;
  run_id = some run.run_id;
  outcome = outcome;
  superseded_run_file = none;
  new_run_id = none;
  new_status = none;
  findings = 0;
  proposals = 0;
  error = none;
}

unfoldable pub superseded_name : PersistedRun → Text
unfolding txt
superseded_name run = txt "run-" ++ run.agent ++ b'-' ∷ (run.run_id ++ txt ".json")

unfoldable pub superseded_path : PersistedRun → Text
unfolding superseded_name txt
superseded_path run = txt "superseded/" ++ superseded_name run

unfoldable pub options_of : Text → PersistedRun → PlanEntry → Text → RunOptions
unfolding resolve_plan_entry_runtime
options_of correlation_id run entry prompt =
    let (model, tier, variant) = resolve_plan_entry_runtime entry in
    record {
      agent = run.agent;
      prompt_text = prompt;
      correlation_id = correlation_id;
      sequence = entry.sequence;
      read_only = entry.read_only;
      source = entry.source;
      model = model;
      tier = tier;
      variant = variant;
    }

module _ (calls : RedispatchCalls) where
  -- `rename` to the archive, where the file is there and the call succeeds.
  unfoldable pub archive_run : LoadedRun → Session → Option Session
  unfolding get put remove superseded_name
  archive_run target session = elim (get session.folder target.file) [
    | none ↦ none
    | some file ↦
        if calls.archives target.run
        then some (record session {
          folder = remove session.folder target.file;
          archive = put session.archive (superseded_name target.run) file;
        })
        else none
  ]

  -- `restorePriorRunFile`
  unfoldable pub restore_prior_run_file : LoadedRun → Session → Bool × Session
  unfolding get put remove superseded_name
  restore_prior_run_file target session = elim (get session.archive (superseded_name target.run)) [
    | none ↦ (false, session)
    | some file ↦
        if calls.restores target.run
        then (
          true,
          record session {
            folder = put session.folder target.file file;
            archive = remove session.archive (superseded_name target.run);
          },
        )
        else (false, session)
  ]

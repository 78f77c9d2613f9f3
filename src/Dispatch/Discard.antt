-- ===== src/Dispatch/Discard.antt =====
-- .opencode/plugins/review-dispatch/index.ts: the tool `discard_orphaned_submissions`, behind the check
-- of its arguments.
pub mod Kept
pub mod Names
pub mod Cleared
use complytime_providers.Prelude.{
  ℕ, Text, txt, Bool, true, false, not, ◌&&◌, Option, none, some, List, [], ◌∷◌, ◌++◌, map, length,
  count, nat_eq, if◌then◌else◌, put,
}
use complytime_providers.Review.Model.{success, is_status}
use complytime_providers.Review.Votes.{is_cons}
use complytime_providers.Review.Consolidate.{PersistedRun}
use complytime_providers.Dispatch.Folder.{
  RunFile, run_file, garbled, Folder, remove, move, LoadedRun, LoadedRuns, load_dispatch_run_files,
  temporary_path,
}
use complytime_providers.Dispatch.Targets.{
  resolve_recovery_targets, scoped_unreadable_agents, missing_agent_names,
}

pub data DiscardStatus : Type 0 where
  discarded refused no_orphaned_submissions not_found unreadable error : DiscardStatus

abbrev discard_index : DiscardStatus → ℕ
discard_index discarded = 0
discard_index refused = 1
discard_index no_orphaned_submissions = 2
discard_index not_found = 3
discard_index unreadable = 4
discard_index error = 5

pub record DiscardRunResult : Type 0 where
  pub agent : Text
  pub run_id : Option Text
  pub status : DiscardStatus
  pub discarded_findings : ℕ
  pub discarded_proposals : ℕ
  pub reason : Option Text

-- What the calls answer: whether `readdir` succeeds, the time, and for each run file the error of
-- the write of its temporary file, whether such a write leaves a part of it, the error of the
-- rename, and whether the removal of the temporary file succeeds.
pub record DiscardCalls : Type 0 where
  pub listed : Bool
  pub discarded_at : Text
  pub write : Text → Option Text
  pub leaves_part : Text → Bool
  pub rename : Text → Option Text
  pub unlink : Text → Bool

unfoldable pub discard_result : Text → Option Text → DiscardStatus → Option Text → DiscardRunResult
discard_result agent run_id status reason = record {
  agent = agent;
  run_id = run_id;
  status = status;
  discarded_findings = 0;
  discarded_proposals = 0;
  reason = reason;
}

abbrev pub is_success : PersistedRun → Bool
is_success run = is_status run.status success

-- The run without its submissions, and with the record of the discard.
unfoldable pub emptied : Text → PersistedRun → PersistedRun
emptied discarded_at run = record run {
  findings = [];
  proposals = [];
  discarded_submissions = some (record {
    agent = run.agent;
    run_id = run.run_id;
    discarded_findings = length run.findings;
    discarded_proposals = length run.proposals;
    discarded_at = discarded_at;
  });
}

module _ (calls : DiscardCalls) where
  rewrite_failed : LoadedRun → Folder → Text → DiscardRunResult × Folder
  unfolding discard_result remove txt
  rewrite_failed target folder message = (
    discard_result target.run.agent (some target.run.run_id) error
        (some (txt "failed to rewrite " ++ target.file ++ txt ": " ++ message)),
    if calls.unlink target.file
        then remove folder (temporary_path target.file target.run.run_id)
        else folder,
  )

  -- The write of the temporary file, and its rename.
  unfoldable pub rewrite : LoadedRun → Folder → DiscardRunResult × Folder
  unfolding rewrite_failed emptied move put txt
  rewrite target folder =
      let file = target.file in
      let run = target.run in
      let temporary = temporary_path file run.run_id in
      let rewritten = run_file (emptied calls.discarded_at run) in
      elim (calls.write file) [
        | some message ↦
            rewrite_failed target
              (if calls.leaves_part file then put folder temporary garbled else folder) message
        | none ↦ elim (calls.rename file) [
          | some message ↦ rewrite_failed target (put folder temporary rewritten) message
          | none ↦ (
            record {
              agent = run.agent;
              run_id = some run.run_id;
              status = discarded;
              discarded_findings = length run.findings;
              discarded_proposals = length run.proposals;
              reason = none;
            },
            move (put folder temporary rewritten) temporary file rewritten,
          )
        ]
      ]

  -- The body of the loop.
  unfoldable pub discard_target : LoadedRun → Folder → DiscardRunResult × Folder
  unfolding rewrite discard_result txt
  discard_target target folder =
      let run = target.run in
      if is_success run
      then (
        discard_result run.agent (some run.run_id) refused (
            some (
              txt
                "run status is \"success\"; successful runs are never discard targets (DR-FR-001)")),
        folder,
      )
      else if not (is_cons run.findings) && not (is_cons run.proposals)
      then (discard_result run.agent (some run.run_id) no_orphaned_submissions none, folder)
      else rewrite target folder

  unfoldable pub discard_targets : List LoadedRun → Folder → List DiscardRunResult × Folder
  unfolding discard_target
  discard_targets [] folder = ([], folder)
  discard_targets (target ∷ targets) folder =
      let (result, next) = discard_target target folder in
      let (results, last) = discard_targets targets next in (result ∷ results, last)

pub record DiscardSummary : Type 0 where
  pub found : Bool
  pub runs : List DiscardRunResult
  pub total_runs : ℕ
  pub discarded_runs : ℕ
  pub refused_runs : ℕ

has_result : DiscardStatus → DiscardRunResult → Bool
has_result status result = nat_eq (discard_index result.status) (discard_index status)

discard_summary : Bool → List DiscardRunResult → DiscardSummary
unfolding has_result
discard_summary found results = record {
  found = found;
  runs = results;
  total_runs = length results;
  discarded_runs = count (has_result discarded) results;
  refused_runs = count (has_result refused) results;
}

unreadable_result : Text → DiscardRunResult
unfolding discard_result txt
unreadable_result agent =
    discard_result agent none unreadable
      (some (txt "run file could not be read or parsed; left untouched"))

missing_result : Text → DiscardRunResult
unfolding discard_result txt
missing_result agent =
    discard_result agent none not_found
      (some (txt "no run file for this agent in the dispatch session directory"))

abbrev agent_of_result : DiscardRunResult → Text
agent_of_result result = result.agent

-- The results of the loop, of the files that were not read, and of the agents without a file.
unfoldable pub all_results :
    LoadedRuns → Option (List Text) → List DiscardRunResult → List DiscardRunResult
unfolding unreadable_result missing_result scoped_unreadable_agents missing_agent_names
all_results runs agents results =
    let reported =
      results ++ map unreadable_result (scoped_unreadable_agents runs.unreadable_files agents) in
    reported ++ map missing_result (missing_agent_names agents (map agent_of_result reported))

-- The tool: its summary, and the folder that it leaves.
unfoldable pub discard_orphaned_submissions :
    DiscardCalls → Option (List Text) → Folder → DiscardSummary × Folder
unfolding load_dispatch_run_files resolve_recovery_targets discard_targets discard_summary
    all_results
discard_orphaned_submissions calls agents folder =
    elim (load_dispatch_run_files calls.listed folder) [
      | none ↦ (discard_summary false [], folder)
      | some runs ↦
          let targets =
            resolve_recovery_targets runs.loaded agents
              (λ (run : PersistedRun). not (is_success run)) in
          let (results, after) = discard_targets calls targets folder in
          (discard_summary true (all_results runs agents results), after)
    ]

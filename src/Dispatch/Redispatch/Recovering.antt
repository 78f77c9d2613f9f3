-- ===== src/Dispatch/Redispatch/Recovering.antt =====
-- .opencode/plugins/review-dispatch/index.ts: the run files behind the tool `redispatch_failed_runs`.
use complytime_providers.Prelude.{
  ◌≡◌, refl, sym, ap, ◌∙◌, inl, inr, ◌⊎◌, Text, txt, false, Option, some, List, [], ◌∷◌, ◌++◌,
  IsUnique, keys, All, All-sort_by, get, Runtime,
}
use mathlib.Core.Path.{subst}
use mathlib.Core.List.{append_assoc}
use complytime_providers.Review.Model.{PlanEntry}
use complytime_providers.Review.Consolidate.{PersistedRun}
use complytime_providers.Dispatch.Folder.{
  RunFile, run_file, Folder, LoadedRun, LoadedRuns, loaded_of, unreadable_of, run_names,
}
use complytime_providers.Dispatch.Folder.Names.{IsNamed, IsLoaded, load_dispatch_run_files-cases}
use complytime_providers.Dispatch.Targets.{resolve_recovery_targets}
use complytime_providers.Dispatch.Discard.Kept.{targets-IsLoaded}
use complytime_providers.Dispatch.Redispatch.{
  RedispatchSummary, redispatch_targets, ordered_targets, runs_before, all_redispatched,
  redispatch_summary, redispatch_loaded, redispatch_failed_runs,
}
use complytime_providers.Dispatch.Archive.{RedispatchRunResult, Session, RedispatchCalls}
use complytime_providers.Dispatch.Redispatch.Once.{IsSeparate, ordered_targets-IsOnce}
use complytime_providers.Dispatch.Redispatch.Recoverable.{
  IsRecoverable, redispatch_targets-IsRecoverable,
}
use complytime_providers.Dispatch.Redispatch.Kept.{is_failed, AllOwn, redispatch_targets-kept}

-- Every run file has the name under which the dispatch writes it.
abbrev pub IsTidy : Folder → Type 0
IsTidy folder =
    (name : Text) (run : PersistedRun)
    → IsNamed name
    → get folder name ≡ some (run_file run)
    → name ≡ (txt "run-" ++ run.agent ++ txt ".json")

All-own :
    (folder : Folder) (targets : List LoadedRun)
    → IsTidy folder
    → All (IsLoaded folder) targets
    → AllOwn folder targets
All-own folder [] tidy h = tt
All-own folder (t ∷ ts) tidy h = ((h.0, tidy t.file t.run h.0.1 h.0.0), All-own folder ts tidy h.1)

-- More results do not take one away.
IsRecoverable-append :
    (name : Text) (file : RunFile) (results all rest : List RedispatchRunResult) (after : Session)
    → all ≡ results ++ rest
    → IsRecoverable name file results after
    → IsRecoverable name file all after
IsRecoverable-append name file results all rest after e (inl there) = inl there
IsRecoverable-append name file results all rest after e
      (inr (prior, f, result, before, behind, listed, archived)) =
    inr (
      prior,
      f,
      result,
      before,
      behind ++ rest,
      e
          ∙ ap (λ (rs : List RedispatchRunResult). rs ++ rest) listed
          ∙ append_assoc before (result ∷ behind) rest,
      archived,
    )

module _ (js : Runtime) (calls : RedispatchCalls) (plan : List PlanEntry)
    (agents : Option (List Text)) (session : Session) (tidy : IsTidy session.folder) where
  abbrev targets : List LoadedRun
  targets = ordered_targets js (loaded_of session.folder (run_names session.folder)) agents

  abbrev looped : List RedispatchRunResult × Session
  looped = redispatch_targets calls plan targets session

  targets-AllOwn : AllOwn session.folder targets
  unfolding ordered_targets
  targets-AllOwn = All-own session.folder targets tidy (
      All-sort_by (IsLoaded session.folder) (runs_before js)
        (resolve_recovery_targets (loaded_of session.folder (run_names session.folder)) agents
          is_failed)
        (targets-IsLoaded session.folder agents is_failed))

  -- The tool has found no run file, or it leaves what the loop leaves and reports first what it
  -- reports.
  abbrev IsDone : RedispatchSummary × Session → Type 0
  IsDone done =
      (done.1 ≡ session)
      ⊎ ((done.1 ≡ looped.1) × (rest : List RedispatchRunResult) × (done.0.runs ≡ looped.0 ++ rest))

  redispatch_loaded-IsDone :
      (unreadable_files : List Text)
      → IsDone (
          redispatch_loaded js calls plan agents session (
            some (record {
              loaded = loaded_of session.folder (run_names session.folder);
              unreadable_files = unreadable_files;
            })))
  unfolding redispatch_loaded redispatch_summary all_redispatched
  redispatch_loaded-IsDone unreadable_files = inr (refl, _, append_assoc looped.0 _ _)

  redispatch_failed_runs-cases : IsDone (redispatch_failed_runs js calls plan agents session)
  unfolding redispatch_failed_runs
  redispatch_failed_runs-cases = elim (load_dispatch_run_files-cases calls.listed session.folder) [
    | inl (absent, _) ↦
        subst (λ (o : Option LoadedRuns). IsDone (redispatch_loaded js calls plan agents session o))
          (sym absent) (unfold redispatch_loaded in inl refl)
    | inr there ↦
        subst (λ (o : Option LoadedRuns). IsDone (redispatch_loaded js calls plan agents session o))
          (sym there)
          (redispatch_loaded-IsDone (unreadable_of session.folder (run_names session.folder)))
  ]

  -- The tool leaves every file of a run that has not failed as it is, and every file that it cannot
  -- read, if each run file has the name of its run's agent.
  pub redispatch_failed_runs-kept :
      (name : Text)
      → IsNamed name
      → ((run : PersistedRun)
          → get session.folder name ≡ some (run_file run)
          → is_failed run ≡ false)
      → get (redispatch_failed_runs js calls plan agents session).1.folder name
        ≡ get session.folder name
  redispatch_failed_runs-kept name h fine = elim redispatch_failed_runs-cases [
    | inl same ↦ ap (λ (s : Session). get s.folder name) same
    | inr (same, _, _) ↦
        ap (λ (s : Session). get s.folder name) same
        ∙ redispatch_targets-kept calls plan session.folder targets session name targets-AllOwn h
            fine
  ]

  -- If each run file has the name of its run's agent, the folder has each name once, and no two run
  -- files have one name in the archive, every run file stays as it is, or it is the file of a run that
  -- is in the archive, and a result of that run names its place there: either this result names the
  -- replacement that is under the old name now, or it is an error.
  pub redispatch_failed_runs-IsRecoverable :
      IsUnique (keys session.folder)
      → IsSeparate session.folder
      → (name : Text) (file : RunFile) → IsNamed name
      → get session.folder name ≡ some file
      → IsRecoverable name file
          (redispatch_failed_runs js calls plan agents session).0.runs
          (redispatch_failed_runs js calls plan agents session).1
  redispatch_failed_runs-IsRecoverable unique separate name file h there =
      let done = redispatch_failed_runs js calls plan agents session in
      elim redispatch_failed_runs-cases [
        | inl same ↦ inl (ap (λ (s : Session). get s.folder name) same ∙ there)
        | inr (same, rest, reported) ↦
            IsRecoverable-append name file looped.0 done.0.runs rest done.1 reported (
              subst (λ (s : Session). IsRecoverable name file looped.0 s) (sym same)
                (redispatch_targets-IsRecoverable calls plan session.folder name h targets session
                  file targets-AllOwn
                  (ordered_targets-IsOnce js session.folder agents name unique separate
                    targets-AllOwn)
                  there there))
      ]

-- ===== src/Dispatch/Redispatch/Active.antt =====
-- .opencode/plugins/review-dispatch/index.ts: which run files `redispatch_failed_runs` leaves.
use complytime_providers.Prelude.{
  ◌≡◌, refl, ap, ◌∷◌, sym, ◌∙◌, inl, inr, ◌⊎◌, Text, txt, ◌==◌, ==-refl, true, false, Option, none,
  some, ◌++◌, get, get-put, Result, ok, err, Bool-cases, Option-cases, arith,
}
use complytime_providers.Review.Model.{PlanEntry, RunError}
use complytime_providers.Review.Consolidate.{PersistedRun}
use complytime_providers.Dispatch.Folder.{run_file, Folder, LoadedRun}
use complytime_providers.Dispatch.Folder.Names.{IsNamed, get-remove_other}
use complytime_providers.Dispatch.Core.{DispatchOutcome, active_name, execute_dispatch_run}
use complytime_providers.Dispatch.Submissions.{Submissions}
use complytime_providers.Dispatch.Selecting.{World, RunOptions}
use complytime_providers.Dispatch.Core.Persisted.{execute_dispatch_run-IsWritten}
use complytime_providers.Dispatch.Redispatch.{replaced, give_up, after_execution, after_core}
use complytime_providers.Dispatch.Archive.{
  RedispatchOutcome, redispatched, redispatch_result, superseded_path, error, early_exited,
  RedispatchRunResult, Session, RedispatchCalls, superseded_name, options_of,
  restore_prior_run_file,
}

-- The file of a run has the name under which the dispatch writes it.
abbrev pub IsOwn : LoadedRun → Type 0
IsOwn target = target.file ≡ (txt "run-" ++ target.run.agent ++ txt ".json")

-- The name of a run's file in the archive.
abbrev pub archived_name : PersistedRun → Text
archived_name run = txt "run-" ++ run.agent ++ b'-' ∷ (run.run_id ++ txt ".json")

pub superseded_name_lem : (run : PersistedRun) → superseded_name run ≡ archived_name run
unfolding superseded_name txt
superseded_name_lem run = refl

-- The file of a run is in the archive, and the result of the run names its place there. In its old
-- place is the replacement that the result names, or the result is an error.
pub record IsArchived (name : Text) (prior : PersistedRun) (result : RedispatchRunResult)
    (after : Session) : Type 0 where
  pub stored : get after.archive (archived_name prior) ≡ some (run_file prior)
  pub of_agent : result.agent ≡ prior.agent
  pub of_run : result.run_id ≡ some prior.run_id
  pub placed : result.superseded_run_file ≡ some (txt "superseded/" ++ archived_name prior)
  pub either :
      ((run : PersistedRun) × (result.outcome ≡ redispatched)
        × (result.new_run_id ≡ some run.run_id)
        × (get after.folder name ≡ some (run_file run)))
      ⊎ (result.outcome ≡ error)

module _ (calls : RedispatchCalls) (target : LoadedRun) where
  -- Under every other run's name nothing changes.
  abbrev pub Elsewhere : Session → Session → Type 0
  Elsewhere before after =
      (name : Text)
      → IsNamed name
      → (target.file == name) ≡ false
      → get after.folder name ≡ get before.folder name

  -- Under every other archived run's name nothing changes in the archive.
  abbrev pub SparesArchive : Session → Session → Type 0
  SparesArchive before after =
      (place : Text)
      → (superseded_name target.run == place) ≡ false
      → get after.archive place ≡ get before.archive place

  -- The run file of the target is there, or it is in the archive.
  abbrev pub IsSafe : RedispatchRunResult → Session → Type 0
  IsSafe result after =
      (get after.folder target.file ≡ some (run_file target.run))
      ⊎ IsArchived target.file target.run result after

  -- The run file of the target is in the archive.
  abbrev pub IsStored : Session → Type 0
  IsStored session = get session.archive (superseded_name target.run) ≡ some (run_file target.run)

  give_up-Elsewhere :
      (outcome : RedispatchOutcome) (failure : Option RunError) (session : Session)
      → Elsewhere session (give_up calls target outcome failure session).1
  unfolding give_up restore_prior_run_file
  give_up-Elsewhere outcome failure session name h apart =
      elim (Option-cases (get session.archive (superseded_name target.run))) [
        | inl absent ↦ ground (arith, absent)
        | inr (file, there) ↦ ground (arith, there, get-put session.folder target.file name file)
      ]

  give_up-SparesArchive :
      (outcome : RedispatchOutcome) (failure : Option RunError) (session : Session)
      → SparesArchive session (give_up calls target outcome failure session).1
  unfolding give_up restore_prior_run_file
  give_up-SparesArchive outcome failure session place apart =
      elim (Option-cases (get session.archive (superseded_name target.run))) [
        | inl absent ↦ ground (arith, absent)
        | inr (file, there) ↦ ground (
          arith,
          there,
          get-remove_other session.archive (superseded_name target.run) place apart,
        )
      ]

  give_up-IsSafe :
      (outcome : RedispatchOutcome) (failure : Option RunError) (session : Session)
      → IsStored session
      → let (result, after) = give_up calls target outcome failure session in IsSafe result after
  unfolding give_up restore_prior_run_file redispatch_result superseded_path
  give_up-IsSafe outcome failure session there = elim (Bool-cases (calls.restores target.run)) [
    | inl restored ↦ inl (
        ground (
          arith,
          there,
          restored,
          get-put session.folder target.file target.file (run_file target.run),
          ==-refl target.file,
        ))
    | inr lost ↦
        let there' = sym (ap (get session.archive) (superseded_name_lem target.run)) ∙ there in
        inr (
          rw (there, lost, give_up, restore_prior_run_file)
            (record {
              stored = there';
              of_agent = refl;
              of_run = refl;
              placed =
                  ap (λ (n : Text). some (txt "superseded/" ++ n)) (superseded_name_lem target.run);
              either = inr refl;
            }))
  ]

  -- What follows the archive move: only the target's file is written.
  after_execution-Elsewhere :
      (outcome : DispatchOutcome) (run : Option PersistedRun) (session : Session)
      → Elsewhere session (after_execution calls target outcome run session).1
  unfolding after_execution
  after_execution-Elsewhere outcome none session =
      give_up-Elsewhere early_exited outcome.result.error session
  after_execution-Elsewhere outcome (some run) session = elim (Bool-cases outcome.persisted) [
    | inl written ↦ rw written (λ name h apart. refl)
    | inr lost ↦ rw lost (give_up-Elsewhere error outcome.result.error session)
  ]

  after_execution-SparesArchive :
      (outcome : DispatchOutcome) (run : Option PersistedRun) (session : Session)
      → SparesArchive session (after_execution calls target outcome run session).1
  unfolding after_execution
  after_execution-SparesArchive outcome none session =
      give_up-SparesArchive early_exited outcome.result.error session
  after_execution-SparesArchive outcome (some run) session = elim (Bool-cases outcome.persisted) [
    | inl written ↦ rw written (λ place apart. refl)
    | inr lost ↦ rw lost (give_up-SparesArchive error outcome.result.error session)
  ]

  replaced-IsArchived :
      (run : PersistedRun) (session : Session)
      → IsStored session
      → get session.folder target.file ≡ some (run_file run)
      → IsArchived target.file target.run (replaced calls target run) session
  unfolding replaced redispatch_result superseded_path
  replaced-IsArchived run session there new = record {
    stored = sym (ap (get session.archive) (superseded_name_lem target.run)) ∙ there;
    of_agent = refl;
    of_run = refl;
    placed = ap (λ (n : Text). some (txt "superseded/" ++ n)) (superseded_name_lem target.run);
    either = inl (run, refl, refl, new);
  }

  after_execution-IsSafe :
      (outcome : DispatchOutcome) (run : Option PersistedRun) (session : Session)
      → IsStored session
      → ((r : PersistedRun)
          → outcome.persisted ≡ true
          → run ≡ some r
          → get session.folder target.file ≡ some (run_file r))
      → let (result, after) = after_execution calls target outcome run session in
        IsSafe result after
  unfolding after_execution
  after_execution-IsSafe outcome none session there new =
      give_up-IsSafe early_exited outcome.result.error session there
  after_execution-IsSafe outcome (some run) session there new =
      elim (Bool-cases outcome.persisted) [
        | inl written ↦
            rw written (inr (replaced-IsArchived run session there (new run written refl)))
        | inr lost ↦ rw lost (give_up-IsSafe error outcome.result.error session there)
      ]

module _ (calls : RedispatchCalls) (target : LoadedRun) (entry : PlanEntry) (prompt : Text)
    (own : IsOwn target) (named : IsNamed target.file) where
  abbrev pub world : World
  world = calls.worlds target.run

  abbrev pub options : RunOptions
  options = options_of calls.correlation_id target.run entry prompt

  active_name-options : active_name world options ≡ target.file
  unfolding options_of
  active_name-options = sym own

  pub after_core-Elsewhere :
      (session : Session) (done : Result (DispatchOutcome × Submissions × Folder))
      → execute_dispatch_run world options session.store session.folder ≡ done
      → Elsewhere calls target session (after_core calls target session done).1
  unfolding after_core
  after_core-Elsewhere session (err message) e name h apart =
      give_up-Elsewhere calls target error none session name h apart
  after_core-Elsewhere session (ok (outcome, left, folder)) e name h apart =
      let next : Session = record session { store = left; folder = folder } in
      let same : get folder name ≡ get session.folder name =
        elim (execute_dispatch_run-IsWritten world options session.store session.folder e name h) [
          | inl (_, same) ↦ same
          | inr (run, _, _, new) ↦ ground (arith, new, apart, active_name-options)
        ] in
      after_execution-Elsewhere calls target outcome outcome.run_data next name h apart ∙ same

  pub after_core-SparesArchive :
      (session : Session) (done : Result (DispatchOutcome × Submissions × Folder))
      → SparesArchive calls target session (after_core calls target session done).1
  unfolding after_core
  after_core-SparesArchive session (err message) =
      give_up-SparesArchive calls target error none session
  after_core-SparesArchive session (ok (outcome, left, folder)) =
      after_execution-SparesArchive calls target outcome outcome.run_data
        (record session { store = left; folder = folder })

  pub after_core-IsSafe :
      (session : Session) (done : Result (DispatchOutcome × Submissions × Folder))
      → IsStored calls target session
      → execute_dispatch_run world options session.store session.folder ≡ done
      → let (result, after) = after_core calls target session done in
        IsSafe calls target result after
  unfolding after_core
  after_core-IsSafe session (err message) there e =
      give_up-IsSafe calls target error none session there
  after_core-IsSafe session (ok (outcome, left, folder)) there e =
      after_execution-IsSafe calls target outcome outcome.run_data
        (record session { store = left; folder = folder }) there
        (λ r written told.
          elim (execute_dispatch_run-IsWritten world options session.store session.folder e
            target.file named) [
              | inl (lost, _) ↦ ground (arith, lost, written)
              | inr (run, _, given, new) ↦
                  ground (arith, new, given, told, active_name-options, ==-refl target.file)
            ])

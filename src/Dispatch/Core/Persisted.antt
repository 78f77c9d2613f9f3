-- ===== src/Dispatch/Core/Persisted.antt =====
-- .opencode/plugins/review-dispatch/index.ts: what `executeDispatchRun` writes in the session's folder.
use complytime_providers.Prelude.{
  ◌≡◌, refl, inl, inr, ◌⊎◌, Text, ◌==◌, true, false, some, List, if◌then◌else◌, get, put, get-put,
  is_none, find, Result, ok, err, ◌>>=◌, Bool-cases, arith,
}
use mathlib.Core.Path.{subst}
use complytime_providers.Plan.Policy.{Matrix, Reviewer}
use complytime_providers.Review.Consolidate.{PersistedRun}
use complytime_providers.Dispatch.Folder.{run_file, garbled, Folder, remove, move, temporary_path}
use complytime_providers.Dispatch.Folder.Names.{
  IsNamed, temporary_path-ne, get-put_other, get-remove_other,
}
use complytime_providers.Dispatch.Core.{
  DispatchOutcome, is_agent, early_exit, active_name, abandoned, persist_run, run_selected,
  run_selection, execute_with, execute_dispatch_run, run_data_of,
}
use complytime_providers.Dispatch.Submissions.{Submissions, harvest}
use complytime_providers.Dispatch.Selecting.{
  RunOptions, World, Selection, selected, exits, select_model,
}
use complytime_providers.Dispatch.Core.Recorded.{session_of}

-- Under a run's name the folder is as before, but for the run file that has reached the disk.
abbrev pub IsWritten : Text → Folder → DispatchOutcome → Folder → Type 0
IsWritten active before outcome after =
    (name : Text)
    → IsNamed name
    → ((outcome.persisted ≡ false) × (get after name ≡ get before name))
      ⊎ ((run : PersistedRun) × (outcome.persisted ≡ true)
          × (outcome.run_data ≡ some run)
          × (get after name ≡ (if active == name then some (run_file run) else get before name)))

module _ (world : World) (options : RunOptions) where
  abbrev active : Text
  active = active_name world options

  get-abandoned :
      (folder : Folder) (name : Text)
      → IsNamed name
      → get (abandoned world options folder) name ≡ get folder name
  unfolding abandoned
  get-abandoned folder name h = ground (
    arith,
    get-remove_other folder (temporary_path active world.run_id) name
        (temporary_path-ne active world.run_id name h),
  )

  get-persist_run :
      (run : PersistedRun) (folder : Folder) (name : Text)
      → IsNamed name
      → (((persist_run world options run folder).0 ≡ false)
          × (get (persist_run world options run folder).1 name ≡ get folder name))
        ⊎ (((persist_run world options run folder).0 ≡ true)
            × (get (persist_run world options run folder).1 name
                ≡ (if active == name then some (run_file run) else get folder name)))
  unfolding persist_run move
  get-persist_run run folder name h =
      let temporary = temporary_path active world.run_id in
      let apart = temporary_path-ne active world.run_id name h in
      let written = put folder temporary (run_file run) in
      let part = if world.leaves_part then put folder temporary garbled else folder in
      ground (
        arith,
        get-abandoned folder name h,
        get-abandoned written name h,
        get-abandoned part name h,
        get-put_other folder temporary name garbled apart,
        get-put_other folder temporary name (run_file run) apart,
        get-remove_other written temporary name apart,
        get-put (remove written temporary) active name (run_file run),
      )

  IsWritten-of_ok :
      (folder : Folder) (done : DispatchOutcome × Submissions × Folder) {outcome : DispatchOutcome}
      {left : Submissions} {after : Folder}
      → IsWritten active folder done.0 done.2
      → ok done ≡ ok (outcome, left, after)
      → IsWritten active folder outcome after
  IsWritten-of_ok folder done {outcome} {left} {after} written h =
      let same : done ≡ (outcome, left, after) = cc h in
      subst (λ (d : DispatchOutcome × Submissions × Folder). IsWritten active folder d.0 d.2) (same)
        written

  run_selection-IsWritten :
      (store : Submissions) (folder : Folder) (selection : Selection)
      → let (outcome, left, after) = run_selection world options store folder selection in
        IsWritten active folder outcome after
  unfolding run_selection run_selected early_exit
  run_selection-IsWritten store folder (exits placeholder code message retryable) name h =
      inl (refl, refl)
  run_selection-IsWritten store folder (selected choice) name h =
      let result = session_of world options choice in
      let run = run_data_of world options choice result (harvest store result.child_session_id).0 in
      elim (get-persist_run run folder name h) [
        | inl (lost, same) ↦ inl (lost, same)
        | inr (kept, new) ↦ inr (run, kept, refl, new)
      ]

  execute_selection-IsWritten :
      (store : Submissions) (folder : Folder) (selection : Result Selection)
      {outcome : DispatchOutcome} {left : Submissions} {after : Folder}
      → (selection >>= λ (s : Selection). ok (run_selection world options store folder s))
        ≡ ok (outcome, left, after)
      → IsWritten active folder outcome after
  execute_selection-IsWritten store folder (err message) h = ground arith
  execute_selection-IsWritten store folder (ok selection) {outcome} {left} {after} h =
      IsWritten-of_ok folder (run_selection world options store folder selection)
        (run_selection-IsWritten store folder selection) h

  execute_with-IsWritten :
      (store : Submissions) (folder : Folder) (policies : Result (Matrix × List Reviewer))
      {outcome : DispatchOutcome} {left : Submissions} {after : Folder}
      → execute_with world options store folder policies ≡ ok (outcome, left, after)
      → IsWritten active folder outcome after
  unfolding execute_with early_exit
  execute_with-IsWritten store folder (err message) h =
      IsWritten-of_ok folder _ (λ name n. inl (refl, refl)) h
  execute_with-IsWritten store folder (ok (matrix, reviewers)) h =
      elim (Bool-cases (is_none (find (is_agent options.agent) reviewers))) [
        | inl absent ↦ IsWritten-of_ok folder _ (λ name n. inl (refl, refl)) (rw absent at h)
        | inr present ↦
            execute_selection-IsWritten store folder (select_model world options matrix)
              (rw present at h)
      ]

  -- An execution changes no run file but its own, and that only if it has reached the disk.
  pub execute_dispatch_run-IsWritten :
      (store : Submissions) (folder : Folder) {outcome : DispatchOutcome} {left : Submissions}
      {after : Folder}
      → execute_dispatch_run world options store folder ≡ ok (outcome, left, after)
      → IsWritten active folder outcome after
  unfolding execute_dispatch_run
  execute_dispatch_run-IsWritten store folder h =
      execute_with-IsWritten store folder world.policies h

-- ===== src/Dispatch/Redispatch/Kept.antt =====
-- .opencode/plugins/review-dispatch/index.ts: which files a round of `redispatch_failed_runs` touches.
use complytime_providers.Prelude.{
  ◌≡◌, refl, ◌∙◌, inl, inr, Text, ◌==◌, ==_iff, ==-refl, get-put, Bool, false, ◌&&◌, Option, none,
  some, List, [], ◌∷◌, All, find, get, Bool-cases, Option-cases, arith,
}
use complytime_providers.Review.Model.{failed, is_status, PlanEntry}
use complytime_providers.Review.Consolidate.{PersistedRun}
use complytime_providers.Dispatch.Folder.{run_file, Folder, LoadedRun}
use complytime_providers.Dispatch.Folder.Names.{IsNamed, IsLoaded, get-put_other, get-remove_other}
use complytime_providers.Dispatch.Core.{execute_dispatch_run}
use complytime_providers.Dispatch.Redispatch.{
  execute_again, with_archive, with_entry, redispatch_target, redispatch_targets,
}
use complytime_providers.Dispatch.Archive.{
  Session, RedispatchCalls, is_entry_of, archive_run, superseded_name,
}
use complytime_providers.Dispatch.Redispatch.Active.{
  IsOwn, Elsewhere, SparesArchive, IsStored, IsSafe, after_core-SparesArchive, world, options,
  after_core-Elsewhere, after_core-IsSafe,
}

abbrev pub is_failed : PersistedRun → Bool
is_failed run = is_status run.status failed

module _ (calls : RedispatchCalls) (target : LoadedRun) (own : IsOwn target)
    (named : IsNamed target.file) where
  get-archive_run :
      (session : Session) {archived : Session}
      → archive_run calls target session ≡ some archived
      → Elsewhere calls target session archived
  unfolding archive_run
  get-archive_run session h name n apart = elim (Option-cases (get session.folder target.file)) [
    | inl absent ↦ ground (arith, absent)
    | inr (file, there) ↦
        ground (arith, there, get-remove_other session.folder target.file name apart)
  ]

  archive_run-SparesArchive :
      (session : Session) {archived : Session}
      → archive_run calls target session ≡ some archived
      → SparesArchive calls target session archived
  unfolding archive_run
  archive_run-SparesArchive session h place apart =
      elim (Option-cases (get session.folder target.file)) [
        | inl absent ↦ ground (arith, absent)
        | inr (file, there) ↦ ground (
          arith,
          there,
          get-put_other session.archive (superseded_name target.run) place file apart,
        )
      ]

  archive_run-IsStored :
      (session : Session) {archived : Session}
      → get session.folder target.file ≡ some (run_file target.run)
      → archive_run calls target session ≡ some archived
      → IsStored calls target archived
  unfolding archive_run
  archive_run-IsStored session there h =
      let place = superseded_name target.run in
      ground
        (arith, there, get-put session.archive place place (run_file target.run), ==-refl place)

  with_archive-Elsewhere :
      (entry : PlanEntry) (prompt : Text) (session : Session) (archived : Option Session)
      → archive_run calls target session ≡ archived
      → Elsewhere calls target session (with_archive calls target entry prompt session archived).1
  unfolding with_archive execute_again
  with_archive-Elsewhere entry prompt session none e name n apart = refl
  with_archive-Elsewhere entry prompt session (some archived) e name n apart =
      after_core-Elsewhere calls target entry prompt own named archived
        (execute_dispatch_run (world calls target entry prompt own named)
          (options calls target entry prompt own named) archived.store archived.folder)
        refl name n apart
      ∙ get-archive_run session e name n apart

  with_archive-SparesArchive :
      (entry : PlanEntry) (prompt : Text) (session : Session) (archived : Option Session)
      → archive_run calls target session ≡ archived
      → SparesArchive calls target session
          (with_archive calls target entry prompt session archived).1
  unfolding with_archive execute_again
  with_archive-SparesArchive entry prompt session none e place apart = refl
  with_archive-SparesArchive entry prompt session (some archived) e place apart =
      after_core-SparesArchive calls target entry prompt own named archived
        (execute_dispatch_run (world calls target entry prompt own named)
          (options calls target entry prompt own named) archived.store archived.folder)
        place apart
      ∙ archive_run-SparesArchive session e place apart

  with_archive-IsSafe :
      (entry : PlanEntry) (prompt : Text) (session : Session) (archived : Option Session)
      → get session.folder target.file ≡ some (run_file target.run)
      → archive_run calls target session ≡ archived
      → let (result, after) = with_archive calls target entry prompt session archived in
        IsSafe calls target result after
  unfolding with_archive execute_again
  with_archive-IsSafe entry prompt session none there e = inl there
  with_archive-IsSafe entry prompt session (some archived) there e =
      after_core-IsSafe calls target entry prompt own named archived
        (execute_dispatch_run (world calls target entry prompt own named)
          (options calls target entry prompt own named) archived.store archived.folder)
        (archive_run-IsStored session there e) refl

  with_entry-Elsewhere :
      (entry : Option PlanEntry) (prompt : Option Text) (session : Session)
      → Elsewhere calls target session (with_entry calls target entry prompt session).1
  unfolding with_entry
  with_entry-Elsewhere none prompt session name n apart = refl
  with_entry-Elsewhere (some entry) none session name n apart = refl
  with_entry-Elsewhere (some entry) (some prompt) session name n apart =
      with_archive-Elsewhere entry prompt session (archive_run calls target session) refl name n
        apart

  with_entry-SparesArchive :
      (entry : Option PlanEntry) (prompt : Option Text) (session : Session)
      → SparesArchive calls target session (with_entry calls target entry prompt session).1
  unfolding with_entry
  with_entry-SparesArchive none prompt session place apart = refl
  with_entry-SparesArchive (some entry) none session place apart = refl
  with_entry-SparesArchive (some entry) (some prompt) session place apart =
      with_archive-SparesArchive entry prompt session (archive_run calls target session) refl place
        apart

  with_entry-IsSafe :
      (entry : Option PlanEntry) (prompt : Option Text) (session : Session)
      → get session.folder target.file ≡ some (run_file target.run)
      → let (result, after) = with_entry calls target entry prompt session in
        IsSafe calls target result after
  unfolding with_entry
  with_entry-IsSafe none prompt session there = inl there
  with_entry-IsSafe (some entry) none session there = inl there
  with_entry-IsSafe (some entry) (some prompt) session there =
      with_archive-IsSafe entry prompt session (archive_run calls target session) there refl

  -- A target that has not failed changes nothing, and another one only its own file.
  pub redispatch_target-Elsewhere :
      (plan : List PlanEntry) (session : Session) (name : Text)
      → IsNamed name
      → (is_failed target.run && target.file == name) ≡ false
      → get (redispatch_target calls plan target session).1.folder name ≡ get session.folder name
  unfolding redispatch_target
  redispatch_target-Elsewhere plan session name n other = elim (Bool-cases (is_failed target.run)) [
    | inl bad ↦ rw bad (
        with_entry-Elsewhere (find (is_entry_of target.run) plan) target.run.prompt session name n
          (ground (arith, bad)))
    | inr fine ↦ rw fine refl
  ]

  pub redispatch_target-SparesArchive :
      (plan : List PlanEntry) (session : Session)
      → SparesArchive calls target session (redispatch_target calls plan target session).1
  unfolding redispatch_target
  redispatch_target-SparesArchive plan session place apart =
      elim (Bool-cases (is_failed target.run)) [
        | inl bad ↦ rw bad (
            with_entry-SparesArchive (find (is_entry_of target.run) plan) target.run.prompt session
              place apart)
        | inr fine ↦ rw fine refl
      ]

  pub redispatch_target-IsSafe :
      (plan : List PlanEntry) (session : Session)
      → get session.folder target.file ≡ some (run_file target.run)
      → let (result, after) = redispatch_target calls plan target session in
        IsSafe calls target result after
  unfolding redispatch_target
  redispatch_target-IsSafe plan session there = elim (Bool-cases (is_failed target.run)) [
    | inl bad ↦
        rw bad
          (with_entry-IsSafe (find (is_entry_of target.run) plan) target.run.prompt session there)
    | inr fine ↦ rw fine (inl there)
  ]

-- The targets come from the folder, and each stands under its own name.
abbrev pub AllOwn : Folder → List LoadedRun → Type 0
AllOwn folder targets = All (λ (t : LoadedRun). IsLoaded folder t × IsOwn t) targets

module _ (calls : RedispatchCalls) (plan : List PlanEntry) (folder : Folder) where
  -- What is there under a name and is no failed run stays as it is.
  pub redispatch_targets-kept :
      (targets : List LoadedRun) (session : Session) (name : Text)
      → AllOwn folder targets
      → IsNamed name
      → ((run : PersistedRun) → get folder name ≡ some (run_file run) → is_failed run ≡ false)
      → get (redispatch_targets calls plan targets session).1.folder name ≡ get session.folder name
  unfolding redispatch_targets
  redispatch_targets-kept [] session name own n fine = refl
  redispatch_targets-kept (target ∷ targets) session name own n fine =
      redispatch_targets-kept targets (redispatch_target calls plan target session).1 name own.1 n
        fine
      ∙ redispatch_target-Elsewhere calls target own.0.1 own.0.0.1 plan session name n
          (ground (arith, ==_iff target.file name, own.0.0.0, fine target.run))

-- ===== src/Dispatch/Discard/Kept.antt =====
-- .opencode/plugins/review-dispatch/index.ts: what `discard_orphaned_submissions` leaves of the run
-- files.
use complytime_providers.Prelude.{
  ◌≡◌, refl, ap, inl, inr, ◌⊎◌, Text, ◌==◌, ==_iff, Bool, true, false, not, ◌&&◌, Option, some,
  List, [], ◌∷◌, length, filter, All, if◌then◌else◌, get, put, get-put, Bool-cases, arith,
}
use complytime_providers.Review.Votes.{is_cons}
use complytime_providers.Review.Consolidate.{PersistedRun}
use complytime_providers.Dispatch.Folder.{
  RunFile, run_file, garbled, Folder, remove, move, LoadedRun, load_dispatch_run_files, run_names,
  loaded_of, temporary_path,
}
use complytime_providers.Dispatch.Folder.Names.{
  IsNamed, IsLoaded, temporary_path-ne, run_names-IsNamed, loaded_of-IsLoaded, get-put_other,
  get-remove_other,
}
use complytime_providers.Dispatch.Targets.{resolve_recovery_targets, is_target}
use complytime_providers.Dispatch.Discard.{
  DiscardCalls, is_success, emptied, rewrite_failed, rewrite, discard_target, discard_targets,
  discard_orphaned_submissions,
}

-- A run that has lost its submissions to the record of their discard.
abbrev pub without_submissions : Text → PersistedRun → PersistedRun
without_submissions at run = record run {
  findings = [];
  proposals = [];
  discarded_submissions = some (record {
    agent = run.agent;
    run_id = run.run_id;
    discarded_findings = length run.findings;
    discarded_proposals = length run.proposals;
    discarded_at = at;
  });
}

-- A file of a run is as it was, or it holds a run without success that has lost its submissions to
-- the record of the discard.
abbrev pub IsKept : Text → Option RunFile → Option RunFile → Type 0
IsKept at before after =
    (after ≡ before)
    ⊎ ((run : PersistedRun) × (before ≡ some (run_file run))
        × (is_success run ≡ false)
        × (after ≡ some (run_file (without_submissions at run))))

abbrev pub AllKept : Text → Folder → Folder → Type 0
AllKept at folder after =
    (name : Text) → IsNamed name → IsKept at (get folder name) (get after name)

module _ (calls : DiscardCalls) (target : LoadedRun) (folder : Folder) where
  abbrev temporary : Text
  temporary = temporary_path target.file target.run.run_id

  abbrev rewritten : RunFile
  rewritten = run_file (without_submissions calls.discarded_at target.run)

  -- A rewrite that fails leaves the files of the runs alone, whatever it leaves of the temporary one.
  get-rewrite_failed :
      (before : Folder) (message name : Text)
      → IsNamed name
      → get (rewrite_failed calls target before message).1 name ≡ get before name
  unfolding rewrite_failed
  get-rewrite_failed before message name h = ground (
    arith,
    get-remove_other before temporary name,
    temporary_path-ne target.file target.run.run_id name h,
  )

  -- Under a run's name a rewrite changes the file of the target only, and that to the emptied run.
  pub get-rewrite :
      (name : Text)
      → IsNamed name
      → (get (rewrite calls target folder).1 name ≡ get folder name)
        ⊎ (((target.file == name) ≡ true)
            × (get (rewrite calls target folder).1 name ≡ some rewritten))
  unfolding rewrite move emptied
  get-rewrite name h =
      let apart = temporary_path-ne target.file target.run.run_id name h in
      let part = if calls.leaves_part target.file then put folder temporary garbled else folder in
      let written = put folder temporary rewritten in
      ground (
        arith,
        λ (message : Text). get-rewrite_failed part message name h,
        λ (message : Text). get-rewrite_failed written message name h,
        get-put_other folder temporary name garbled apart,
        get-put_other folder temporary name rewritten apart,
        get-remove_other written temporary name apart,
        get-put (remove written temporary) target.file name rewritten,
      )

module _ (calls : DiscardCalls) (folder : Folder) where
  abbrev stamp : Text
  stamp = calls.discarded_at

  pub discard_target-AllKept :
      (target : LoadedRun) (before : Folder)
      → IsLoaded folder target
      → AllKept stamp folder before
      → AllKept stamp folder (discard_target calls target before).1
  unfolding discard_target
  discard_target-AllKept target before loaded kept name h =
      elim (Bool-cases (is_success target.run)) [
        | inl good ↦ rw good (kept name h)
        | inr bad ↦
            elim (Bool-cases
              (not (is_cons target.run.findings) && not (is_cons target.run.proposals))) [
                | inl none_left ↦ rw (bad, none_left) (kept name h)
                | inr orphaned ↦
                    rw (bad, orphaned)
                      (elim (get-rewrite calls target before name h) [
                        | inl same ↦ rw same (kept name h)
                        | inr (here, new) ↦ inr (
                          target.run,
                          ground (arith, ==_iff target.file name, loaded.0),
                          bad,
                          new,
                        )
                      ])
              ]
      ]

  discard_targets-AllKept :
      (targets : List LoadedRun) (before : Folder)
      → All (IsLoaded folder) targets
      → AllKept stamp folder before
      → AllKept stamp folder (discard_targets calls targets before).1
  unfolding discard_targets
  discard_targets-AllKept [] before loaded kept = kept
  discard_targets-AllKept (target ∷ targets) before loaded kept =
      discard_targets-AllKept targets (discard_target calls target before).1 loaded.1
        (discard_target-AllKept target before loaded.0 kept)

All-filter {ℓ} :
    {A : Type ℓ} (P : A → Type 0) (p : A → Bool) (xs : List A) → All P xs → All P (filter p xs)
All-filter P p [] h = tt
All-filter P p (x ∷ xs) h = elim (Bool-cases (p x)) [
  | inl took ↦ rw took (h.0, All-filter P p xs h.1)
  | inr left ↦ rw left (All-filter P p xs h.1)
]

pub targets-IsLoaded :
    (folder : Folder) (agents : Option (List Text)) (in_scope : PersistedRun → Bool)
    → All
        (IsLoaded folder)
        (resolve_recovery_targets (loaded_of folder (run_names folder)) agents in_scope)
unfolding resolve_recovery_targets
targets-IsLoaded folder agents in_scope =
    All-filter (IsLoaded folder) (is_target agents in_scope) (loaded_of folder (run_names folder))
      (loaded_of-IsLoaded folder (run_names folder) (run_names-IsNamed folder))

-- The folder that the tool leaves: that of the loop, or the same one if no run file was found.
abbrev pub after_discard : DiscardCalls → Option (List Text) → Folder → Folder
after_discard calls agents folder = (discard_orphaned_submissions calls agents folder).1

abbrev pub orphan_targets : Option (List Text) → Folder → List LoadedRun
orphan_targets agents folder =
    resolve_recovery_targets (loaded_of folder (run_names folder)) agents
      (λ (run : PersistedRun). not (is_success run))

abbrev after_targets : DiscardCalls → Option (List Text) → Folder → Folder
after_targets calls agents folder = (discard_targets calls (orphan_targets agents folder) folder).1

pub after_discard-cases :
    (calls : DiscardCalls) (agents : Option (List Text)) (folder : Folder)
    → (after_discard calls agents folder ≡ folder)
      ⊎ (after_discard calls agents folder ≡ after_targets calls agents folder)
unfolding discard_orphaned_submissions load_dispatch_run_files
after_discard-cases calls agents folder = ground arith

-- Discarding leaves every run file as it was, but for runs without success, which may lose their
-- submissions to the record of the discard and keep all else, whatever agents are given and
-- whatever calls fail.
pub discard_orphaned_submissions-IsKept :
    (calls : DiscardCalls) (agents : Option (List Text)) (folder : Folder) (name : Text)
    → IsNamed name
    → IsKept calls.discarded_at
        (get folder name)
        (get (discard_orphaned_submissions calls agents folder).1 name)
discard_orphaned_submissions-IsKept calls agents folder name h =
    elim (after_discard-cases calls agents folder) [
      | inl same ↦ inl (ap (λ (f : Folder). get f name) same)
      | inr looped ↦ rw looped (
          discard_targets-AllKept calls folder (orphan_targets agents folder) folder
            (targets-IsLoaded folder agents (λ (run : PersistedRun). not (is_success run)))
            (λ n k. inl refl) name h)
    ]

-- ===== src/Dispatch/Discard/Cleared.antt =====
-- .opencode/plugins/review-dispatch/index.ts: after `discard_orphaned_submissions` no run without
-- success holds submissions.
use complytime_providers.Prelude.{
  ◌≡◌, refl, ap, ◌∙◌, inl, inr, ◌⊎◌, Text, ◌==◌, ==_iff, Bool, true, false, not, ◌&&◌, ◌||◌, Option,
  none, some, List, [], ◌∷◌, map, All, if◌then◌else◌, includes, get, put, get-put, Bool-cases,
  Option-cases, arith,
}
use complytime_providers.Review.Votes.{is_cons}
use complytime_providers.Review.Consolidate.{PersistedRun}
use complytime_providers.Dispatch.Folder.{
  RunFile, run_file, garbled, Folder, remove, move, LoadedRun, load_dispatch_run_files, add_loaded,
  loaded_of, run_names, temporary_path,
}
use complytime_providers.Dispatch.Folder.Names.{
  IsNamed, IsLoaded, temporary_path-ne, get-put_other, get-remove_other, includes-run_names,
  includes-of_get,
}
use complytime_providers.Dispatch.Targets.{resolve_recovery_targets, is_target}
use complytime_providers.Dispatch.Discard.{
  DiscardCalls, is_success, emptied, rewrite, discard_target, discard_targets,
  discard_orphaned_submissions,
}
use complytime_providers.Dispatch.Discard.Kept.{
  AllKept, discard_target-AllKept, targets-IsLoaded, orphan_targets,
}

abbrev pub has_orphans : PersistedRun → Bool
has_orphans run = not (is_success run) && (is_cons run.findings || is_cons run.proposals)

abbrev pub is_orphaned : Option RunFile → Bool
is_orphaned (some (run_file run)) = has_orphans run
is_orphaned _ = false

abbrev file_of : LoadedRun → Text
file_of entry = entry.file

-- The targets where no agents are given.
abbrev orphans : List LoadedRun → List LoadedRun
orphans runs = resolve_recovery_targets runs none (λ (run : PersistedRun). not (is_success run))

abbrev is_not_success : Option RunFile → Bool
is_not_success (some (run_file run)) = not (is_success run)
is_not_success _ = false

-- No write and no rename fails, and the folder can be listed.
pub record Succeeds (calls : DiscardCalls) : Type 0 where
  pub lists : calls.listed ≡ true
  pub writes : (file : Text) → calls.write file ≡ none
  pub renames : (file : Text) → calls.rename file ≡ none

module _ (calls : DiscardCalls) (ok : Succeeds calls) (folder : Folder) where
  get-rewrite_ok :
      (target : LoadedRun) (before : Folder) (name : Text)
      → IsNamed name
      → get (rewrite calls target before).1 name ≡ (
          if target.file == name
          then some (run_file (emptied calls.discarded_at target.run))
          else get before name)
  unfolding rewrite move
  get-rewrite_ok target before name h =
      let temporary = temporary_path target.file target.run.run_id in
      let rewritten = run_file (emptied calls.discarded_at target.run) in
      let written = put before temporary rewritten in
      let apart = temporary_path-ne target.file target.run.run_id name h in
      rw (rewrite, ok.writes target.file, ok.renames target.file)
        (get-put (remove written temporary) target.file name rewritten
          ∙ ap (λ (rest : Option RunFile). if target.file == name then some rewritten else rest)
              (get-remove_other written temporary name apart
                ∙ get-put_other before temporary name rewritten apart))

  -- The file of a target is the run that was loaded, or that run without its submissions.
  orphaned_target :
      (target : LoadedRun) (before : Folder)
      → IsLoaded folder target
      → AllKept calls.discarded_at folder before
      → is_orphaned (get before target.file) ≡ true
      → has_orphans target.run ≡ true
  unfolding emptied
  orphaned_target target before loaded kept h = elim (kept target.file loaded.1) [
    | inl same ↦ ground (arith, same, loaded.0)
    | inr (run, old, bad, new) ↦ absurd (ground (arith, new, bad))
  ]

  is_orphaned-discard_target :
      (target : LoadedRun) (before : Folder) (name : Text)
      → IsLoaded folder target
      → AllKept calls.discarded_at folder before
      → IsNamed name
      → is_orphaned (get (discard_target calls target before).1 name)
        ≡ (not (target.file == name) && is_orphaned (get before name))
  unfolding discard_target emptied
  is_orphaned-discard_target target before name loaded kept h =
      elim (Bool-cases (target.file == name)) [
        | inr apart ↦ ground (arith, get-rewrite_ok target before name h)
        | inl here ↦ rw here (cleared here)
      ]
    where
      cleared :
          (target.file == name) ≡ true
          → is_orphaned (get (discard_target calls target before).1 name) ≡ false
      cleared here = ground (
        arith,
        get-rewrite_ok target before name h,
        ==_iff target.file name,
        orphaned_target target before loaded kept,
      )

  is_orphaned-discard_targets :
      (targets : List LoadedRun) (before : Folder) (name : Text)
      → All (IsLoaded folder) targets
      → AllKept calls.discarded_at folder before
      → IsNamed name
      → is_orphaned (get (discard_targets calls targets before).1 name)
        ≡ (not (includes (map file_of targets) name) && is_orphaned (get before name))
  unfolding discard_targets includes
  is_orphaned-discard_targets [] before name loaded kept h = refl
  is_orphaned-discard_targets (target ∷ targets) before name loaded kept h =
      let next = (discard_target calls target before).1 in
      ground (
        arith,
        is_orphaned-discard_targets targets next name loaded.1
            (discard_target-AllKept calls folder target before loaded.0 kept) h,
        is_orphaned-discard_target target before name loaded.0 kept h,
      )

includes-add_loaded :
    (n : Text) (o : Option RunFile) (rest : List LoadedRun) (name : Text)
    → includes (map file_of (orphans (add_loaded n o rest))) name
      ≡ ((n == name && is_not_success o) || includes (map file_of (orphans rest)) name)
unfolding includes resolve_recovery_targets is_target
includes-add_loaded n none rest name = ground arith
includes-add_loaded n (some garbled) rest name = ground arith
includes-add_loaded n (some (run_file run)) rest name = ground arith

includes-orphans :
    (folder : Folder) (names : List Text) (name : Text)
    → includes (map file_of (orphans (loaded_of folder names))) name
      ≡ (includes names name && is_not_success (get folder name))
unfolding loaded_of includes resolve_recovery_targets
includes-orphans folder [] name = refl
includes-orphans folder (n ∷ names) name = ground (
  arith,
  includes-add_loaded n (get folder n) (loaded_of folder names) name,
  includes-orphans folder names name,
  ==_iff n name,
)

-- A run that would be warned of is not successful, and its file is found.
is_orphaned-found :
    (folder : Folder) (name : Text)
    → IsNamed name
    → is_orphaned (get folder name) ≡ true
    → (includes (run_names folder) name && is_not_success (get folder name)) ≡ true
is_orphaned-found folder name h orphan = elim (Option-cases (get folder name)) [
  | inl absent ↦ absurd (ground (arith, absent))
  | inr (file, there) ↦
      ground (arith, includes-run_names folder name, includes-of_get folder name there, there)
]

List-cases : (names : List Text) → (names ≡ []) ⊎ ((n : Text) × (ns : List Text) × (names ≡ n ∷ ns))
List-cases [] = inl refl
List-cases (n ∷ ns) = inr (n, ns, refl)

-- In a folder that is listed the tool leaves what the loop leaves.
after_discard-listed :
    (calls : DiscardCalls) (folder : Folder)
    → calls.listed ≡ true
    → (discard_orphaned_submissions calls none folder).1
      ≡ (discard_targets calls (orphan_targets none folder) folder).1
unfolding discard_orphaned_submissions
after_discard-listed calls folder listed = elim (List-cases (run_names folder)) [
  | inl empty ↦
      rw (discard_orphaned_submissions, load_dispatch_run_files, listed, empty)
        (unfold loaded_of resolve_recovery_targets discard_targets in refl)
  | inr (n, ns, found) ↦
      rw (discard_orphaned_submissions, load_dispatch_run_files, listed, found) refl
]

-- When no agents are given and no call fails, no file of a run holds submissions of a run without
-- success afterwards.
pub discard_orphaned_submissions-cleared :
    (calls : DiscardCalls) (folder : Folder) (name : Text)
    → Succeeds calls
    → IsNamed name
    → is_orphaned (get (discard_orphaned_submissions calls none folder).1 name) ≡ false
discard_orphaned_submissions-cleared calls folder name ok h =
    rw (after_discard-listed calls folder ok.lists) (
      ground (
        arith,
        is_orphaned-discard_targets calls ok folder (orphan_targets none folder) folder name
            (targets-IsLoaded folder none (λ (run : PersistedRun). not (is_success run)))
            (λ n k. inl refl) h,
        includes-orphans folder (run_names folder) name,
        is_orphaned-found folder name h,
      ))

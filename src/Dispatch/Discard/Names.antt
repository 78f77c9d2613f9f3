-- ===== src/Dispatch/Discard/Names.antt =====
-- .opencode/plugins/review-dispatch/index.ts: `discard_orphaned_submissions` neither adds nor removes
-- a run file.
use complytime_providers.Prelude.{
  ◌≡◌, refl, ap, ◌∙◌, inl, inr, Text, false, not, Option, some, List, [], ◌∷◌, filter, All,
  if◌then◌else◌, get, put, keys, sort, arith,
}
use complytime_providers.Review.Consolidate.{PersistedRun}
use complytime_providers.Dispatch.Folder.{
  RunFile, run_file, garbled, Folder, remove, is_run_name, is_run_name-temporary_path, move,
  LoadedRun, run_names, temporary_path,
}
use complytime_providers.Dispatch.Folder.Names.{
  IsNamed, IsLoaded, temporary_path-ne, names-put_other, names-remove_other, keys-put_there,
  includes-of_get, get-put_other, get-remove_other,
}
use complytime_providers.Dispatch.Discard.{
  DiscardCalls, is_success, emptied, rewrite_failed, rewrite, discard_target, discard_targets,
  discard_orphaned_submissions,
}
use complytime_providers.Dispatch.Discard.Kept.{
  without_submissions, AllKept, discard_target-AllKept, targets-IsLoaded, orphan_targets,
  after_discard-cases,
}

abbrev names_of : Folder → List Text
names_of folder = filter is_run_name (keys folder)

-- The file of a target stays there.
get-of_IsKept :
    (at : Text) (folder before : Folder) (target : LoadedRun)
    → IsLoaded folder target
    → AllKept at folder before
    → (file : RunFile) × (get before target.file ≡ some file)
get-of_IsKept at folder before target loaded kept = elim (kept target.file loaded.1) [
  | inl same ↦ (run_file target.run, same ∙ loaded.0)
  | inr (run, _, _, new) ↦ (run_file (without_submissions at run), new)
]

module _ (calls : DiscardCalls) (target : LoadedRun) (folder : Folder) where
  abbrev temporary : Text
  temporary = temporary_path target.file target.run.run_id

  abbrev hidden : is_run_name temporary ≡ false
  hidden = is_run_name-temporary_path target.file target.run.run_id

  names-rewrite_failed :
      (before : Folder) (message : Text)
      → names_of (rewrite_failed calls target before message).1 ≡ names_of before
  unfolding rewrite_failed
  names-rewrite_failed before message = ground (arith, names-remove_other before temporary hidden)

  names-rewrite :
      (file : RunFile)
      → IsNamed target.file
      → get folder target.file ≡ some file
      → names_of (rewrite calls target folder).1 ≡ names_of folder
  unfolding rewrite move
  names-rewrite file named there =
      let part = if calls.leaves_part target.file then put folder temporary garbled else folder in
      let rewritten = run_file (emptied calls.discarded_at target.run) in
      let written = put folder temporary rewritten in
      let apart = temporary_path-ne target.file target.run.run_id target.file named in
      let still : get (remove written temporary) target.file ≡ some file =
        get-remove_other written temporary target.file apart
        ∙ get-put_other folder temporary target.file rewritten apart
        ∙ there in
      ground (
        arith,
        λ (message : Text). names-rewrite_failed part message,
        λ (message : Text). names-rewrite_failed written message,
        names-put_other folder temporary garbled hidden,
        names-put_other folder temporary rewritten hidden,
        names-remove_other written temporary hidden,
        keys-put_there (remove written temporary) target.file rewritten
            (includes-of_get (remove written temporary) target.file still),
      )

module _ (calls : DiscardCalls) (folder : Folder) where
  names-discard_target :
      (target : LoadedRun) (before : Folder)
      → IsLoaded folder target
      → AllKept calls.discarded_at folder before
      → names_of (discard_target calls target before).1 ≡ names_of before
  unfolding discard_target
  names-discard_target target before loaded kept =
      let (file, there) = get-of_IsKept calls.discarded_at folder before target loaded kept in
      ground (arith, names-rewrite calls target before file loaded.1 there)

  names-discard_targets :
      (targets : List LoadedRun) (before : Folder)
      → All (IsLoaded folder) targets
      → AllKept calls.discarded_at folder before
      → names_of (discard_targets calls targets before).1 ≡ names_of before
  unfolding discard_targets
  names-discard_targets [] before loaded kept = refl
  names-discard_targets (target ∷ targets) before loaded kept =
      names-discard_targets targets (discard_target calls target before).1 loaded.1
        (discard_target-AllKept calls folder target before loaded.0 kept)
      ∙ names-discard_target target before loaded.0 kept

-- The run files that are found afterwards are those that were found before.
pub run_names-discard :
    (calls : DiscardCalls) (agents : Option (List Text)) (folder : Folder)
    → run_names (discard_orphaned_submissions calls agents folder).1 ≡ run_names folder
unfolding run_names
run_names-discard calls agents folder = ap sort (elim (after_discard-cases calls agents folder) [
  | inl same ↦ ap names_of same
  | inr looped ↦
      ap names_of looped
      ∙ names-discard_targets calls folder (orphan_targets agents folder) folder
          (targets-IsLoaded folder agents (λ (run : PersistedRun). not (is_success run)))
          (λ n k. inl refl)
])

-- ===== src/Workflow/Progress/Guards.antt =====
-- .opencode/plugins/uf-workflow/index.ts: what the progress tools leave alone on the disk.
use complytime_providers.Prelude.{
  ◌≡◌, refl, sym, ap, ◌∙◌, inl, inr, Text, txt, false, Option, none, Assoc, is_ok, Option-cases,
  Bool-cases, Result-cases, Result, ok, ◌>>=◌,
}
use complytime_providers.Workflow.Names.{sanitize_slug}
use complytime_providers.Workflow.Names.Slugs.{IsSlug, sanitize_slug-IsSlug}
use complytime_providers.Workflow.Progress.State.{PhaseCheckpointInput, resolve_key, fits_phase}
use complytime_providers.Workflow.Progress.Disk.{
  FilePath, Entry, missing, link, folder, file, denied, Disk, Node, set_entry, read_entry,
  read_state, remove_file, delete_entry, delete_state,
}
use complytime_providers.Workflow.Progress.Tools.{
  upsert_checkpoint_step, get_progress, clear_progress, success,
}
use complytime_providers.Workflow.Progress.Paths.{slug_path, state_path-slug_path}
use complytime_providers.Workflow.Progress.Store.{
  set_entry-same, not_err, read_state-entry, saved_state,
}
use complytime_providers.Workflow.Progress.Readback.{
  resolve_key-IsSlug, to_tool_result-success, not_failure,
}

module _ {Value : Type 0} (node : Node Value) (cwd : FilePath) where
  remove_file-ok :
      (disk : Disk) (path : FilePath) (after : Disk)
      → remove_file node cwd disk path ≡ (ok tt, after)
      → after path ≡ missing
  unfolding remove_file
  remove_file-ok disk path after h = elim (Option-cases (node.remove_error disk path)) [
    | inl fine ↦
        let left : set_entry disk path missing ≡ after =
          ap (λ q. q.1) (rw (fine, remove_file) at h) in
        sym (ap (λ d. d path) left) ∙ set_entry-same disk path missing
    | inr (message, e) ↦ absurd (not_err (ap (λ q. q.0) (rw (e, remove_file) at h)))
  ]

  delete_entry-ok :
      (disk : Disk) (path : FilePath) (entry : Entry) (after : Disk)
      → disk path ≡ entry
      → delete_entry node cwd disk path entry ≡ (ok tt, after)
      → after path ≡ missing
  unfolding delete_entry
  delete_entry-ok disk path missing after here h = sym (ap (λ d. d path) (ap (λ q. q.1) h)) ∙ here
  delete_entry-ok disk path link after here h = absurd (not_err (ap (λ q. q.0) h))
  delete_entry-ok disk path (denied message) after here h = absurd (not_err (ap (λ q. q.0) h))
  delete_entry-ok disk path folder after here h = remove_file-ok disk path after h
  delete_entry-ok disk path (file text) after here h = remove_file-ok disk path after h

  read_state-delete_state :
      (disk : Disk) (key cmd : Text) (after : Disk)
      → IsSlug key
      → IsSlug cmd
      → delete_state node cwd disk key cmd ≡ (ok tt, after)
      → read_state node cwd after key cmd ≡ ok none
  unfolding delete_state read_entry
  read_state-delete_state disk key cmd after slug_key slug_cmd h =
      let path = slug_path cwd key cmd in
      let gone =
        delete_entry-ok disk path (disk path) after refl
          (rw (state_path-slug_path cwd key cmd slug_key slug_cmd, delete_state) at h) in
      read_state-entry node cwd after key cmd slug_key slug_cmd ∙ ap (read_entry node cwd) gone

  -- After `clear_progress` has succeeded, `get_progress` for the same command and key returns no
  -- state.
  get_progress-clear_progress :
      (branch : Result Text) (disk : Disk) (command : Text) (key_arg : Option Text)
      (cleared : Text × Text) (after : Disk)
      → clear_progress node cwd branch disk command key_arg ≡ (success cleared, after)
      → get_progress node cwd branch after command key_arg ≡ success none
  unfolding clear_progress get_progress
  get_progress-clear_progress branch disk command key_arg cleared after h =
      elim (Result-cases (resolve_key branch key_arg)) [
        | inl (message, k) ↦ absurd (not_failure (ap (λ q. q.0) (rw (k, clear_progress) at h)))
        | inr (key, k) ↦ elim (Result-cases (sanitize_slug command)) [
          | inl (message, c) ↦ absurd (not_failure (ap (λ q. q.0) (rw (k, c, clear_progress) at h)))
          | inr (cmd, c) ↦
              let (outcome, left) = delete_state node cwd disk key cmd in
              let (_, deleted) =
                saved_state outcome left (command, key) cleared after
                  (to_tool_result-success (txt "CLEAR_PROGRESS_ERROR")
                    (outcome >>= λ _. ok (command, key)) left cleared after
                    (rw (k, c, clear_progress) at h)) in
              let gone =
                read_state-delete_state disk key cmd after (resolve_key-IsSlug branch key_arg key k)
                  (sanitize_slug-IsSlug command cmd c) deleted in
              rw (k, c, gone) refl
        ]
      ]

  delete_state-link :
      (disk : Disk) (key cmd : Text)
      → IsSlug key
      → IsSlug cmd
      → disk (slug_path cwd key cmd) ≡ link
      → (is_ok (delete_state node cwd disk key cmd).0 ≡ false)
        × ((delete_state node cwd disk key cmd).1 ≡ disk)
  unfolding delete_state delete_entry
  delete_state-link disk key cmd slug_key slug_cmd linked =
      rw (state_path-slug_path cwd key cmd slug_key slug_cmd, linked) (refl, refl)

  -- A state file that is a symbolic link is neither written nor removed, and the tools that would do
  -- so fail.
  pub upsert_checkpoint_step-link :
      (now : Text) (disk : Disk) (key command step cmd : Text) (fields : Option (Assoc Value))
      (phase : Option PhaseCheckpointInput)
      → IsSlug key
      → sanitize_slug command ≡ ok cmd
      → disk (slug_path cwd key cmd) ≡ link
      → (is_ok (upsert_checkpoint_step node cwd now disk key command step fields phase).0 ≡ false)
        × ((upsert_checkpoint_step node cwd now disk key command step fields phase).1 ≡ disk)
        × (is_ok (delete_state node cwd disk key cmd).0 ≡ false)
        × ((delete_state node cwd disk key cmd).1 ≡ disk)
  unfolding upsert_checkpoint_step read_entry
  upsert_checkpoint_step-link now disk key command step cmd fields phase slug_key c linked =
      let path = slug_path cwd key cmd in
      let slug_cmd = sanitize_slug-IsSlug command cmd c in
      let refused =
        read_state-entry node cwd disk key cmd slug_key slug_cmd
        ∙ ap (read_entry node cwd) linked in
      let kept = delete_state-link disk key cmd slug_key slug_cmd linked in
      elim (Bool-cases (fits_phase step phase)) [
        | inr unfit ↦ rw (unfit) (refl, refl, kept.0, kept.1)
        | inl fit ↦ rw (fit, c, refused) (refl, refl, kept.0, kept.1)
      ]

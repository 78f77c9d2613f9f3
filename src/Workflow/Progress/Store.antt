-- ===== src/Workflow/Progress/Store.antt =====
-- .opencode/plugins/uf-workflow/index.ts: what the progress tools read back from the disk.
use complytime_providers.Prelude.{
  ◌≡◌, refl, sym, ap, ◌∙◌, inl, inr, Text, txt, ==_iff, ==-refl, true, false, Option, some, [], ◌∷◌,
  ◌++◌, Assoc, Option-cases, Bool-cases, Result-cases, Result, ok, err, ◌>>=◌, arith,
}
use mathlib.Core.Path.{subst}
use complytime_providers.Workflow.Names.{sanitize_slug}
use complytime_providers.Workflow.Names.Slugs.{IsSlug}
use complytime_providers.Workflow.Progress.State.{
  ProgressState, PhaseCheckpointInput, record_step, record_phase, fits_phase,
}
use complytime_providers.Workflow.Progress.Disk.{
  FilePath, Entry, missing, link, folder, file, denied, Disk, Node, parent, same_path, set_entry,
  make_folders, read_entry, read_state, write_file, write_into, write_below, write_state,
}
use complytime_providers.Workflow.Progress.Tools.{save_step, upsert_checkpoint_step}
use complytime_providers.Workflow.Progress.Paths.{slug_path, state_path-slug_path}

same_path_refl : (p : FilePath) → same_path p p ≡ true
unfolding same_path
same_path_refl [] = refl
same_path_refl (s ∷ p) = ground (arith, ==-refl s, same_path_refl p)

pub same_path_sound : (p q : FilePath) → same_path p q ≡ true → p ≡ q
unfolding same_path
same_path_sound [] [] h = refl
same_path_sound [] (y ∷ ys) h = cc
same_path_sound (x ∷ xs) [] h = cc
same_path_sound (x ∷ xs) (y ∷ ys) h = ground (arith, ==_iff x y, same_path_sound xs ys)

pub set_entry-same :
    (disk : Disk) (path : FilePath) (entry : Entry) → set_entry disk path entry path ≡ entry
unfolding set_entry
set_entry-same disk path entry = rw (same_path_refl path) refl

pub set_entry-other :
    (disk : Disk) (path other : FilePath) (entry : Entry)
    → same_path path other ≡ false
    → set_entry disk path entry other ≡ disk other
unfolding set_entry
set_entry-other disk path other entry h = rw (h) refl

pub not_err {ℓ} : {A : Type ℓ} {message : Text} {a : A} → ¬ (err message ≡ ok a)
not_err h = cc

-- A call that returned, and the state that is passed on then.
pub saved_state {ℓ} :
    {State : Type ℓ} (outcome : Result (Unit {0})) (disk : Disk) (state saved : State)
    (after : Disk)
    → ◌≡◌ {A = Result State × Disk} (outcome >>= λ _. ok state, disk) (ok saved, after)
    → (saved ≡ state) × ◌≡◌ {A = Result (Unit {0}) × Disk} (outcome, disk) (ok tt, after)
saved_state (err message) disk state saved after h = absurd (not_err (ap (λ q. q.0) h))
saved_state (ok _) disk state saved after h =
    let value : ok state ≡ ok saved = ap (λ q. q.0) h in
    (cc, ap (λ d. (ok tt, d)) (ap (λ q. q.1) h))

module _ {Value : Type 0} (node : Node Value) (cwd : FilePath) where
  -- A write that succeeds leaves the text in the file.
  write_file-ok :
      (disk : Disk) (path : FilePath) (text : Text) (after : Disk)
      → write_file node cwd disk path text ≡ (ok tt, after)
      → after ≡ set_entry disk path (file text)
  unfolding write_file
  write_file-ok disk path text after h = elim (Option-cases (node.write_error disk path)) [
    | inl fine ↦ sym (ap (λ q. q.1) (rw (fine, write_file) at h))
    | inr (failed, e) ↦ absurd (not_err (ap (λ q. q.0) (rw (e, write_file) at h)))
  ]

  write_into-ok :
      (disk : Disk) (path : FilePath) (text : Text) (after : Disk)
      → write_into node cwd disk path text ≡ (ok tt, after)
      → after ≡ set_entry (make_folders disk (parent path)) path (file text)
  unfolding write_into
  write_into-ok disk path text after h =
      elim (Option-cases (node.folder_error disk (parent path))) [
        | inl fine ↦
            write_file-ok (make_folders disk (parent path)) path text after
              (rw (fine, write_into) at h)
        | inr (message, e) ↦ absurd (not_err (ap (λ q. q.0) (rw (e, write_into) at h)))
      ]

  write_below-ok :
      (disk : Disk) (path : FilePath) (text : Text) (entry : Entry) (after : Disk)
      → write_below node cwd disk path text entry ≡ (ok tt, after)
      → after ≡ set_entry (make_folders disk (parent path)) path (file text)
  unfolding write_below
  write_below-ok disk path text link after h = cc
  write_below-ok disk path text (denied message) after h = cc
  write_below-ok disk path text missing after h = write_into-ok disk path text after h
  write_below-ok disk path text folder after h = write_into-ok disk path text after h
  write_below-ok disk path text (file old) after h = write_into-ok disk path text after h

  pub write_state-ok :
      (disk : Disk) (key cmd : Text) (state : ProgressState Value) (after : Disk)
      → IsSlug key
      → IsSlug cmd
      → write_state node cwd disk key cmd state ≡ (ok tt, after)
      → after
        ≡ set_entry
            (make_folders disk (parent (slug_path cwd key cmd)))
            (slug_path cwd key cmd)
            (file (node.stringify_state state ++ txt "\n"))
  unfolding write_state
  write_state-ok disk key cmd state after slug_key slug_cmd h =
      let path = slug_path cwd key cmd in
      write_below-ok disk path (node.stringify_state state ++ txt "\n") (disk (parent path)) after
        (rw (state_path-slug_path cwd key cmd slug_key slug_cmd, write_state) at h)

  pub read_state-entry :
      (disk : Disk) (key cmd : Text)
      → IsSlug key
      → IsSlug cmd
      → read_state node cwd disk key cmd ≡ read_entry node cwd (disk (slug_path cwd key cmd))
  unfolding read_state
  read_state-entry disk key cmd slug_key slug_cmd =
      rw (state_path-slug_path cwd key cmd slug_key slug_cmd) refl

  -- What is written is read again, when its text parses to the same state.
  pub read_state-write_state :
      (disk : Disk) (key cmd : Text) (state : ProgressState Value) (after : Disk)
      → IsSlug key
      → IsSlug cmd
      → node.parse_state (node.stringify_state state ++ txt "\n") ≡ ok state
      → write_state node cwd disk key cmd state ≡ (ok tt, after)
      → read_state node cwd after key cmd ≡ ok (some state)
  unfolding read_entry
  read_state-write_state disk key cmd state after slug_key slug_cmd again h =
      let path = slug_path cwd key cmd in
      let text = node.stringify_state state ++ txt "\n" in
      let saved = write_state-ok disk key cmd state after slug_key slug_cmd h in
      read_state-entry after key cmd slug_key slug_cmd
      ∙ ap (λ d. read_entry node cwd (d path)) saved
      ∙ ap (read_entry node cwd) (set_entry-same (make_folders disk (parent path)) path (file text))
      ∙ ap (λ r. r >>= λ s. ok (some s)) again

  save_step-ok :
      (disk : Disk) (key cmd : Text) (state saved : ProgressState Value) (after : Disk)
      → save_step node cwd disk key cmd state ≡ (ok saved, after)
      → (saved ≡ state) × (write_state node cwd disk key cmd state ≡ (ok tt, after))
  unfolding save_step
  save_step-ok disk key cmd state saved after h =
      saved_state (write_state node cwd disk key cmd state).0
        (write_state node cwd disk key cmd state).1 state saved after h

  pub upsert_checkpoint_step-ok :
      (now : Text) (disk : Disk) (key command step : Text) (fields : Option (Assoc Value))
      (phase : Option PhaseCheckpointInput) (saved : ProgressState Value) (after : Disk)
      → upsert_checkpoint_step node cwd now disk key command step fields phase ≡ (ok saved, after)
      → (cmd : Text) × (prior : Option (ProgressState Value)) × (sanitize_slug command ≡ ok cmd)
        × (read_state node cwd disk key cmd ≡ ok prior)
        × (fits_phase step phase ≡ true)
        × (saved ≡ record_phase now phase (record_step now key command step fields prior))
        × (write_state node cwd disk key cmd saved ≡ (ok tt, after))
  unfolding upsert_checkpoint_step
  upsert_checkpoint_step-ok now disk key command step fields phase saved after h =
      elim (Bool-cases (fits_phase step phase)) [
        | inr unfit ↦ absurd (not_err (ap (λ q. q.0) (rw (unfit, upsert_checkpoint_step) at h)))
        | inl fit ↦ elim (Result-cases (sanitize_slug command)) [
          | inl (message, e) ↦
              absurd (not_err (ap (λ q. q.0) (rw (fit, e, upsert_checkpoint_step) at h)))
          | inr (cmd, e) ↦ elim (Result-cases (read_state node cwd disk key cmd)) [
            | inl (message, r) ↦
                absurd (not_err (ap (λ q. q.0) (rw (fit, e, r, upsert_checkpoint_step) at h)))
            | inr (prior, r) ↦
                let state =
                  record_phase now phase (record_step now key command step fields prior) in
                let (same, written) =
                  save_step-ok disk key cmd state saved after
                    (rw (fit, e, r, upsert_checkpoint_step) at h) in
                (
                  cmd,
                  prior,
                  e,
                  r,
                  fit,
                  same,
                  subst (λ q. write_state node cwd disk key cmd q ≡ (ok tt, after)) (sym same)
                      written,
                )
          ]
        ]
      ]

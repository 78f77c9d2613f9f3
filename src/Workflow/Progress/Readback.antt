-- ===== src/Workflow/Progress/Readback.antt =====
-- .opencode/plugins/uf-workflow/index.ts: a progress state across the tools `checkpoint`,
-- `get_progress` and `clear_progress`.
use complytime_providers.Prelude.{
  ◌≡◌, refl, sym, ap, inl, inr, Text, txt, ◌==◌, false, Option, none, some, [], ◌∷◌, ◌++◌, Assoc,
  keys, IsUnique, or_else, Bool-cases, Result-cases, Result, ok, err,
}
use mathlib.Core.Path.{subst}
use complytime_providers.Workflow.Names.{sanitize_slug}
use complytime_providers.Workflow.Names.Slugs.{IsSlug, sanitize_slug-IsSlug}
use complytime_providers.Workflow.Progress.State.{
  ProgressState, PhaseCheckpointInput, branch_key, resolve_key,
}
use complytime_providers.Workflow.Progress.Disk.{FilePath, Disk, Node, read_state}
use complytime_providers.Workflow.Progress.Tools.{
  upsert_checkpoint_step, checkpoint, get_progress, CheckpointArgs, ToolResult, success, failure,
  to_tool_result, phase_record, parsed_data,
}
use complytime_providers.Workflow.Progress.Steps.{IsProgress, IfAny, next_state-IsProgress}
use complytime_providers.Workflow.Progress.Store.{
  not_err, read_state-write_state, upsert_checkpoint_step-ok,
}

branch_key-IsSlug : (branch : Result Text) (key : Text) → branch_key branch ≡ ok key → IsSlug key
unfolding branch_key
branch_key-IsSlug (err message) key h = absurd (not_err h)
branch_key-IsSlug (ok name) key h = elim (Bool-cases (name == txt "HEAD")) [
  | inl detached ↦ absurd (not_err (rw (detached, branch_key) at h))
  | inr attached ↦ sanitize_slug-IsSlug name key (rw (attached, branch_key) at h)
]

-- The key of a state is a slug.
pub resolve_key-IsSlug :
    (branch : Result Text) (explicit_key : Option Text) (key : Text)
    → resolve_key branch explicit_key ≡ ok key
    → IsSlug key
unfolding resolve_key
resolve_key-IsSlug branch none key h = branch_key-IsSlug branch key h
resolve_key-IsSlug branch (some []) key h = branch_key-IsSlug branch key h
resolve_key-IsSlug branch (some (c ∷ s)) key h = sanitize_slug-IsSlug (c ∷ s) key h

pub not_failure :
    {A : Type 0} {message code : Text} {a : A} → ¬ (failure message false code ≡ success a)
not_failure h = cc

-- A tool that succeeds has had a call that returned.
pub to_tool_result-success :
    {A : Type 0} (code : Text) (outcome : Result A) (disk : Disk) (a : A) (after : Disk)
    → ◌≡◌ {A = ToolResult A × Disk} (to_tool_result code outcome, disk) (success a, after)
    → ◌≡◌ {A = Result A × Disk} (outcome, disk) (ok a, after)
to_tool_result-success code (err message) disk a after h = absurd (not_failure (ap (λ q. q.0) h))
to_tool_result-success code (ok b) disk a after h =
    let value : success b ≡ success a = ap (λ q. q.0) h in
    let same : b ≡ a = cc in
    let later : disk ≡ after = ap (λ q. q.1) h in λ i. (ok (same i), later i)

module _ {Value : Type 0} (node : Node Value) (cwd : FilePath) where
  checkpoint-success :
      (branch : Result Text) (now : Text) (disk : Disk) (args : CheckpointArgs)
      (saved : ProgressState Value) (after : Disk)
      → checkpoint node cwd branch now disk args ≡ (success saved, after)
      → (key : Text) × (fields : Option (Assoc Value)) × (resolve_key branch args.key ≡ ok key)
        × (parsed_data node cwd args.data_text ≡ ok fields)
        × (upsert_checkpoint_step node cwd now disk key args.command args.step fields
              (phase_record args.phase)
            ≡ (ok saved, after))
  unfolding checkpoint
  checkpoint-success branch now disk args saved after h =
      elim (Result-cases (resolve_key branch args.key)) [
        | inl (message, k) ↦ absurd (not_failure (ap (λ q. q.0) (rw (k, checkpoint) at h)))
        | inr (key, k) ↦ elim (Result-cases (parsed_data node cwd args.data_text)) [
          | inl (message, d) ↦ absurd (not_failure (ap (λ q. q.0) (rw (k, d, checkpoint) at h)))
          | inr (fields, d) ↦
              let (outcome, left) =
                upsert_checkpoint_step node cwd now disk key args.command args.step fields
                  (phase_record args.phase) in
              (
                key,
                fields,
                k,
                d,
                to_tool_result-success (txt "CHECKPOINT_ERROR") outcome left saved after
                    (rw (k, d, checkpoint) at h),
              )
        ]
      ]

  -- After `checkpoint` has succeeded, `get_progress` for the same command and key returns the state
  -- that `checkpoint` has returned, if JSON reads back the text that it wrote for that state.
  pub get_progress-checkpoint :
      (branch : Result Text) (now : Text) (disk : Disk) (args : CheckpointArgs)
      (saved : ProgressState Value) (after : Disk)
      → node.parse_state (node.stringify_state saved ++ txt "\n") ≡ ok saved
      → checkpoint node cwd branch now disk args ≡ (success saved, after)
      → get_progress node cwd branch after args.command args.key ≡ success (some saved)
  unfolding get_progress
  get_progress-checkpoint branch now disk args saved after again h =
      let (key, fields, k, d, u) = checkpoint-success branch now disk args saved after h in
      let (cmd, prior, c, r, fit, same, written) =
        upsert_checkpoint_step-ok node cwd now disk key args.command args.step fields
          (phase_record args.phase) saved after u in
      let read =
        read_state-write_state node cwd disk key cmd saved after
          (resolve_key-IsSlug branch args.key key k) (sanitize_slug-IsSlug args.command cmd c) again
          written in
      rw (k, c, read) refl

  -- A checkpoint that is recorded over a state in which steps and data keys stand once each, or
  -- over none, saves such a state, whose current step is a completed one; the data that it adds must
  -- have each key once.
  pub upsert_checkpoint_step-IsProgress :
      (now : Text) (disk : Disk) (key command step : Text) (fields : Option (Assoc Value))
      (phase : Option PhaseCheckpointInput) (saved : ProgressState Value) (after : Disk)
      → IsUnique (keys (or_else fields []))
      → ((cmd : Text) (prior : Option (ProgressState Value))
          → sanitize_slug command ≡ ok cmd
          → read_state node cwd disk key cmd ≡ ok prior
          → IfAny IsProgress prior)
      → upsert_checkpoint_step node cwd now disk key command step fields phase ≡ (ok saved, after)
      → IsProgress saved
  upsert_checkpoint_step-IsProgress now disk key command step fields phase saved after u before h =
      let (cmd, prior, c, r, fit, same, written) =
        upsert_checkpoint_step-ok node cwd now disk key command step fields phase saved after h in
      subst IsProgress (sym same)
        (next_state-IsProgress now key command step fields phase prior u (before cmd prior c r))

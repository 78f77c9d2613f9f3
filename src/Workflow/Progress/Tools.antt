-- ===== src/Workflow/Progress/Tools.antt =====
-- .opencode/plugins/uf-workflow/index.ts: `upsertCheckpointStep`, and the tools `checkpoint`,
-- `get_progress` and `clear_progress`.
use complytime_providers.Prelude.{
  ℕ, Text, txt, Bool, false, Option, none, some, List, [], ◌∷◌, if◌then◌else◌, Assoc, or_else,
  Result, ok, err, ◌>>=◌,
}
use complytime_providers.Workflow.Names.{sanitize_slug}
use complytime_providers.Workflow.Progress.State.{
  PhaseFailureEntry, Verdict, PhaseCheckpointInput, ProgressState, resolve_key, record_step,
  record_phase, fits_phase, phase_message,
}
use complytime_providers.Workflow.Progress.Disk.{
  FilePath, Disk, Node, read_state, write_state, delete_state,
}

module _ {Value : Type 0} (node : Node Value) (cwd : FilePath) where
  -- What follows the reading of the state.
  unfoldable pub save_step :
      Disk → Text → Text → ProgressState Value → Result (ProgressState Value) × Disk
  unfolding write_state
  save_step disk key cmd state =
      let (outcome, after) = write_state node cwd disk key cmd state in
      (outcome >>= λ _. ok state, after)

  unfoldable pub upsert_checkpoint_step :
      Text
      → Disk
      → Text
      → Text
      → Text
      → Option (Assoc Value)
      → Option PhaseCheckpointInput
      → Result (ProgressState Value) × Disk
  unfolding fits_phase phase_message sanitize_slug read_state record_step record_phase save_step txt
  upsert_checkpoint_step now disk key command step data_fields phase =
      let prior : Result (Text × Option (ProgressState Value)) = sanitize_slug command >>= λ cmd.
      read_state node cwd disk key cmd >>= λ state. ok (cmd, state) in
      if fits_phase step phase
      then elim prior [
        | err message ↦ (err message, disk)
        | ok (cmd, state) ↦
            save_step disk key cmd
              (record_phase now phase (record_step now key command step data_fields state))
      ]
      else (err (phase_message step phase), disk)

pub data ToolResult (Data : Type 0) : Type 0 where
  success : (result : Data) → ToolResult Data
  failure : (message : Text) → (retryable : Bool) → (code : Text) → ToolResult Data

abbrev pub to_tool_result : {Data : Type 0} → Text → Result Data → ToolResult Data
to_tool_result code (err message) = failure message false code
to_tool_result code (ok result) = success result

pub record PhaseArgs : Type 0 where
  pub number : ℕ
  pub verdict : Verdict
  pub inventory : Option (List PhaseFailureEntry)

pub record CheckpointArgs : Type 0 where
  pub command : Text
  pub step : Text
  pub data_text : Option Text
  pub key : Option Text
  pub phase : Option PhaseArgs

abbrev pub phase_record : Option PhaseArgs → Option PhaseCheckpointInput
phase_record none = none
phase_record (some phase) = some (record {
  number = phase.number;
  verdict = phase.verdict;
  inventory = or_else phase.inventory [];
})

module _ {Value : Type 0} (node : Node Value) (cwd : FilePath) where
  -- `if (args.data) { JSON.parse(args.data) }`
  unfoldable pub parsed_data : Option Text → Result (Option (Assoc Value))
  parsed_data none = ok none
  parsed_data (some []) = ok none
  parsed_data (some (c ∷ s)) = node.parse_data (c ∷ s) >>= λ fields. ok (some fields)

  -- The tool `checkpoint`
  unfoldable pub checkpoint :
      Result Text → Text → Disk → CheckpointArgs → ToolResult (ProgressState Value) × Disk
  unfolding resolve_key parsed_data upsert_checkpoint_step txt
  checkpoint branch now disk args =
      let code = txt "CHECKPOINT_ERROR" in
      let ready : Result (Text × Option (Assoc Value)) = resolve_key branch args.key >>= λ key.
      parsed_data args.data_text >>= λ fields. ok (key, fields) in
      elim ready [
        | err message ↦ (failure message false code, disk)
        | ok (key, fields) ↦
            let (outcome, after) =
              upsert_checkpoint_step node cwd now disk key args.command args.step fields
                (phase_record args.phase) in
            (to_tool_result code outcome, after)
      ]

  -- The tool `get_progress`
  unfoldable pub get_progress :
      Result Text → Disk → Text → Option Text → ToolResult (Option (ProgressState Value))
  unfolding resolve_key sanitize_slug read_state txt
  get_progress branch disk command key_arg = to_tool_result (txt "GET_PROGRESS_ERROR") (
      resolve_key branch key_arg >>= λ key.
      sanitize_slug command >>= λ cmd. read_state node cwd disk key cmd)

  -- The tool `clear_progress`: the command and the key of the result.
  unfoldable pub clear_progress :
      Result Text → Disk → Text → Option Text → ToolResult (Text × Text) × Disk
  unfolding resolve_key sanitize_slug delete_state txt
  clear_progress branch disk command key_arg =
      let code = txt "CLEAR_PROGRESS_ERROR" in
      let ready : Result (Text × Text) =
        resolve_key branch key_arg >>= λ key. sanitize_slug command >>= λ cmd. ok (key, cmd) in
      elim ready [
        | err message ↦ (failure message false code, disk)
        | ok (key, cmd) ↦
            let (outcome, after) = delete_state node cwd disk key cmd in
            (to_tool_result code (outcome >>= λ _. ok (command, key)), after)
      ]

-- ===== src/Workflow/Progress/State.antt =====
-- .opencode/plugins/uf-workflow/index.ts: the progress state of a workflow, its key, and the update of
-- `upsertCheckpointStep`.
use complytime_providers.Prelude.{
  ℕ, Text, txt, ◌==◌, Bool, true, Option, none, some, List, [], ◌∷◌, ◌++◌, if◌then◌else◌, decimal,
  Assoc, put, includes, add, or_else, Result, err, ◌>>=◌,
}
use complytime_providers.Workflow.Names.{sanitize_slug}

pub data PhaseFailureClassification : Type 0 where
  pre_existing environmental change_caused : PhaseFailureClassification

pub record PhaseFailureEntry : Type 0 where
  pub name : Text
  pub classification : PhaseFailureClassification

pub data Verdict : Type 0 where
  green failed : Verdict

pub record PhaseCheckpointInput : Type 0 where
  pub number : ℕ
  pub verdict : Verdict
  pub inventory : List PhaseFailureEntry

pub record PhaseCheckpointRecord : Type 0 where
  pub verdict : Verdict
  pub inventory : List PhaseFailureEntry
  pub recorded_at : Text

-- The values of `data` are JSON, which no operation here looks into.
pub record ProgressState (Value : Type 0) : Type 0 where
  pub command : Text
  pub branch : Text
  pub key : Text
  pub current_step : Text
  pub completed_steps : List Text
  pub data_fields : Assoc Value
  pub phases : Option (Assoc PhaseCheckpointRecord)
  pub created_at : Text
  pub updated_at : Text

-- The branch is what `git rev-parse --abbrev-ref HEAD` prints, or git's error.
unfoldable pub branch_key : Result Text → Result Text
unfolding sanitize_slug txt ◌==◌
branch_key branch = branch >>= λ name.
    if name == txt "HEAD"
    then err (txt "Detached HEAD state — provide an explicit `key` parameter")
    else sanitize_slug name

unfoldable pub resolve_key : Result Text → Option Text → Result Text
unfolding branch_key sanitize_slug
resolve_key branch none = branch_key branch
resolve_key branch (some []) = branch_key branch
resolve_key branch (some (c ∷ key)) = sanitize_slug (c ∷ key)

-- `Object.assign(target, source)`
unfoldable pub assign {ℓ} : {V : Type ℓ} → Assoc V → Assoc V → Assoc V
unfolding put
assign target [] = target
assign target ((k, v) ∷ source) = assign (put target k v) source

unfoldable pub implement_phase : ℕ → Text
unfolding decimal txt
implement_phase number = txt "implement-phase-" ++ decimal number

module _ {Value : Type 0} where
  -- The state that records a step, before its phase.
  unfoldable pub record_step :
      Text
      → Text
      → Text
      → Text
      → Option (Assoc Value)
      → Option (ProgressState Value)
      → ProgressState Value
  unfolding assign includes add
  record_step now key command step data_fields none = record {
    command = command;
    branch = key;
    key = key;
    current_step = step;
    completed_steps = step ∷ [];
    data_fields = or_else data_fields [];
    phases = none;
    created_at = now;
    updated_at = now;
  }
  record_step now key command step data_fields (some state) = record state {
    completed_steps = add state.completed_steps step;
    current_step = step;
    data_fields = assign state.data_fields (or_else data_fields []);
    updated_at = now;
  }

  unfoldable pub record_phase :
      Text → Option PhaseCheckpointInput → ProgressState Value → ProgressState Value
  unfolding put decimal
  record_phase now none state = state
  record_phase now (some phase) state = record state {
    phases = some (
        put (or_else state.phases []) (decimal phase.number)
          (record { verdict = phase.verdict; inventory = phase.inventory; recorded_at = now }));
  }

-- Whether the step is that of the phase.
unfoldable pub fits_phase : Text → Option PhaseCheckpointInput → Bool
unfolding ◌==◌ implement_phase
fits_phase step none = true
fits_phase step (some phase) = step == implement_phase phase.number

unfoldable pub phase_message : Text → Option PhaseCheckpointInput → Text
unfolding implement_phase txt
phase_message step none = []
phase_message step (some phase) =
    txt "phase-scoped checkpoint requires step \""
    ++ implement_phase phase.number
    ++ txt "\", got \""
    ++ step
    ++ txt "\""

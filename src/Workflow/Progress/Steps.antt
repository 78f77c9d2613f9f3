-- ===== src/Workflow/Progress/Steps.antt =====
-- .opencode/plugins/uf-workflow/index.ts: the state that `upsertCheckpointStep` computes.
use complytime_providers.Prelude.{
  ◌≡◌, refl, sym, ap, ◌∙◌, inl, inr, Text, ◌==◌, ==_iff, ==-refl, true, false, Option, none, some,
  [], ◌∷◌, if◌then◌else◌, Assoc, get, put, get-put, keys, keys-put-IsUnique, includes, includes-add,
  add-IsUnique, IsUnique, or_else, decimal, Bool-cases, arith,
}
use complytime_providers.Workflow.Progress.State.{
  PhaseCheckpointInput, PhaseCheckpointRecord, ProgressState, assign, record_step, record_phase,
}

module _ {Value : Type 0} where
  -- The steps and the keys of the data are listed once each, and the current step is a completed one.
  abbrev pub IsProgress : ProgressState Value → Type 0
  IsProgress s =
      IsUnique s.completed_steps
      × IsUnique (keys s.data_fields)
      × (includes s.completed_steps s.current_step ≡ true)

  -- The state that a checkpoint saves.
  abbrev pub next_state :
      Text
      → Text
      → Text
      → Text
      → Option (Assoc Value)
      → Option PhaseCheckpointInput
      → Option (ProgressState Value)
      → ProgressState Value
  next_state now key command step fields phase prior =
      record_phase now phase (record_step now key command step fields prior)

  -- What a state, if there is one, satisfies.
  abbrev pub IfAny : (ProgressState Value → Type 0) → Option (ProgressState Value) → Type 0
  IfAny P none = Unit
  IfAny P (some s) = P s

  assign-IsUnique :
      (target source : Assoc Value)
      → IsUnique (keys target)
      → IsUnique (keys (assign target source))
  unfolding assign
  assign-IsUnique target [] u = u
  assign-IsUnique target ((k, v) ∷ source) u =
      assign-IsUnique (put target k v) source (keys-put-IsUnique target k v u)

  record_phase-IsProgress :
      (now : Text) (phase : Option PhaseCheckpointInput) (s : ProgressState Value)
      → IsProgress s
      → IsProgress (record_phase now phase s)
  unfolding record_phase
  record_phase-IsProgress now none s h = h
  record_phase-IsProgress now (some phase) s h = h

  record_step-IsProgress :
      (now key command step : Text) (fields : Option (Assoc Value))
      (prior : Option (ProgressState Value))
      → IsUnique (keys (or_else fields []))
      → IfAny IsProgress prior
      → IsProgress (record_step now key command step fields prior)
  unfolding record_step includes
  record_step-IsProgress now key command step fields none u h =
      ((refl, tt), u, ground (arith, ==-refl step))
  record_step-IsProgress now key command step fields (some s) u h = (
    add-IsUnique s.completed_steps step h.0,
    assign-IsUnique s.data_fields (or_else fields []) h.1,
    includes-add s.completed_steps step step ∙ ground (arith, ==-refl step),
  )

  -- A checkpoint keeps the steps and the data keys without duplicates, and its step is among the
  -- completed ones; the data that it adds must have each key once.
  pub next_state-IsProgress :
      (now key command step : Text) (fields : Option (Assoc Value))
      (phase : Option PhaseCheckpointInput) (prior : Option (ProgressState Value))
      → IsUnique (keys (or_else fields []))
      → IfAny IsProgress prior
      → IsProgress (next_state now key command step fields phase prior)
  next_state-IsProgress now key command step fields phase prior u h =
      record_phase-IsProgress now phase (record_step now key command step fields prior)
        (record_step-IsProgress now key command step fields prior u h)

  -- A value found in the first place, or else the second.
  abbrev first_of : Option Value → Option Value → Option Value
  first_of none later = later
  first_of (some v) later = some v

  get_fresh :
      (m : Assoc Value) (k j : Text)
      → includes (keys m) k ≡ false
      → (k == j) ≡ true
      → get m j ≡ none
  unfolding get includes
  get_fresh [] k j fresh same = refl
  get_fresh ((i, v) ∷ m) k j fresh same =
      ground (arith, fresh, same, ==_iff k j, ==_iff i k, ==_iff i j, get_fresh m k j)

  get-assign :
      (target source : Assoc Value) (k : Text)
      → IsUnique (keys source)
      → get (assign target source) k ≡ first_of (get source k) (get target k)
  unfolding assign get
  get-assign target [] k u = refl
  get-assign target ((i, v) ∷ source) k u =
      get-assign (put target i v) source k u.1 ∙ elim (Bool-cases (i == k)) [
        | inl same ↦
            let unseen = get_fresh source i k u.0 same in
            rw (get-put target i k v, same, unseen) refl
        | inr other ↦ rw (get-put target i k v, other) refl
      ]

  record_phase-data :
      (now : Text) (phase : Option PhaseCheckpointInput) (s : ProgressState Value)
      → (record_phase now phase s).data_fields ≡ s.data_fields
  unfolding record_phase
  record_phase-data now none s = refl
  record_phase-data now (some phase) s = refl

  -- The data of a state, or none yet.
  abbrev prior_data : Option (ProgressState Value) → Assoc Value
  prior_data none = []
  prior_data (some s) = s.data_fields

  first_of-none : (o : Option Value) → first_of o none ≡ o
  first_of-none none = refl
  first_of-none (some v) = refl

  record_step-data :
      (now key command step : Text) (fields : Option (Assoc Value))
      (prior : Option (ProgressState Value)) (k : Text)
      → IsUnique (keys (or_else fields []))
      → get (record_step now key command step fields prior).data_fields k
        ≡ first_of (get (or_else fields []) k) (get (prior_data prior) k)
  unfolding record_step get
  record_step-data now key command step fields none k u =
      sym (first_of-none (get (or_else fields []) k))
  record_step-data now key command step fields (some s) k u =
      get-assign s.data_fields (or_else fields []) k u

  -- After a checkpoint, each key of the data has the value that the checkpoint gives, and where it
  -- gives none, the value from before; the data that it adds must have each key once.
  pub next_state-data :
      (now key command step : Text) (fields : Option (Assoc Value))
      (phase : Option PhaseCheckpointInput) (prior : Option (ProgressState Value)) (k : Text)
      → IsUnique (keys (or_else fields []))
      → get (next_state now key command step fields phase prior).data_fields k
        ≡ first_of (get (or_else fields []) k) (get (prior_data prior) k)
  next_state-data now key command step fields phase prior k u =
      ap (λ m. get m k)
        (record_phase-data now phase (record_step now key command step fields prior))
      ∙ record_step-data now key command step fields prior k u

  -- The record of a phase in a state.
  abbrev phase_of : Text → ProgressState Value → Option PhaseCheckpointRecord
  phase_of number s = get (or_else s.phases []) number

  -- The record of a phase that a checkpoint gives replaces the one from before under its number,
  -- and the records of the other phases stay.
  pub record_phase-phase :
      (now number : Text) (phase : PhaseCheckpointInput) (s : ProgressState Value)
      → phase_of number (record_phase now (some phase) s) ≡ (
          if decimal phase.number == number
          then some
              (record { verdict = phase.verdict; inventory = phase.inventory; recorded_at = now })
          else phase_of number s)
  unfolding record_phase
  record_phase-phase now number phase s =
      get-put (or_else s.phases []) (decimal phase.number) number
        (record { verdict = phase.verdict; inventory = phase.inventory; recorded_at = now })

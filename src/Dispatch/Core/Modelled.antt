-- ===== src/Dispatch/Core/Modelled.antt =====
-- .opencode/plugins/review-dispatch/index.ts: the run files that `executeDispatchRun` writes for a given
-- model, under the finalizer's check of the model of a run.
use complytime_providers.Prelude.{
  ◌≡◌, refl, inl, inr, ◌⊎◌, Text, ==-refl, Bool, true, false, not, ◌&&◌, ◌||◌, Option, none, some,
  [], ◌∷◌, ◌++◌, is_some, is_none, Option-cases, arith,
}
use complytime_providers.Review.Model.{
  success, failed, is_status, Source, explicit, advisor, host, Run, PlanEntry,
}
use complytime_providers.Review.Votes.{is_cons}
use complytime_providers.Review.Validate.Keys.{same_text}
use complytime_providers.Review.Validate.OfRun.{
  inherits_model, requested_model_errors, provenance_errors, expected_model, has_mismatch,
  same_bool, validate_run_model,
}

abbrev pub is_host : Source → Bool
is_host host = true
is_host _ = false

-- What a run for a requested model has to say of it.
pub record IsRequested (run : Run) (entry : PlanEntry) (provider id : Text) : Type 0 where
  pub sourced : is_host run.source ≡ false
  pub requested : run.requested_model ≡ some (provider ++ b'/' ∷ id)
  pub provided : run.provider ≡ some provider
  pub modelled : run.model_id ≡ some id
  pub alone : (run.resolved_parent_model ≡ none) × (run.resolved_parent_variant ≡ none)
  pub planned : (entry.model ≡ run.requested_model) × (entry.variant ≡ run.variant)
  pub failing : run.model_mismatch ≡ true → is_status run.status failed ≡ true
  pub reporting : is_status run.status success ≡ true → is_some run.reported_model ≡ true
  pub compared :
      ((run.model_mismatch ≡ false) × (run.reported_model ≡ none))
      ⊎ (run.model_mismatch ≡ not (same_text run.reported_model run.requested_model))

same_text_refl : (o : Option Text) → same_text o o ≡ true
same_text_refl none = refl
same_text_refl (some t) = ==-refl t

module _ (run : Run) (entry : PlanEntry) (provider id : Text)
    (r : IsRequested run entry provider id) where
  requested_model_errors-nil : requested_model_errors run ≡ []
  unfolding requested_model_errors
  requested_model_errors-nil =
      ground (arith, r.requested, r.provided, r.modelled, r.alone, ==-refl (provider ++ b'/' ∷ id))

  provenance_errors-nil :
      (source : Source) → is_host source ≡ false → provenance_errors source run ≡ []
  unfolding provenance_errors
  provenance_errors-nil explicit h = requested_model_errors-nil
  provenance_errors-nil advisor h = ground (arith, r.requested, requested_model_errors-nil)
  provenance_errors-nil host h = cc

  inherits_model-false :
      (source : Source) (model : Text)
      → is_host source ≡ false
      → inherits_model source (some model) ≡ false
  unfolding inherits_model
  inherits_model-false explicit model h = refl
  inherits_model-false advisor model h = refl
  inherits_model-false host model h = cc

  has_mismatch-requested :
      has_mismatch run
      ≡ (is_some run.reported_model && not (same_text run.reported_model run.requested_model))
  unfolding has_mismatch expected_model
  has_mismatch-requested =
      ground (arith, r.requested, inherits_model-false run.source (provider ++ b'/' ∷ id) r.sourced)

  mismatch-agrees :
      same_bool run.model_mismatch (has_mismatch run)
      ≡ not (is_none run.reported_model && run.model_mismatch)
  mismatch-agrees = elim r.compared [
    | inl (same, silent) ↦ ground (arith, has_mismatch-requested, same, silent)
    | inr different ↦ elim (Option-cases run.reported_model) [
      | inl silent ↦ ground (arith, has_mismatch-requested, different, silent, r.requested)
      | inr (model, there) ↦ ground (arith, has_mismatch-requested, different, there)
    ]
  ]

  unmistaken : (run.model_mismatch && not (is_status run.status failed)) ≡ false
  unmistaken = ground (arith, r.failing)

  reported : (is_status run.status success && is_none run.reported_model) ≡ false
  reported = ground (arith, r.reporting)

  planned_alike :
      (not (same_text entry.model run.requested_model) || not (same_text entry.variant run.variant))
      ≡ false
  planned_alike =
      ground (arith, r.planned, same_text_refl run.requested_model, same_text_refl run.variant)

  -- The check refuses such a run exactly if its child has answered and reported no model.
  pub validate_run_model-requested :
      is_cons (validate_run_model run entry) ≡ (is_none run.reported_model && run.model_mismatch)
  unfolding validate_run_model
  validate_run_model-requested =
      simp
        (
          provenance_errors-nil run.source r.sourced,
          planned_alike,
          mismatch-agrees,
          unmistaken,
          reported,
        )
        (ground arith)

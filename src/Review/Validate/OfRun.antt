-- ===== src/Review/Validate/OfRun.antt =====
-- .opencode/plugins/review-dispatch/index.ts: `validateRunState` and `validateRunModel`. Each function
-- returns the messages that the source pushes, in their order.
use complytime_providers.Prelude.{
  Text, txt, ◌==◌, Bool, true, false, not, ◌&&◌, ◌||◌, Option, none, some, List, [], ◌∷◌, ◌++◌, ltb,
  if◌then◌else◌, is_some, is_none, Runtime,
}
use complytime_providers.Review.Model.{
  success, failed, skipped, budget_skipped, limit_skipped, cancelled, pending, running, is_status,
  status_text, Source, explicit, advisor, host, source_text, Run, PlanEntry,
}
use complytime_providers.Review.Votes.{is_cons}
use complytime_providers.Review.Validate.Keys.{when, same_text, about}

-- `Date.parse(b) < Date.parse(a)`, false where either is NaN
unfoldable pub earlier : Runtime → Text → Text → Bool
earlier js b a = elim (js.date_parse b) [
  | none ↦ false
  | some t ↦ elim (js.date_parse a) [ none ↦ false | some u ↦ ltb t u ]
]

abbrev ended_early : Runtime → Option Text → Option Text → Bool
ended_early js (some start) (some finish) = earlier js finish start
ended_early js _ _ = false

unfoldable pub validate_run_state : Runtime → Run → List Text
unfolding earlier status_text txt
validate_run_state js run =
    when (is_status run.status pending || is_status run.status running)
      (about (txt "run ") run.run_id (txt " has nonterminal status " ++ status_text run.status))
    ++ when (ended_early js run.started_at run.finished_at)
        (about (txt "run ") run.run_id (txt " finished before it started"))
    ++ (if is_status run.status success
        then when
            (is_none run.started_at
              || is_none run.finished_at
              || is_some run.error
              || is_none run.workflow_verdict)
            (about (txt "successful run ") run.run_id
              (txt " has inconsistent timestamps, error, or verdict"))
        else (when (is_some run.workflow_verdict || is_cons run.findings)
              (about (txt "non-success run ") run.run_id (txt " must not vote or emit findings"))
            ++ when
                ((is_status run.status failed || is_status run.status cancelled)
                  && is_none run.error)
                (status_text run.status
                  ++ about (txt " run ") run.run_id (txt " requires an error"))
            ++ when (is_status run.status failed && is_none run.finished_at)
                (about (txt "failed run ") run.run_id (txt " requires finished_at"))
            ++ when
                ((is_status run.status skipped
                    || is_status run.status budget_skipped
                    || is_status run.status limit_skipped)
                  && (is_some run.error || is_some run.usage))
                (status_text run.status
                  ++ about (txt " run ") run.run_id (txt " must not contain error or usage data"))))

-- `requested_model !== provider + "/" + model_id`, where all three are given
abbrev is_slashed : Option Text → Option Text → Option Text → Bool
is_slashed (some requested) (some provider) (some model) = requested == (provider ++ b'/' ∷ model)
is_slashed _ _ _ = true

-- The branches of the model check: the messages of each, and the model that it expects.
unfoldable pub host_model_errors : Run → List Text
unfolding txt
host_model_errors run =
    when
      (is_some run.requested_model
        || is_some run.provider
        || is_some run.model_id
        || is_some run.variant)
      (about (txt "host run ") run.run_id (txt " must retain null requested model provenance"))
    ++ when
        (is_status run.status success
          && (is_none run.resolved_parent_model || is_none run.resolved_parent_variant))
        (about (txt "successful host run ") run.run_id
          (txt " requires resolved parent model and variant"))

unfoldable pub inherited_model_errors : Run → List Text
unfolding txt
inherited_model_errors run =
    when (is_some run.provider || is_some run.model_id || is_some run.variant) (
      about (txt "host-resolved advisor run ") run.run_id
        (txt " must retain null requested model provenance"))
    ++ when
        (is_status run.status success
          && (is_none run.resolved_parent_model || is_none run.resolved_parent_variant))
        (about (txt "successful host-resolved advisor run ") run.run_id
          (txt " requires resolved parent model and variant"))

unfoldable pub requested_model_errors : Run → List Text
unfolding txt source_text
requested_model_errors run =
    (if is_none run.requested_model || is_none run.provider || is_none run.model_id
      then (source_text run.source
          ++ about (txt " run ") run.run_id (txt " requires requested model provenance"))
        ∷ []
      else when (not (is_slashed run.requested_model run.provider run.model_id)) (
          about (txt "run ") run.run_id
            (txt " requested model does not match provider and model_id")))
    ++ when (is_some run.resolved_parent_model || is_some run.resolved_parent_variant) (
        source_text run.source
        ++ about (txt " run ") run.run_id (txt " must not contain resolved parent provenance"))

-- Whether the model is inherited from the host session: a host run, or an advisor run whose
-- profile names no model.
unfoldable pub inherits_model : Source → Option Text → Bool
inherits_model host requested = true
inherits_model advisor none = true
inherits_model _ _ = false

unfoldable pub provenance_errors : Source → Run → List Text
unfolding host_model_errors inherited_model_errors requested_model_errors
provenance_errors host run = host_model_errors run
provenance_errors advisor run =
    if is_none run.requested_model then inherited_model_errors run else requested_model_errors run
provenance_errors explicit run = requested_model_errors run

unfoldable pub expected_model : Run → Option Text
unfolding inherits_model
expected_model run =
    if inherits_model run.source run.requested_model
    then run.resolved_parent_model
    else run.requested_model

unfoldable pub has_mismatch : Run → Bool
unfolding expected_model
has_mismatch run =
    is_some run.reported_model && not (same_text run.reported_model (expected_model run))

abbrev pub same_bool : Bool → Bool → Bool
same_bool true b = b
same_bool false b = not b

unfoldable pub validate_run_model : Run → PlanEntry → List Text
unfolding provenance_errors has_mismatch txt
validate_run_model run plan =
    provenance_errors run.source run
    ++ when
        (not (same_text plan.model run.requested_model) || not (same_text plan.variant run.variant))
        (about (txt "run ") run.run_id (txt " model provenance does not match its plan entry"))
    ++ when (not (same_bool run.model_mismatch (has_mismatch run)))
        (about (txt "run ") run.run_id (txt " model_mismatch does not match reported provenance"))
    ++ when (run.model_mismatch && not (is_status run.status failed))
        (about (txt "model mismatch run ") run.run_id (txt " must be failed"))
    ++ when (is_status run.status success && is_none run.reported_model)
        (about (txt "successful run ") run.run_id (txt " requires reported model provenance"))

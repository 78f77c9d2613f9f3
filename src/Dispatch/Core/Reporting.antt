-- ===== src/Dispatch/Core/Reporting.antt =====
-- .opencode/plugins/review-dispatch/index.ts: `executeDispatchRun` for a plan's entry with a model, and
-- `validateRunModel`.
use complytime_providers.Prelude.{
  ◌≡◌, refl, ap, ◌∙◌, inl, inr, Text, true, false, not, ◌&&◌, none, some, [], ◌∷◌, ◌++◌,
  if◌then◌else◌, is_some, is_none, ok, Bool-cases, Option-cases, arith,
}
use complytime_providers.Review.Model.{success, is_status, Kind, PlanEntry}
use complytime_providers.Review.Votes.{is_cons}
use complytime_providers.Review.Validate.Keys.{same_text}
use complytime_providers.Review.Validate.OfRun.{validate_run_model}
use complytime_providers.Review.Consolidate.{PersistedRun, dispatch_run}
use complytime_providers.Plan.Policy.{Matrix}
use complytime_providers.Dispatch.Folder.{Folder}
use complytime_providers.Dispatch.Executor.{
  ModelIdentity, InvokeAgentResult, at_first_slash, direct_model_identity,
}
use complytime_providers.Dispatch.Executor.Session.{Linked}
use complytime_providers.Dispatch.Executor.Session.Results.{IsSettled}
use complytime_providers.Dispatch.Core.{
  or_null, should_reclassify_to_success, provenance_of, run_data_of, execute_dispatch_run,
}
use complytime_providers.Dispatch.Submissions.{Submitted, Submissions, harvest}
use complytime_providers.Dispatch.Selecting.{
  RunOptions, World, Selected, selected, select_by, select_model,
}
use complytime_providers.Dispatch.Core.Recorded.{
  session_of, session_of-IsSettled, recorded_run, execute_dispatch_run-IsRun,
}
use complytime_providers.Dispatch.Core.Modelled.{is_host, IsRequested, validate_run_model-requested}

at_first_slash_sound :
    (model : Text) {before behind : Text}
    → at_first_slash model ≡ some (before, behind)
    → model ≡ before ++ b'/' ∷ behind
unfolding at_first_slash
at_first_slash_sound [] h = cc
at_first_slash_sound (c ∷ s) {before} {behind} h = elim (Option-cases (at_first_slash s)) [
  | inl e ↦ ground (arith, e)
  | inr ((b, a), e) ↦ ground (arith, e, at_first_slash_sound s e)
]

or_null-cons : (t : Text) → is_cons t ≡ true → or_null t ≡ some t
or_null-cons [] h = cc
or_null-cons (c ∷ s) h = refl

reclassified :
    (result : InvokeAgentResult) (submitted : Submitted)
    → should_reclassify_to_success result submitted ≡ true
    → (is_cons result.text ≡ true) × (result.provenance.model_mismatch ≡ false)
unfolding should_reclassify_to_success
reclassified result submitted h = ground arith

-- A result that reports no model is no success, and none that is recorded as one.
reported-of_compared :
    (result : InvokeAgentResult) (model : Text)
    → result.provenance.model_mismatch
      ≡ not (same_text result.provenance.reported_child_model (some model))
    → result.provenance.model_mismatch ≡ false
    → is_some result.provenance.reported_child_model ≡ true
reported-of_compared result model compared same =
    elim (Option-cases result.provenance.reported_child_model) [
      | inl silent ↦ ground (arith, silent, compared, same)
      | inr (m, there) ↦ rw there refl
    ]

module _ (world : World) (options : RunOptions) (entry : PlanEntry) (model provider id : Text)
    (given : options.model ≡ some model) (split : at_first_slash model ≡ some (provider, id))
    (whole : (is_cons provider && is_cons id) ≡ true) (sourced : is_host options.source ≡ false)
    (planned : (entry.model ≡ some model) × (entry.variant ≡ options.variant)) where
  abbrev direct : Selected
  direct = record {
    identity = record { provider_id = provider; model_id = id; combined = model };
    variant = options.variant;
    requested = some model;
    parent = none;
  }

  direct_model_identity-split : direct_model_identity model ≡ direct.identity
  unfolding direct_model_identity
  direct_model_identity-split = rw (direct_model_identity, split) refl

  select_model-direct : (matrix : Matrix) → select_model world options matrix ≡ ok (selected direct)
  unfolding select_model
  select_model-direct matrix =
      rw (select_model, given, select_by)
        (ap (λ (i : ModelIdentity). ok (selected (record direct { identity = i })))
          direct_model_identity-split)

  module _ (result : InvokeAgentResult) {linked : Linked} (submitted : Submitted)
      (settled : IsSettled (provenance_of world options direct) direct.identity result linked) where
    reporting-direct :
        (if should_reclassify_to_success result submitted
            then true
            else is_status result.status success)
          ≡ true
        → is_some result.provenance.reported_child_model ≡ true
    reporting-direct h = elim (Bool-cases (should_reclassify_to_success result submitted)) [
      | inl late ↦
          let (spoke, same) = reclassified result submitted late in
          elim settled.compared [
            | inl (_, _, quiet) ↦ ground (arith, spoke, quiet)
            | inr compared ↦ reported-of_compared result model compared same
          ]
      | inr plain ↦ let (_, _, _, told) = settled.successful (rw plain at h) in ground (arith, told)
    ]

    direct-IsRequested :
        (kind : Kind)
        → IsRequested
            (dispatch_run kind (run_data_of world options direct result submitted))
            entry
            provider
            id
    unfolding dispatch_run run_data_of provenance_of
    direct-IsRequested kind = record {
      sourced = sourced;
      requested = ap some (at_first_slash_sound model split);
      provided = or_null-cons provider (ground arith);
      modelled = or_null-cons id (ground arith);
      alone = settled.inherited;
      planned = planned;
      failing = λ h. ground (arith, reclassified result submitted, settled.mismatched h);
      reporting = λ h. reporting-direct (ground arith);
      compared = elim settled.compared [
        | inl (same, silent, quiet) ↦ inl (same, silent)
        | inr compared ↦ inr compared
      ];
    }

  -- The finalizer accepts the model of what an execution records for a plan's entry with a model of a
  -- named provider, whose source is not the host, exactly if the run does not have a mismatch without
  -- a reported model, that is, but for a child that has answered and reported no model.
  pub validate_run_model-execute_dispatch_run :
      (kind : Kind) (store : Submissions) (folder : Folder) (run : PersistedRun)
      → recorded_run (execute_dispatch_run world options store folder) ≡ some run
      → is_cons (validate_run_model (dispatch_run kind run) entry)
        ≡ (is_none run.reported_model && run.model_mismatch)
  validate_run_model-execute_dispatch_run kind store folder run h =
      let r = execute_dispatch_run-IsRun world options store folder h in
      let e : r.choice ≡ direct = cc (r.chosen, select_model-direct r.matrix) in
      let result = session_of world options direct in
      let submitted = (harvest store result.child_session_id).0 in
      let made : run ≡ run_data_of world options direct result submitted =
        r.made
        ∙ ap
            (λ (c : Selected).
              run_data_of world options c (session_of world options c)
                (harvest store (session_of world options c).child_session_id).0)
            e in
      let built = run_data_of world options direct result submitted in
      rw made (
        unfold dispatch_run in
        validate_run_model-requested (dispatch_run kind built) entry provider id
          (direct-IsRequested result submitted (session_of-IsSettled world options direct) kind))

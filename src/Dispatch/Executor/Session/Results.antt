-- ===== src/Dispatch/Executor/Session/Results.antt =====
-- .opencode/lib/agent-executor.ts: the results of a session, by the signals and the child.
use complytime_providers.Prelude.{
  ◌≡◌, refl, sym, ◌∙◌, inl, inr, ◌⊎◌, Text, ==_iff, Bool, true, false, not, ◌||◌, Option, txt, none,
  some, List, [], ◌∷◌, is_some, includes, includes-append, Bool-cases, Option-cases, arith,
}
use complytime_providers.Review.Model.{success, failed, cancelled, is_status, Usage}
use complytime_providers.Review.Validate.Keys.{same_text}
use complytime_providers.Dispatch.Executor.{
  ModelIdentity, Provenance, InvokeAgentResult, failed_result,
}
use complytime_providers.Dispatch.Executor.Session.{
  Signal, cancel, expire, MessageError, Linked, abort_child, on_signal, on_signals, with_child,
  caught_by, caught, judged,
}

pub same_text_sound : (o : Option Text) (t : Text) → same_text o (some t) ≡ true → o ≡ some t
same_text_sound none t h = ground arith
same_text_sound (some s) t h = ground (arith, ==_iff s t)

-- A result by what the session went through.
pub record IsSettled (provenance : Provenance) (model : ModelIdentity) (result : InvokeAgentResult)
    (linked : Linked) : Type 0 where
  -- A success comes from the child that was asked for, and no signal came before it.
  pub successful :
      is_status result.status success ≡ true
      → (linked.cause ≡ none)
        × (result.error ≡ none)
        × (is_some linked.child ≡ true)
        × (result.provenance.reported_child_model ≡ some model.combined)
  -- Any other result has an error, and it is a cancellation only if the parent's signal came last.
  pub explained : is_status result.status success ≡ false → is_some result.error ≡ true
  pub called_off : is_status result.status cancelled ≡ true → linked.cause ≡ some cancel
  pub ended :
      (is_status result.status success
        || is_status result.status failed
        || is_status result.status cancelled)
      ≡ true
  -- Another model than the one that was asked for is a failure.
  pub mismatched : result.provenance.model_mismatch ≡ true → is_status result.status failed ≡ true
  -- The model of the host stays, and the mismatch is that of the models, if the child has
  -- answered, else there is none and no text.
  pub inherited :
      (result.provenance.resolved_parent_model ≡ provenance.resolved_parent_model)
      × (result.provenance.resolved_parent_variant ≡ provenance.resolved_parent_variant)
  pub compared :
      ((result.provenance.model_mismatch ≡ false)
        × (result.provenance.reported_child_model ≡ none)
        × (result.text ≡ []))
      ⊎ (result.provenance.model_mismatch
          ≡ not (same_text result.provenance.reported_child_model (some model.combined)))
  -- The result names the child, and a signal reaches every child that is there.
  pub named : result.child_session_id ≡ linked.child
  pub reached :
      (id : Text)
      → linked.child ≡ some id
      → is_some linked.cause ≡ true
      → includes linked.aborts id ≡ true

-- A signal has reached the child that is there.
abbrev pub Reaches : Linked → Type 0
Reaches linked =
    (id : Text)
    → linked.child ≡ some id
    → is_some linked.cause ≡ true
    → includes linked.aborts id ≡ true

module _ (redact : Text → Text) (provenance : Provenance) (model : ModelIdentity)
    (fresh : (provenance.model_mismatch ≡ false) × (provenance.reported_child_model ≡ none)) where
  pub abort_child-Reaches : (linked : Linked) → Reaches (abort_child linked)
  unfolding abort_child includes
  abort_child-Reaches linked id child caused = elim (Option-cases linked.child) [
    | inl absent ↦ absurd (ground (arith, absent))
    | inr (own, there) ↦
        ground (arith, there, includes-append linked.aborts (own ∷ []) id, ==_iff own id)
  ]

  pub on_signals-Reaches :
      (linked : Linked) (signals : List Signal)
      → Reaches linked
      → Reaches (on_signals linked signals)
  unfolding on_signals on_signal
  on_signals-Reaches linked [] reach = reach
  on_signals-Reaches linked (signal ∷ signals) reach =
      on_signals-Reaches (on_signal linked signal) signals
        (abort_child-Reaches (record linked { cause = some signal }))

  -- The settled result of a failure.
  pub failed-IsSettled :
      (linked : Linked) (code message : Text) (retryable : Bool)
      → Reaches linked
      → IsSettled provenance model
          (with_child linked.child
            (failed_result redact provenance code message retryable failed [] none))
          linked
  unfolding failed_result with_child
  failed-IsSettled linked code message retryable reach = record {
    successful = λ h. ground arith;
    explained = λ h. refl;
    called_off = λ h. ground arith;
    ended = refl;
    mismatched = λ h. refl;
    inherited = (refl, refl);
    compared = inl (fresh.0, fresh.1, refl);
    named = refl;
    reached = reach;
  }

  cancelled-IsSettled :
      (linked : Linked) (code message : Text) (retryable : Bool)
      → linked.cause ≡ some cancel
      → Reaches linked
      → IsSettled provenance model
          (with_child linked.child
            (failed_result redact provenance code message retryable cancelled [] none))
          linked
  unfolding failed_result with_child
  cancelled-IsSettled linked code message retryable caused reach = record {
    successful = λ h. ground arith;
    explained = λ h. refl;
    called_off = λ h. caused;
    ended = refl;
    mismatched = λ h. ground (arith, fresh.0);
    inherited = (refl, refl);
    compared = inl (fresh.0, fresh.1, refl);
    named = refl;
    reached = reach;
  }

  caught_by-IsSettled :
      (linked : Linked) (cause : Option Signal) (message : Text)
      → linked.cause ≡ cause
      → Reaches linked
      → IsSettled provenance model
          (with_child linked.child (caught_by redact provenance cause message))
          linked
  unfolding caught_by
  caught_by-IsSettled linked none message e reach =
      failed-IsSettled linked (txt "invocation_failed") message true reach
  caught_by-IsSettled linked (some expire) message e reach =
      failed-IsSettled linked (txt "timeout") (txt "invoke_agent run timed out") true reach
  caught_by-IsSettled linked (some cancel) message e reach =
      cancelled-IsSettled linked (txt "cancelled") (txt "invoke_agent run was cancelled") false e
        reach

  pub caught-IsSettled :
      (linked : Linked) (message : Text)
      → Reaches linked
      → IsSettled provenance model (caught redact provenance linked message) linked
  unfolding caught
  caught-IsSettled linked message reach = caught_by-IsSettled linked linked.cause message refl reach

  pub judged-IsSettled :
      (linked : Linked) (after : Provenance) (error : Option MessageError) (text : Text)
      (usage : Option Usage)
      → after.model_mismatch ≡ not (same_text after.reported_child_model (some model.combined))
      → (after.resolved_parent_model ≡ provenance.resolved_parent_model)
        × (after.resolved_parent_variant ≡ provenance.resolved_parent_variant)
      → linked.cause ≡ none
      → is_some linked.child ≡ true
      → IsSettled provenance model
          (with_child linked.child
            (judged redact after model after.model_mismatch error text usage))
          linked
  unfolding judged failed_result with_child
  judged-IsSettled linked after (some error) text usage compared kept calm there = record {
    successful = λ h. ground arith;
    explained = λ h. refl;
    called_off = λ h. ground arith;
    ended = refl;
    mismatched = λ h. refl;
    inherited = kept;
    compared = inr compared;
    named = refl;
    reached = λ id child caused. ground (arith, calm);
  }
  judged-IsSettled linked after none text usage compared kept calm there =
      elim (Bool-cases after.model_mismatch) [
        | inl other ↦ rw other (record {
          successful = λ h. ground arith;
          explained = λ h. refl;
          called_off = λ h. ground arith;
          ended = refl;
          mismatched = λ h. refl;
          inherited = kept;
          compared = inr (sym other ∙ compared);
          named = refl;
          reached = λ id child caused. ground (arith, calm);
        })
        | inr same ↦ rw same (record {
          successful = λ h. (
            calm,
            refl,
            there,
            same_text_sound after.reported_child_model model.combined
                (ground (arith, compared, same)),
          );
          explained = λ h. ground arith;
          called_off = λ h. ground arith;
          ended = refl;
          mismatched = λ h. ground (arith, same);
          inherited = kept;
          compared = inr (sym same ∙ compared);
          named = refl;
          reached = λ id child caused. ground (arith, calm);
        })
      ]

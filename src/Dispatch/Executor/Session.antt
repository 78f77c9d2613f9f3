-- ===== src/Dispatch/Executor/Session.antt =====
-- .opencode/lib/agent-executor.ts: `executeAgentSession`. The parent's cancellation and the timeout may
-- come while one of its two calls is awaited; what comes is given for each of them, in order.
pub mod Results
pub mod Settled
use complytime_providers.Prelude.{
  ℕ, Text, txt, ◌==◌, Bool, true, false, not, ◌&&◌, Option, none, some, List, [], ◌∷◌, ◌++◌,
  if◌then◌else◌, or_else, is_some,
}
use complytime_providers.Review.Model.{success, failed, cancelled, Usage}
use complytime_providers.Review.Validate.Keys.{same_text}
use complytime_providers.Dispatch.Executor.{
  ModelIdentity, Provenance, InvokeAgentResult, Response, response_failure, reported_model,
  failed_result, Part, invocation_usage, response_text,
}

-- `cancelFromParent`, and the callback of the timer
pub data Signal : Type 0 where
  cancel expire : Signal

-- A call that is awaited resolves, or it rejects with an error.
pub data Answer (Value : Type 0) : Type 0 where
  resolved : (response : Response Value) → Answer Value
  rejected : (message : Text) → Answer Value

-- The error of the child's message: what `errorText` gives, its name, and whether it says that it can
-- be tried again.
pub record MessageError : Type 0 where
  pub text : Text
  pub name : Text
  pub is_retryable : Option Bool

pub record ChildMessage : Type 0 where
  pub provider_id : Text
  pub model_id : Text
  pub error : Option MessageError
  pub parts : List Part

-- What happens to one session.
pub record Agenda : Type 0 where
  pub aborted : Bool
  pub while_creating : List Signal
  pub created : Answer Text
  pub while_prompting : List Signal
  pub prompted : Answer ChildMessage

-- The variables of the function: the cause of an abort, the child, and the children of which
-- `abortChild` has asked the abort.
pub record Linked : Type 0 where
  pub cause : Option Signal
  pub child : Option Text
  pub aborts : List Text

unfoldable pub abort_child : Linked → Linked
abort_child linked = record linked {
  aborts = elim linked.child [ none ↦ linked.aborts | some id ↦ linked.aborts ++ id ∷ [] ];
}

unfoldable pub on_signal : Linked → Signal → Linked
unfolding abort_child
on_signal linked signal = abort_child (record linked { cause = some signal })

unfoldable pub on_signals : Linked → List Signal → Linked
unfolding on_signal
on_signals linked [] = linked
on_signals linked (signal ∷ signals) = on_signals (on_signal linked signal) signals

-- The variables after the set-up, and the moment at which the child's id is known.
unfoldable pub linked_at_start : Bool → Linked
unfolding on_signal
linked_at_start aborted =
    let linked : Linked = record { cause = none; child = none; aborts = [] } in
    if aborted then on_signal linked cancel else linked

-- `withChild`
unfoldable pub with_child : Option Text → InvokeAgentResult → InvokeAgentResult
with_child child result = record result { child_session_id = child }

module _ (redact : Text → Text) where
  caught_by : Provenance → Option Signal → Text → InvokeAgentResult
  unfolding failed_result txt
  caught_by provenance (some expire) message =
      failed_result redact provenance (txt "timeout") (txt "invoke_agent run timed out") true failed
        [] none
  caught_by provenance (some cancel) message =
      failed_result redact provenance (txt "cancelled") (txt "invoke_agent run was cancelled") false
        cancelled [] none
  caught_by provenance none message =
      failed_result redact provenance (txt "invocation_failed") message true failed [] none

  -- The `catch` of the function.
  unfoldable pub caught : Provenance → Linked → Text → InvokeAgentResult
  unfolding with_child caught_by
  caught provenance linked message =
      with_child linked.child (caught_by provenance linked.cause message)

  is_retried : MessageError → Bool
  unfolding ◌==◌ txt
  is_retried error = or_else error.is_retryable (not (error.name == txt "MessageAbortedError"))

  mismatch_message : Option Text → ModelIdentity → Text
  unfolding txt
  mismatch_message child model =
      txt "child reported "
      ++ or_else child (txt "an unavailable model")
      ++ txt "; expected "
      ++ model.combined

  -- The result by the error of the message and by the model.
  unfoldable pub judged :
      Provenance
      → ModelIdentity
      → Bool
      → Option MessageError
      → Text
      → Option Usage
      → InvokeAgentResult
  unfolding failed_result is_retried mismatch_message txt
  judged after model mismatch (some error) text usage =
      failed_result redact after (txt "child_message_error") error.text (is_retried error) failed
        text usage
  judged after model mismatch none text usage =
      if mismatch
      then failed_result redact after (txt "model_mismatch")
          (mismatch_message after.reported_child_model model) false failed text usage
      else record {
        status = success;
        text = text;
        usage = usage;
        error = none;
        provenance = after;
        child_session_id = none;
      }

  -- The message of a child that has answered.
  unfoldable pub on_message : Provenance → ModelIdentity → ChildMessage → InvokeAgentResult
  unfolding reported_model invocation_usage response_text judged
  on_message provenance model message =
      let child_model = reported_model message.provider_id message.model_id in
      let mismatch = not (same_text child_model (some model.combined)) in
      judged (record provenance { reported_child_model = child_model; model_mismatch = mismatch })
        model mismatch message.error (response_text message.parts) (invocation_usage message.parts)

  answered :
      Provenance → ModelIdentity → Response ChildMessage → Option ChildMessage → InvokeAgentResult
  unfolding on_message response_failure failed_result txt
  answered provenance model response none =
      failed_result redact provenance (txt "child_prompt_failed")
        (response_failure redact (txt "prompt child session") response) true failed [] none
  answered provenance model response (some message) = on_message provenance model message

  unfoldable pub on_prompted :
      Provenance → ModelIdentity → Linked → Answer ChildMessage → InvokeAgentResult
  unfolding caught answered with_child
  on_prompted provenance model linked (rejected message) = caught provenance linked message
  on_prompted provenance model linked (resolved response) =
      if is_some linked.cause
      then caught provenance linked []
      else with_child linked.child (answered provenance model response response.value)

  -- The child is there: the abort that has come meanwhile reaches it, or it is prompted.
  unfoldable pub on_child :
      Provenance → ModelIdentity → Agenda → Linked → InvokeAgentResult × Linked
  unfolding caught abort_child on_signals on_prompted
  on_child provenance model agenda linked =
      let after = on_signals linked agenda.while_prompting in
      if is_some linked.cause
      then (caught provenance linked [], abort_child linked)
      else (on_prompted provenance model after agenda.prompted, after)

  on_value :
      Provenance
      → ModelIdentity
      → Agenda
      → Linked
      → Response Text
      → Option Text
      → InvokeAgentResult × Linked
  unfolding on_child with_child response_failure failed_result txt
  on_value provenance model agenda linked response none = (
    with_child linked.child (
        failed_result redact provenance (txt "child_create_failed")
          (response_failure redact (txt "create child session") response) true failed [] none),
    linked,
  )
  on_value provenance model agenda linked response (some id) =
      on_child provenance model agenda (record linked { child = some id })

  unfoldable pub on_created :
      Provenance → ModelIdentity → Agenda → Linked → Answer Text → InvokeAgentResult × Linked
  unfolding caught on_value
  on_created provenance model agenda linked (rejected message) =
      (caught provenance linked message, linked)
  on_created provenance model agenda linked (resolved response) =
      on_value provenance model agenda linked response response.value

  unfoldable pub execute_agent_session :
      Provenance → ModelIdentity → Agenda → InvokeAgentResult × Linked
  unfolding linked_at_start on_signals on_created
  execute_agent_session provenance model agenda =
      on_created provenance model agenda
        (on_signals (linked_at_start agenda.aborted) agenda.while_creating) agenda.created

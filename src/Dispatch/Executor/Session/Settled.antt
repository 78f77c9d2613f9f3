-- ===== src/Dispatch/Executor/Session/Settled.antt =====
-- .opencode/lib/agent-executor.ts: what the result of a session says of the signals and of the child.
use complytime_providers.Prelude.{
  ◌≡◌, refl, ◌∙◌, inl, inr, Text, Bool, true, false, not, Option, txt, none, some, List, [], ◌∷◌,
  is_some, Bool-cases, arith,
}
use complytime_providers.Review.Validate.Keys.{same_text}
use complytime_providers.Dispatch.Executor.{
  ModelIdentity, Provenance, InvokeAgentResult, Response, response_failure, reported_model,
  invocation_usage, response_text,
}
use complytime_providers.Dispatch.Executor.Session.{
  Signal, Answer, resolved, rejected, ChildMessage, Agenda, Linked, abort_child, on_signal,
  on_signals, linked_at_start, with_child, on_message, answered, on_prompted, on_child, on_value,
  on_created, execute_agent_session,
}
use complytime_providers.Dispatch.Executor.Session.Results.{
  IsSettled, Reaches, abort_child-Reaches, on_signals-Reaches, failed-IsSettled, caught-IsSettled,
  judged-IsSettled,
}

module _ (redact : Text → Text) (provenance : Provenance) (model : ModelIdentity)
    (fresh : (provenance.model_mismatch ≡ false) × (provenance.reported_child_model ≡ none)) where
  abbrev Settles : InvokeAgentResult × Linked → Type 0
  Settles settled = IsSettled provenance model settled.0 settled.1

  on_message-IsSettled :
      (linked : Linked) (message : ChildMessage)
      → linked.cause ≡ none
      → is_some linked.child ≡ true
      → IsSettled provenance model
          (with_child linked.child (on_message redact provenance model message))
          linked
  unfolding on_message
  on_message-IsSettled linked message calm there =
      let child_model = reported_model message.provider_id message.model_id in
      let mismatch = not (same_text child_model (some model.combined)) in
      judged-IsSettled redact provenance model fresh linked
        (record provenance { reported_child_model = child_model; model_mismatch = mismatch })
        message.error (response_text message.parts) (invocation_usage message.parts) refl
        (refl, refl) calm there

  answered-IsSettled :
      (linked : Linked) (response : Response ChildMessage) (value : Option ChildMessage)
      → linked.cause ≡ none
      → is_some linked.child ≡ true
      → Reaches linked
      → IsSettled provenance model
          (with_child linked.child (answered redact provenance model response value))
          linked
  unfolding answered
  answered-IsSettled linked response none calm there reach =
      failed-IsSettled redact provenance model fresh linked (txt "child_prompt_failed")
        (response_failure redact (txt "prompt child session") response) true reach
  answered-IsSettled linked response (some message) calm there reach =
      on_message-IsSettled linked message calm there

  on_prompted-IsSettled :
      (linked : Linked) (answer : Answer ChildMessage)
      → is_some linked.child ≡ true
      → Reaches linked
      → IsSettled provenance model (on_prompted redact provenance model linked answer) linked
  unfolding on_prompted
  on_prompted-IsSettled linked (rejected message) there reach =
      caught-IsSettled redact provenance model fresh linked message reach
  on_prompted-IsSettled linked (resolved response) there reach =
      elim (Bool-cases (is_some linked.cause)) [
        | inl caused ↦ rw caused (caught-IsSettled redact provenance model fresh linked [] reach)
        | inr calm ↦
            rw calm (answered-IsSettled linked response response.value (ground arith) there reach)
      ]

  child-on_signals :
      (linked : Linked) (signals : List Signal) → (on_signals linked signals).child ≡ linked.child
  unfolding on_signals on_signal abort_child
  child-on_signals linked [] = refl
  child-on_signals linked (signal ∷ signals) = child-on_signals (on_signal linked signal) signals

  on_child-IsSettled :
      (agenda : Agenda) (linked : Linked)
      → is_some linked.child ≡ true
      → Settles (on_child redact provenance model agenda linked)
  unfolding on_child
  on_child-IsSettled agenda linked there = elim (Bool-cases (is_some linked.cause)) [
    | inl caused ↦ rw caused (
        unfold abort_child in
        caught-IsSettled redact provenance model fresh (abort_child linked) []
          (abort_child-Reaches redact provenance model fresh linked))
    | inr calm ↦ rw calm (
        on_prompted-IsSettled (on_signals linked agenda.while_prompting) agenda.prompted
          (ground (arith, child-on_signals linked agenda.while_prompting))
          (on_signals-Reaches redact provenance model fresh linked agenda.while_prompting
            (λ id child caused. ground arith)))
  ]

  on_value-IsSettled :
      (agenda : Agenda) (linked : Linked) (response : Response Text) (value : Option Text)
      → linked.child ≡ none
      → Settles (on_value redact provenance model agenda linked response value)
  unfolding on_value
  on_value-IsSettled agenda linked response none absent =
      failed-IsSettled redact provenance model fresh linked (txt "child_create_failed")
        (response_failure redact (txt "create child session") response) true
        (λ id child caused. ground (arith, absent))
  on_value-IsSettled agenda linked response (some id) absent =
      on_child-IsSettled agenda (record linked { child = some id }) refl

  on_created-IsSettled :
      (agenda : Agenda) (linked : Linked) (answer : Answer Text)
      → linked.child ≡ none
      → Settles (on_created redact provenance model agenda linked answer)
  unfolding on_created
  on_created-IsSettled agenda linked (rejected message) absent =
      caught-IsSettled redact provenance model fresh linked message
        (λ id child caused. ground (arith, absent))
  on_created-IsSettled agenda linked (resolved response) absent =
      on_value-IsSettled agenda linked response response.value absent

  child-linked_at_start : (aborted : Bool) → (linked_at_start aborted).child ≡ none
  unfolding linked_at_start
  child-linked_at_start true = refl
  child-linked_at_start false = refl

  -- Whatever signals come, and whatever the calls answer, the session ends in a result: it succeeds
  -- only with the model that was asked for and if no signal came before the answer, it has an error
  -- otherwise, it is cancelled only by the parent, it fails if another model answered, it names the
  -- child, and every signal has led to an abort of the child that is there.
  pub execute_agent_session-IsSettled :
      (agenda : Agenda)
      → IsSettled provenance model
          (execute_agent_session redact provenance model agenda).0
          (execute_agent_session redact provenance model agenda).1
  unfolding execute_agent_session
  execute_agent_session-IsSettled agenda =
      let linked = linked_at_start agenda.aborted in
      on_created-IsSettled agenda (on_signals linked agenda.while_creating) agenda.created
        (child-on_signals linked agenda.while_creating ∙ child-linked_at_start agenda.aborted)

-- ===== src/Dispatch/Executor.antt =====
-- .opencode/lib/agent-executor.ts: the answers of a child session, and the results made of them.
pub mod Session
pub mod HostModel
use complytime_providers.Prelude.{
  ℕ, ◌+◌, Text, txt, Bool, true, false, not, ◌&&◌, ◌||◌, Option, none, some, List, [], ◌∷◌, ◌++◌,
  map, nat_eq, if◌then◌else◌, or_else, take, reverse, trim, join, decimal, ltb, leb, length,
}
use complytime_providers.Review.Model.{Status, success, failed, cancelled, Tokens, Usage, RunError}
use complytime_providers.Review.Votes.{is_cons}

pub record ModelIdentity : Type 0 where
  pub provider_id : Text
  pub model_id : Text
  pub combined : Text

pub record Provenance : Type 0 where
  pub agent : Text
  pub requested_model : Option Text
  pub requested_variant : Option Text
  pub resolved_parent_model : Option Text
  pub resolved_parent_variant : Option Text
  pub reported_child_model : Option Text
  pub model_mismatch : Bool
  pub read_only : Bool

pub record InvokeAgentResult : Type 0 where
  pub status : Status
  pub text : Text
  pub usage : Option Usage
  pub error : Option RunError
  pub provenance : Provenance
  pub child_session_id : Option Text

abbrev pub max_error_length : ℕ
max_error_length = 4096

-- `redact` is the replacement of credentials, queries and home paths.
unfoldable pub sanitize_invocation_error : (Text → Text) → Text → Text
sanitize_invocation_error redact message = take max_error_length (redact message)

-- A response: its data, the text of an error that it has, and its HTTP status.
pub record Response (Value : Type 0) : Type 0 where
  pub value : Option Value
  pub failure : Option Text
  pub http_status : Option ℕ

failure_detail : Option Text → Option ℕ → Text
unfolding decimal txt
failure_detail (some failure) status = failure
failure_detail none (some status) = txt "HTTP " ++ decimal status
failure_detail none none = txt "missing response data"

unfoldable pub response_failure : {Value : Type 0} → (Text → Text) → Text → Response Value → Text
unfolding failure_detail sanitize_invocation_error txt
response_failure redact label response =
    sanitize_invocation_error redact
      (label ++ txt ": " ++ failure_detail response.failure response.http_status)

-- The parts before and behind the first `/`.
unfoldable pub at_first_slash : Text → Option (Text × Text)
at_first_slash [] = none
at_first_slash (c ∷ s) =
    if nat_eq c b'/'
    then some ([], s)
    else elim (at_first_slash s) [ none ↦ none | some (before, behind) ↦ some (c ∷ before, behind) ]

without_last : Text → Text
without_last [] = []
without_last (c ∷ []) = []
without_last (c ∷ d ∷ s) = c ∷ without_last (d ∷ s)

-- Without a slash, `slice(0, -1)` and `slice(0)`.
unfoldable pub direct_model_identity : Text → ModelIdentity
unfolding at_first_slash without_last
direct_model_identity model = elim (at_first_slash model) [
  | some (provider, id) ↦ record { provider_id = provider; model_id = id; combined = model }
  | none ↦ record { provider_id = without_last model; model_id = model; combined = model }
]

unfoldable pub reported_model : Text → Text → Option Text
reported_model provider_id model_id =
    if is_cons provider_id && is_cons model_id then some (provider_id ++ b'/' ∷ model_id) else none

unfoldable pub failed_result :
    (Text → Text)
    → Provenance
    → Text
    → Text
    → Bool
    → Status
    → Text
    → Option Usage
    → InvokeAgentResult
unfolding sanitize_invocation_error
failed_result redact provenance code message retryable status text usage = record {
  status = status;
  text = text;
  usage = usage;
  error = some (record {
    code = code;
    message = sanitize_invocation_error redact message;
    retryable = retryable;
  });
  provenance = provenance;
  child_session_id = none;
}

pub data Part : Type 0 where
  text_part : (text : Text) → (is_ignored : Bool) → Part
  step_finish : (cost : ℕ) → (tokens : Tokens) → Part
  other_part : Part

abbrev no_tokens : Tokens
no_tokens = record { input = 0; output = 0 }

unfoldable pub add_finish : Usage → ℕ → Tokens → Usage
add_finish usage cost tokens = record {
  cost_usd = some (or_else usage.cost_usd 0 + cost);
  tokens = some (record {
    input = (or_else usage.tokens no_tokens).input + tokens.input;
    output = (or_else usage.tokens no_tokens).output + tokens.output;
  });
}

unfoldable pub add_finishes : Usage → List Part → Usage
unfolding add_finish
add_finishes usage [] = usage
add_finishes usage (step_finish cost tokens ∷ parts) =
    add_finishes (add_finish usage cost tokens) parts
add_finishes usage (text_part text is_ignored ∷ parts) = add_finishes usage parts
add_finishes usage (other_part ∷ parts) = add_finishes usage parts

has_finish : List Part → Bool
has_finish [] = false
has_finish (step_finish cost tokens ∷ parts) = true
has_finish (text_part text is_ignored ∷ parts) = has_finish parts
has_finish (other_part ∷ parts) = has_finish parts

unfoldable pub invocation_usage : List Part → Option Usage
unfolding has_finish add_finishes
invocation_usage parts =
    if has_finish parts
    then some (add_finishes (record { cost_usd = some 0; tokens = some no_tokens }) parts)
    else none

shown_texts : List Part → List Text
shown_texts [] = []
shown_texts (text_part text is_ignored ∷ parts) =
    if is_ignored then shown_texts parts else text ∷ shown_texts parts
shown_texts (step_finish cost tokens ∷ parts) = shown_texts parts
shown_texts (other_part ∷ parts) = shown_texts parts

unfoldable pub response_text : List Part → Text
unfolding shown_texts join trim
response_text parts = trim (join (10 ∷ 10 ∷ []) (shown_texts parts))

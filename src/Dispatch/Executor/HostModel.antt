-- ===== src/Dispatch/Executor/HostModel.antt =====
-- .opencode/lib/agent-executor.ts: `resolveHostModel`, and the schema of a variant.
use complytime_providers.Prelude.{
  ℕ, Text, txt, Bool, true, false, ◌&&◌, ◌||◌, Option, none, some, [], ◌∷◌, all, length, leb, ltb,
  nat_eq, if◌then◌else◌, Result, ok, err,
}
use complytime_providers.Dispatch.Executor.{
  ModelIdentity, Response, response_failure, reported_model,
}

is_letter_or_digit : ℕ → Bool
is_letter_or_digit c =
    (leb b'A' c && leb c b'Z') || (leb b'a' c && leb c b'z') || (leb b'0' c && leb c b'9')

is_variant_unit : ℕ → Bool
unfolding is_letter_or_digit
is_variant_unit c = is_letter_or_digit c || nat_eq c b'.' || nat_eq c b'_' || nat_eq c b'-'

-- `VariantSchema`: `^[A-Za-z0-9][A-Za-z0-9._-]{0,63}$`, of 64 characters at most
unfoldable pub is_variant : Text → Bool
unfolding is_letter_or_digit is_variant_unit
is_variant [] = false
is_variant (c ∷ s) = is_letter_or_digit c && all is_variant_unit s && leb (length (c ∷ s)) 64

-- What the current message of the parent session says.
pub record HostMessage : Type 0 where
  pub is_assistant : Bool
  pub provider_id : Text
  pub model_id : Text
  pub variant : Option Text

pub record HostModel : Type 0 where
  pub identity : ModelIdentity
  pub variant : Option Text

abbrev is_valid_variant : Option Text → Bool
is_valid_variant none = true
is_valid_variant (some variant) = is_variant variant

host_identity : HostMessage → Text → Result HostModel
unfolding is_variant txt
host_identity message combined =
    if ltb 256 (length combined)
    then err (txt "current assistant model identity is unavailable")
    else if is_valid_variant message.variant
    then ok (record {
      identity = record {
        provider_id = message.provider_id;
        model_id = message.model_id;
        combined = combined;
      };
      variant = message.variant;
    })
    else err (txt "current assistant active variant is invalid")

-- The message of an error that is thrown, or the model.
unfoldable pub resolve_host_model : (Text → Text) → Response HostMessage → Result HostModel
unfolding host_identity response_failure reported_model txt
resolve_host_model redact response = elim response.value [
  | none ↦ err (response_failure redact (txt "current assistant message is unavailable") response)
  | some message ↦
      if message.is_assistant
      then elim (reported_model message.provider_id message.model_id) [
        | none ↦ err (txt "current assistant model identity is unavailable")
        | some combined ↦ host_identity message combined
      ]
      else err (txt "current message is not an assistant message")
]

-- ===== src/Dispatch/Selecting.antt =====
-- .opencode/plugins/review-dispatch/index.ts: the options of `executeDispatchRun` and the model that it
-- selects by them.
use complytime_providers.Prelude.{
  ℕ, Text, txt, Bool, true, false, Option, none, some, List, ◌∷◌, ◌++◌, if◌then◌else◌, is_none,
  Result, ok, err, ◌>>=◌,
}
use complytime_providers.Review.Model.{Source, advisor, Tier, tier_text, PlanEntry}
use complytime_providers.Plan.Policy.{Matrix, Reviewer, Resolved, profile_pair}
use complytime_providers.Dispatch.Executor.{
  ModelIdentity, Response, sanitize_invocation_error, direct_model_identity,
}
use complytime_providers.Dispatch.Executor.Session.{Agenda}
use complytime_providers.Dispatch.Executor.HostModel.{HostMessage, HostModel, resolve_host_model}

pub record RunOptions : Type 0 where
  pub agent : Text
  pub prompt_text : Text
  pub correlation_id : Text
  pub sequence : ℕ
  pub read_only : Bool
  pub source : Source
  pub model : Option Text
  pub tier : Option Tier
  pub variant : Option Text

-- The options of a plan's entry, which has a model or a tier.
unfoldable pub resolve_plan_entry_runtime : PlanEntry → Option Text × Option Tier × Option Text
resolve_plan_entry_runtime entry =
    (entry.model, if is_none entry.model then entry.tier else none, entry.variant)

-- What the outside answers: the policies, the parent's message and whether the parent has been
-- cancelled by then, the child's session, the times, the fresh ids, and
-- what goes wrong in the write of the run file.
pub record World : Type 0 where
  pub redact : Text → Text
  pub policies : Result (Matrix × List Reviewer)
  pub host_message : Result (Response HostMessage)
  pub is_aborted : Bool
  pub agenda : Agenda
  pub started_at : Text
  pub finished_at : Text
  pub run_id : Text
  pub makes_folder : Bool
  pub writes : Bool
  pub leaves_part : Bool
  pub renames : Bool
  pub unlinks : Bool

pub record Parent : Type 0 where
  pub model : Text
  pub variant : Option Text

-- The model that is selected, or the code, the text and the retry of an early exit.
pub record Selected : Type 0 where
  pub identity : ModelIdentity
  pub variant : Option Text
  pub requested : Option Text
  pub parent : Option Parent

pub data Selection : Type 0 where
  selected : (choice : Selected) → Selection
  exits : (placeholder : Text) → (code : Text) → (message : Text) → (retryable : Bool) → Selection

module _ (world : World) (options : RunOptions) where
  select_host : Text → Result HostModel → Selection
  unfolding sanitize_invocation_error txt
  select_host tier (err message) =
      if world.is_aborted
      then exits tier (txt "cancelled") (txt "dispatch cancelled") false
      else exits tier (txt "host_model_unavailable")
          (sanitize_invocation_error world.redact message) true
  select_host tier (ok found) = selected (record {
    identity = found.identity;
    variant = found.variant;
    requested = none;
    parent = some (record {
      model = found.identity.provider_id ++ b'/' ∷ found.identity.model_id;
      variant = found.variant;
    });
  })

  unfoldable pub inherit_model : Text → Source → Selection
  unfolding select_host resolve_host_model txt
  inherit_model tier advisor = select_host tier (
      world.host_message >>= λ (response : Response HostMessage).
      resolve_host_model world.redact response)
  inherit_model tier source =
      exits tier (txt "tier_model_unavailable")
        (txt "profile \"" ++ tier ++ txt "\" has no model configured in the review matrix") false

  unfoldable pub select_profile : Text → Source → Option Text → Option Text → Selection
  unfolding inherit_model direct_model_identity
  select_profile tier source (some model) variant = selected (record {
    identity = direct_model_identity model;
    variant = variant;
    requested = some model;
    parent = none;
  })
  select_profile tier source none variant = inherit_model tier source

  unfoldable pub select_resolved : Text → Source → Resolved → Selection
  unfolding select_profile
  select_resolved tier source resolved = select_profile tier source resolved.model resolved.variant

  -- `options.tier ?? "standard"`
  unfoldable pub tier_label : Text
  unfolding tier_text txt
  tier_label = elim options.tier [ none ↦ txt "standard" | some tier ↦ tier_text tier ]

  unfoldable pub select_by : Matrix → Option Text → Result Selection
  unfolding select_resolved direct_model_identity profile_pair tier_label
  select_by matrix (some model) = ok (
      selected (record {
        identity = direct_model_identity model;
        variant = options.variant;
        requested = some model;
        parent = none;
      }))
  select_by matrix none = profile_pair matrix tier_label options.variant >>= λ (found : Resolved).
      ok (select_resolved tier_label options.source found)

  -- The model by the options or by the matrix; a tier without a profile throws.
  unfoldable pub select_model : Matrix → Result Selection
  unfolding select_by
  select_model matrix = select_by matrix options.model

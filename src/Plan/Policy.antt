-- ===== src/Plan/Policy.antt =====
-- .opencode/plugins/review-dispatch/index.ts: the review matrix, its limits and its profiles;
-- .opencode/lib/reviewer-manifest.ts: the reviewers and their categories.
use complytime_providers.Prelude.{
  ℕ, Text, txt, ◌==◌, Bool, Option, none, some, List, ◌++◌, any, nat_eq, if◌then◌else◌, is_some,
  or_else, includes, Assoc, get, Result, ok, err,
}
use complytime_providers.Review.Model.{
  Tier, lightweight, standard, heavy, Source, explicit, advisor, host,
}

pub data Category : Type 0 where
  security cli_ux test_quality documentation ci_cd dependencies plain : Category

abbrev category_index : Category → ℕ
category_index security = 0
category_index cli_ux = 1
category_index test_quality = 2
category_index documentation = 3
category_index ci_cd = 4
category_index dependencies = 5
category_index plain = 6

abbrev pub is_category : Category → Category → Bool
is_category a b = nat_eq (category_index a) (category_index b)

-- `plain` is the category "standard".
unfoldable pub category_text : Category → Text
unfolding txt
category_text security = txt "security"
category_text cli_ux = txt "cli-ux"
category_text test_quality = txt "test-quality"
category_text documentation = txt "documentation"
category_text ci_cd = txt "ci-cd"
category_text dependencies = txt "dependencies"
category_text plain = txt "standard"

-- `categories.includes(c)`
abbrev pub has_category : List Category → Category → Bool
has_category cs c = any (is_category c) cs

pub data Capability : Type 0 where
  review content : Capability

pub record Reviewer : Type 0 where
  pub agent : Text
  pub capability : Capability
  pub scopes : List Category

pub data MatrixMode : Type 0 where
  code spec triage feedback : MatrixMode

pub data CommandMode : Type 0 where
  code_mode specs_mode triage_mode feedback_mode test_mode : CommandMode

unfoldable pub matrix_mode : CommandMode → MatrixMode
matrix_mode specs_mode = spec
matrix_mode test_mode = code
matrix_mode code_mode = code
matrix_mode triage_mode = triage
matrix_mode feedback_mode = feedback

-- An object with a key for each mode of the matrix. An absent list or map is empty.
pub record PerMode {ℓ} (A : Type ℓ) : Type ℓ where
  pub code : A
  pub spec : A
  pub triage : A
  pub feedback : A

abbrev pub at_mode {ℓ} : {A : Type ℓ} → PerMode A → MatrixMode → A
at_mode m code = m.code
at_mode m spec = m.spec
at_mode m triage = m.triage
at_mode m feedback = m.feedback

pub record Profile : Type 0 where
  pub model : Option Text
  pub variant : Option Text

-- A configured run names a profile, or a model.
pub data RunSpec : Type 0 where
  by_profile : (profile : Text) (variant : Option Text) → RunSpec
  by_model : (model : Text) (variant : Option Text) → RunSpec

pub record RiskAugmentation : Type 0 where
  pub enabled : Bool
  pub agents : List Text

-- A cap is a number or null.
pub record TierCaps : Type 0 where
  pub lightweight_cap : Option ℕ
  pub standard_cap : Option ℕ
  pub heavy_cap : Option ℕ

-- What the matrix may set of the caps: each key may be absent.
pub record CapSettings : Type 0 where
  pub lightweight_set : Option (Option ℕ)
  pub standard_set : Option (Option ℕ)
  pub heavy_set : Option (Option ℕ)

pub record LimitSettings : Type 0 where
  pub max_personas : Option ℕ
  pub max_runs_per_persona : Option ℕ
  pub max_total_runs : Option ℕ
  pub max_parallel_runs : Option ℕ
  pub per_run_timeout_seconds : Option ℕ
  pub max_reported_cost_usd : Option ℕ
  pub tier_caps : Option CapSettings

pub record Limits : Type 0 where
  pub max_personas : ℕ
  pub max_runs_per_persona : ℕ
  pub max_total_runs : ℕ
  pub max_parallel_runs : ℕ
  pub per_run_timeout_seconds : ℕ
  pub max_reported_cost_usd : ℕ
  pub tier_caps : TierCaps

pub record Matrix : Type 0 where
  pub version : ℕ
  pub profiles : Assoc Profile
  pub defaults : PerMode Text
  pub always : Assoc Text
  pub advisors : PerMode (List Text)
  pub runs : PerMode (Assoc (List RunSpec))
  pub risk_augmentation : Option RiskAugmentation
  pub limits : Option LimitSettings

abbrev pub default_caps : TierCaps
default_caps = record { lightweight_cap = some 2; standard_cap = none; heavy_cap = none }

abbrev pub default_limits : Limits
default_limits = record {
  max_personas = 16;
  max_runs_per_persona = 3;
  max_total_runs = 24;
  max_parallel_runs = 4;
  per_run_timeout_seconds = 600;
  max_reported_cost_usd = 25;
  tier_caps = default_caps;
}

-- `{ ...DEFAULT_TIER_CAPS, ...settings }`
unfoldable pub caps_for : Option CapSettings → TierCaps
caps_for none = default_caps
caps_for (some s) = record {
  lightweight_cap = or_else s.lightweight_set default_caps.lightweight_cap;
  standard_cap = or_else s.standard_set default_caps.standard_cap;
  heavy_cap = or_else s.heavy_set default_caps.heavy_cap;
}

limits_of : Option LimitSettings → Limits
unfolding caps_for
limits_of none = default_limits
limits_of (some s) = record {
  max_personas = or_else s.max_personas default_limits.max_personas;
  max_runs_per_persona = or_else s.max_runs_per_persona default_limits.max_runs_per_persona;
  max_total_runs = or_else s.max_total_runs default_limits.max_total_runs;
  max_parallel_runs = or_else s.max_parallel_runs default_limits.max_parallel_runs;
  per_run_timeout_seconds =
      or_else s.per_run_timeout_seconds default_limits.per_run_timeout_seconds;
  max_reported_cost_usd = or_else s.max_reported_cost_usd default_limits.max_reported_cost_usd;
  tier_caps = caps_for s.tier_caps;
}

unfoldable pub limits_for : Matrix → Limits
unfolding limits_of
limits_for matrix = limits_of matrix.limits

abbrev pub cap_of : TierCaps → Tier → Option ℕ
cap_of c lightweight = c.lightweight_cap
cap_of c standard = c.standard_cap
cap_of c heavy = c.heavy_cap

-- The tier of which a profile has the name, if any.
unfoldable pub tier_named : Text → Option Tier
unfolding txt ◌==◌
tier_named name =
    if name == txt "lightweight"
    then some lightweight
    else if name == txt "standard"
    then some standard
    else if name == txt "heavy"
    then some heavy
    else none

pub record Resolved : Type 0 where
  pub model : Option Text
  pub variant : Option Text
  pub tier : Option Tier

-- `a ?? b`
abbrev pub or_option {ℓ} : {A : Type ℓ} → Option A → Option A → Option A
or_option none b = b
or_option (some a) b = some a

unfoldable pub profile_pair : Matrix → Text → Option Text → Result Resolved
unfolding get tier_named txt
profile_pair matrix name variant = elim (get matrix.profiles name) [
  | none ↦ err (txt "unknown profile " ++ name)
  | some p ↦
      ok (record { model = p.model; variant = or_option variant p.variant; tier = tier_named name })
]

unfoldable pub source_for : Matrix → MatrixMode → Text → Source
unfolding get includes
source_for matrix mode agent =
    if is_some (get (at_mode matrix.runs mode) agent)
    then explicit
    else if includes (at_mode matrix.advisors mode) agent
    then advisor
    else host

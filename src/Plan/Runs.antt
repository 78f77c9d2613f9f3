-- ===== src/Plan/Runs.antt =====
-- .opencode/plugins/review-dispatch/index.ts: the runs of a selected agent: explicit, advised or on
-- the host model, with the augmentation and without repeated models.
pub mod Distinct
use complytime_providers.Prelude.{
  ℕ, Text, txt, ◌==◌, Bool, true, false, not, ◌&&◌, ◌||◌, Option, none, some, List, [], ◌∷◌, ◌++◌,
  map, ltb, if◌then◌else◌, includes, add, Assoc, get, or_else, Result, ok, err, ◌>>=◌,
}
use complytime_providers.Review.Model.{
  Tier, lightweight, standard, heavy, tier_text, Source, explicit, advisor, host,
}
use complytime_providers.Plan.Policy.{
  Matrix, MatrixMode, at_mode, RunSpec, by_profile, by_model, Resolved, profile_pair,
  RiskAugmentation,
}
use complytime_providers.Plan.Profiles.{
  ChangeProfile, of_diff, of_issue, profile_tier, is_security_sensitive,
}
use complytime_providers.Plan.Relevance.{adversary_agent, architect_agent}

pub data RunReason : Type 0 where
  explicit_run invalid_explicit_run advisor_run host_fallback risk_augmentation_run : RunReason
  full_panel_run : RunReason

unfoldable pub run_reason_text : RunReason → Text
unfolding txt
run_reason_text explicit_run = txt "explicit-run"
run_reason_text invalid_explicit_run = txt "invalid-explicit-run"
run_reason_text advisor_run = txt "advisor-run"
run_reason_text host_fallback = txt "host-fallback"
run_reason_text risk_augmentation_run = txt "risk-augmentation"
run_reason_text full_panel_run = txt "full-panel"

pub record ResolvedRun : Type 0 where
  pub source : Source
  pub tier : Option Tier
  pub model : Option Text
  pub variant : Option Text
  pub reason_code : RunReason
  pub reason : Text
  pub validation_errors : List Text

-- A run with the fields of a resolved profile.
abbrev resolved_run : Source → Resolved → RunReason → Text → ResolvedRun
resolved_run source r code reason = record {
  source = source;
  tier = r.tier;
  model = r.model;
  variant = r.variant;
  reason_code = code;
  reason = reason;
  validation_errors = [];
}

unfoldable pub explicit_run_of : Matrix → RunSpec → ResolvedRun
unfolding profile_pair txt
explicit_run_of matrix (by_model model variant) = record {
  source = explicit;
  tier = none;
  model = some model;
  variant = variant;
  reason_code = explicit_run;
  reason = txt "authoritative matrix run";
  validation_errors = [];
}
explicit_run_of matrix (by_profile profile variant) = elim (profile_pair matrix profile variant) [
  | ok r ↦ resolved_run explicit r explicit_run (txt "authoritative matrix run")
  | err message ↦ record {
    source = explicit;
    tier = none;
    model = none;
    variant = none;
    reason_code = invalid_explicit_run;
    reason = txt "explicit run failed validation";
    validation_errors = message ∷ [];
  }
]

unfoldable pub explicit_runs : Matrix → MatrixMode → Text → Option (List ResolvedRun)
unfolding get explicit_run_of
explicit_runs matrix mode agent = elim (get (at_mode matrix.runs mode) agent) [
  | none ↦ none
  | some configured ↦ some (map (explicit_run_of matrix) configured)
]

abbrev host_run : ResolvedRun
host_run = record {
  source = host;
  tier = none;
  model = none;
  variant = none;
  reason_code = host_fallback;
  reason = txt "no explicit or advisor run; use the active host model";
  validation_errors = [];
}

unfoldable pub base_runs : Matrix → MatrixMode → Text → Result (List ResolvedRun)
unfolding explicit_runs get includes profile_pair txt
base_runs matrix mode agent = elim (explicit_runs matrix mode agent) [
  | some runs ↦ ok runs
  | none ↦
      if includes (at_mode matrix.advisors mode) agent
      then (let name = or_else (get matrix.always agent) (at_mode matrix.defaults mode) in
          do
            r ← profile_pair matrix name none
            ok (
                resolved_run advisor r advisor_run
                  (txt "advisor selected " ++ name ++ txt " profile")
                ∷ []))
      else ok (host_run ∷ [])
]

unfoldable pub adjacent_tier : Tier → Tier
adjacent_tier lightweight = standard
adjacent_tier standard = heavy
adjacent_tier heavy = standard

abbrev is_large_diff : ChangeProfile → Bool
is_large_diff (of_diff p) = ltb 500 p.lines
is_large_diff (of_issue p) = false

unfoldable pub should_augment : Text → ChangeProfile → Bool
unfolding ◌==◌ adversary_agent architect_agent
should_augment agent profile =
    (agent == adversary_agent && is_security_sensitive profile)
    || (agent == architect_agent && is_large_diff profile)

abbrev allows_augmentation : Option RiskAugmentation → Text → Bool
allows_augmentation none agent = false
allows_augmentation (some r) agent = r.enabled && includes r.agents agent

unfoldable pub add_augmentation :
    Matrix → Text → ChangeProfile → Bool → Bool → List ResolvedRun → Result (List ResolvedRun)
unfolding should_augment includes adjacent_tier profile_pair tier_text txt
add_augmentation matrix agent profile requested full runs =
    if full
      || not requested
      || not (allows_augmentation matrix.risk_augmentation agent)
      || not (should_augment agent profile)
    then ok runs
    else (let tier = adjacent_tier (profile_tier profile) in
        do
          r ← profile_pair matrix (tier_text tier) none
          ok (
              runs
              ++ resolved_run advisor r risk_augmentation_run (
                  txt "opt-in risk augmentation selected adjacent "
                  ++ tier_text tier
                  ++ txt " profile")
                ∷ []))

pub record Omission : Type 0 where
  pub agent : Text
  pub model : Text
  pub variant : Option Text

abbrev pub run_key : Text → Option Text → Text
run_key model variant = model ++ 0 ∷ or_else variant []

-- The loop of `deduplicateRuns`: the runs kept and those omitted, behind the keys seen.
unfoldable pub deduplicate_from :
    Text → List Text → List ResolvedRun → List ResolvedRun × List Omission
unfolding includes add
deduplicate_from agent seen [] = ([], [])
deduplicate_from agent seen (run ∷ runs) = elim run.model [
  | none ↦ let (kept, omitted) = deduplicate_from agent seen runs in (run ∷ kept, omitted)
  | some model ↦
      let key = run_key model run.variant in
      elim (includes seen key) [
        | true ↦
            let (kept, omitted) = deduplicate_from agent seen runs in
            (kept, record { agent = agent; model = model; variant = run.variant } ∷ omitted)
        | false ↦
            let (kept, omitted) = deduplicate_from agent (add seen key) runs in
            (run ∷ kept, omitted)
      ]
]

unfoldable pub deduplicate_runs : Text → List ResolvedRun → List ResolvedRun × List Omission
unfolding deduplicate_from
deduplicate_runs agent runs = deduplicate_from agent [] runs

unfoldable pub full_panel_runs : Matrix → Result (List ResolvedRun)
unfolding profile_pair txt
full_panel_runs matrix = do
  r ← profile_pair matrix (txt "standard") none
  ok (resolved_run advisor r full_panel_run (txt "full panel forces one standard-profile run") ∷ [])

-- ===== src/Plan/Build.antt =====
-- .opencode/plugins/review-dispatch/index.ts: `buildPlan`, `failedPlan` and `planReviewDispatch`.
pub mod Entries
pub mod Safety
pub mod Eligible
use complytime_providers.Prelude.{
  ℕ, suc, ◌+◌, Text, txt, ◌==◌, Bool, true, false, not, ◌&&◌, ◌||◌, Option, none, some, List, [],
  ◌∷◌, ◌++◌, map, length, count, ltb, nat_eq, if◌then◌else◌, is_some, includes, set_of, sort, Assoc,
  get, put, keys, decimal, join, Result, ok, err, ◌>>=◌, Runtime,
}
use complytime_providers.Review.Model.{
  Severity, high, low, Tier, heavy, Source, advisor, Decision, include, skip, is_include, PlanEntry,
}
use complytime_providers.Review.Votes.{is_cons}
use complytime_providers.Plan.Policy.{
  Reviewer, MatrixMode, CommandMode, code_mode, specs_mode, triage_mode, feedback_mode, test_mode,
  matrix_mode, Matrix, Limits, default_limits, limits_for, cap_of, source_for,
}
use complytime_providers.Plan.Profiles.{
  ChangeProfile, of_diff, of_issue, profile_tier, ChangedFile, profile_diff,
}
use complytime_providers.Plan.Relevance.{Code, code_text, relevance, curator_agent}
use complytime_providers.Plan.Runs.{
  ResolvedRun, run_reason_text, Omission, base_runs, add_augmentation, deduplicate_runs,
  full_panel_runs,
}
use complytime_providers.Plan.Cap.{apply_tier_cap}
use complytime_providers.Plan.Select.{
  PlanInput, manifest_path, Pass, nothing_passed, select_agents, capped,
}
use complytime_providers.Plan.Resolve.{Resolution, resolve_agents}

pub record LimitState : Type 0 where
  pub required_personas : ℕ
  pub configured_personas : ℕ
  pub required_runs : ℕ
  pub configured_runs : ℕ

pub record PlanAdvisory : Type 0 where
  pub severity : Severity
  pub description : Text

-- `ready` is the status "ready", with no workflow result; otherwise both are inconclusive.
pub record DispatchPlan : Type 0 where
  pub ready : Bool
  pub input : PlanInput
  pub profile : ChangeProfile
  pub limits : Limits
  pub entries : List PlanEntry
  pub omissions : List Omission
  pub limit_state : Option LimitState
  pub advisories : List PlanAdvisory
  pub errors : List Text

abbrev pub count_included : List PlanEntry → ℕ
count_included entries = count (λ (e : PlanEntry). is_include e.decision) entries

unfoldable pub exceeds : Limits → ℕ → ℕ → Bool
exceeds limits personas runs = ltb limits.max_personas personas || ltb limits.max_total_runs runs

-- The messages on the plan as a whole.
unfoldable pub panel_errors : Limits → ℕ → ℕ → List Text
unfolding exceeds decimal txt
panel_errors limits personas runs =
    (if exceeds limits personas runs
      then (txt "panel requires "
          ++ decimal personas
          ++ txt " personas/"
          ++ decimal runs
          ++ txt " runs; configured limits are "
          ++ decimal limits.max_personas
          ++ txt " personas/"
          ++ decimal limits.max_total_runs
          ++ txt " runs")
        ∷ []
      else [])
    ++ (if nat_eq runs 0
        then txt "dispatch plan contains no runnable review assessment" ∷ []
        else [])

-- The advisories on reviewers of the manifest that were not discovered.
unfoldable pub stale_advisories : List Text → List Reviewer → List PlanAdvisory
unfolding includes manifest_path txt
stale_advisories discovered [] = []
stale_advisories discovered (r ∷ rs) =
    if includes discovered r.agent
    then stale_advisories discovered rs
    else record {
      severity = low;
      description =
          txt "manifest reviewer "
          ++ r.agent
          ++ txt " was not among the discovered agents (stale "
          ++ manifest_path
          ++ txt " entry); it will not be scheduled. "
          ++ txt "Remove the entry or restore its agent file.";
    }
      ∷ stale_advisories discovered rs

heavy_cap_advisory : Option ℕ → List PlanAdvisory
unfolding decimal txt
heavy_cap_advisory none = []
heavy_cap_advisory (some cap) =
    record {
      severity = high;
      description =
          txt "tier_caps.heavy is set to "
          ++ decimal cap
          ++ txt " for a security-sensitive change. "
          ++ txt
              "This may reduce the number of review agents below the full security review panel. "
          ++ txt
              "Consider removing the heavy tier cap or setting it to null for security-sensitive changes.";
    }
    ∷ []

unfoldable pub cap_advisories : ChangeProfile → Limits → List PlanAdvisory
unfolding heavy_cap_advisory
cap_advisories (of_diff p) limits =
    if p.security_sensitive then heavy_cap_advisory limits.tier_caps.heavy_cap else []
cap_advisories (of_issue p) limits = []

abbrev limit_state_of : Limits → ℕ → ℕ → Option LimitState
limit_state_of limits personas runs =
    if exceeds limits personas runs
    then some (record {
      required_personas = personas;
      configured_personas = limits.max_personas;
      required_runs = runs;
      configured_runs = limits.max_total_runs;
    })
    else none

-- The plan of the two passes: `kept` are the agents that the tier cap left.
unfoldable pub assemble :
    PlanInput
    → ChangeProfile
    → Matrix
    → List Reviewer
    → Pass
    → List Text × List PlanEntry
    → Resolution
    → DispatchPlan
unfolding limits_for panel_errors stale_advisories cap_advisories set_of sort exceeds
assemble input profile matrix reviewers p (kept, beyond) r =
    let limits = limits_for matrix in
    let entries = p.entries ++ beyond ++ r.entries in
    let runs = count_included entries in
    let personas = length kept in
    let errors = sort (set_of (p.errors ++ r.errors ++ panel_errors limits personas runs)) in
    record {
      ready = not (is_cons errors);
      input = input;
      profile = profile;
      limits = limits;
      entries = entries;
      omissions = r.omissions;
      limit_state = limit_state_of limits personas runs;
      advisories =
          stale_advisories (set_of input.discovered_agents) reviewers
          ++ cap_advisories profile limits;
      errors = errors;
    }

unfoldable pub build_plan : PlanInput → ChangeProfile → Matrix → List Reviewer → Result DispatchPlan
unfolding select_agents capped resolve_agents assemble sort set_of
build_plan input profile matrix reviewers =
    let p =
      select_agents input profile matrix reviewers nothing_passed (sort input.discovered_agents) in
    let (kept, beyond) = capped input profile matrix reviewers p.selected in
    do
      r ← resolve_agents input profile matrix (sort kept)
      ok (assemble input profile matrix reviewers p (kept, beyond) r)

unfoldable pub failed_plan : PlanInput → ChangeProfile → List Text → DispatchPlan
unfolding sort
failed_plan input profile errors = record {
  ready = false;
  input = input;
  profile = profile;
  limits = default_limits;
  entries = [];
  omissions = [];
  limit_state = none;
  advisories = [];
  errors = sort errors;
}

-- `planReviewDispatch` once the policies are loaded, or their loading failed: an error gives a plan
-- that is inconclusive.
unfoldable pub plan_review_dispatch :
    PlanInput → ChangeProfile → Result (Matrix × List Reviewer) → DispatchPlan
unfolding build_plan failed_plan txt
plan_review_dispatch input profile policies =
    elim (policies >>= λ (matrix, reviewers). build_plan input profile matrix reviewers) [
      | ok plan ↦ plan
      | err message ↦
          failed_plan input profile ((txt "review dispatch policy failure: " ++ message) ∷ [])
    ]

-- ===== src/Plan/Select.antt =====
-- .opencode/plugins/review-dispatch/index.ts: `buildPlan`, its first pass and the tier cap.
use complytime_providers.Prelude.{
  ℕ, Text, txt, Bool, true, Option, none, some, List, [], ◌∷◌, ◌++◌, map, if◌then◌else◌, sort,
  Assoc, get, put, keys, join,
}
use complytime_providers.Review.Model.{Source, advisor, skip, PlanEntry}
use complytime_providers.Plan.Policy.{
  Reviewer, CommandMode, code_mode, specs_mode, matrix_mode, Matrix, limits_for, cap_of, source_for,
}
use complytime_providers.Plan.Profiles.{ChangeProfile, profile_tier}
use complytime_providers.Plan.Relevance.{Code, code_text, relevance}
use complytime_providers.Plan.Cap.{apply_tier_cap}

pub record PlanInput : Type 0 where
  pub mode : CommandMode
  pub discovered_agents : List Text
  pub full : Bool
  pub augment : Bool

unfoldable pub manifest_path : Text
unfolding txt
manifest_path = txt ".uf/reviewer-capabilities.yaml"

-- `new Map(manifest.reviewers.map((reviewer) => [reviewer.agent, reviewer]))`
unfoldable pub by_agent : Assoc Reviewer → List Reviewer → Assoc Reviewer
unfolding put
by_agent m [] = m
by_agent m (r ∷ rs) = by_agent (put m r.agent r) rs

abbrev agent_names : List Reviewer → List Text
agent_names reviewers = map (λ (r : Reviewer). r.agent) reviewers

unfoldable pub unknown_agent : List Text → List Reviewer → Text → Text
unfolding manifest_path sort join txt
unknown_agent discovered reviewers agent =
    txt "discovered agent "
    ++ agent
    ++ txt " has no reviewer-manifest entry. Remediation: add an entry for "
    ++ agent
    ++ txt " to "
    ++ manifest_path
    ++ txt " (reviewers are keyed by agent name), or stop discovering it. Discovered agents: "
    ++ join (txt ", ") (sort discovered)
    ++ txt ". Manifest-eligible agents: "
    ++ join (txt ", ") (sort (agent_names reviewers))
    ++ txt "."

-- What the first pass gathers.
pub record Pass : Type 0 where
  pub entries : List PlanEntry
  pub errors : List Text
  pub selected : Assoc Code

abbrev pub nothing_passed : Pass
nothing_passed = record { entries = []; errors = []; selected = [] }

abbrev skip_entry : Text → Text → Text → Source → PlanEntry
skip_entry agent code reason source = record {
  agent = agent;
  decision = skip;
  reason_code = code;
  reason = reason;
  source = source;
  sequence = 1;
  read_only = true;
  tier = none;
  model = none;
  variant = none;
  validation_errors = [];
}

module _ (input : PlanInput) (profile : ChangeProfile) (matrix : Matrix)
    (reviewers : List Reviewer) where
  -- One round of the first pass.
  unfoldable pub select_agent : Pass → Text → Pass
  unfolding by_agent get relevance code_text source_for matrix_mode unknown_agent put
  select_agent p agent = elim (get (by_agent [] reviewers) agent) [
    | none ↦ record p {
      errors = p.errors ++ unknown_agent input.discovered_agents reviewers agent ∷ [];
    }
    | some reviewer ↦
        let selection = relevance reviewer profile input.mode input.full in
        if selection.selected
        then record p { selected = put p.selected agent selection.code }
        else record p {
          entries =
              p.entries
              ++ skip_entry agent (code_text selection.code) selection.reason
                  (if input.full then advisor else source_for matrix (matrix_mode input.mode) agent)
                ∷ [];
        }
  ]

  unfoldable pub select_agents : Pass → List Text → Pass
  unfolding select_agent
  select_agents p [] = p
  select_agents p (agent ∷ agents) = select_agents (select_agent p agent) agents

  -- The cap of the profile's tier, if it applies to the command.
  unfoldable pub tier_cap : Option ℕ
  unfolding limits_for
  tier_cap = if input.full then none else elim input.mode [
    | code_mode ↦ cap_of (limits_for matrix).tier_caps (profile_tier profile)
    | specs_mode ↦ cap_of (limits_for matrix).tier_caps (profile_tier profile)
    | _ ↦ none
  ]

  unfoldable pub capped : Assoc Code → List Text × List PlanEntry
  unfolding tier_cap apply_tier_cap
  capped selected = elim tier_cap [
    | none ↦ (keys selected, [])
    | some cap ↦ apply_tier_cap selected (profile_tier profile) cap
  ]

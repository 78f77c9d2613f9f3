-- ===== src/Plan/Resolve.antt =====
-- .opencode/plugins/review-dispatch/index.ts: `buildPlan`, its second pass: the runs of the agents.
use complytime_providers.Prelude.{
  ℕ, suc, Text, txt, ◌==◌, true, ◌&&◌, List, [], ◌∷◌, ◌++◌, length, ltb, if◌then◌else◌, decimal,
  join, Result, ok, ◌>>=◌,
}
use complytime_providers.Review.Model.{include, skip, PlanEntry}
use complytime_providers.Review.Votes.{is_cons}
use complytime_providers.Plan.Policy.{matrix_mode, Matrix, limits_for}
use complytime_providers.Plan.Profiles.{ChangeProfile}
use complytime_providers.Plan.Relevance.{curator_agent}
use complytime_providers.Plan.Runs.{
  ResolvedRun, run_reason_text, Omission, base_runs, add_augmentation, deduplicate_runs,
  full_panel_runs,
}
use complytime_providers.Plan.Select.{PlanInput}

-- What the second pass gathers.
pub record Resolution : Type 0 where
  pub entries : List PlanEntry
  pub omissions : List Omission
  pub errors : List Text

abbrev run_entry : Text → ℕ → ResolvedRun → PlanEntry
run_entry agent sequence run = record {
  agent = agent;
  decision = if is_cons run.validation_errors then skip else include;
  reason_code = run_reason_text run.reason_code;
  reason = run.reason;
  source = run.source;
  sequence = sequence;
  read_only = true;
  tier = run.tier;
  model = run.model;
  variant = run.variant;
  validation_errors = run.validation_errors;
}

-- The entries of an agent's runs, numbered from `sequence`.
unfoldable pub run_entries : Text → ℕ → List ResolvedRun → List PlanEntry
unfolding run_reason_text
run_entries agent sequence [] = []
run_entries agent sequence (run ∷ runs) =
    run_entry agent sequence run ∷ run_entries agent (suc sequence) runs

run_errors : Text → ℕ → List ResolvedRun → List Text
unfolding decimal join txt
run_errors agent sequence [] = []
run_errors agent sequence (run ∷ runs) =
    (if is_cons run.validation_errors
      then (agent
          ++ txt " run "
          ++ decimal sequence
          ++ txt ": "
          ++ join (txt "; ") run.validation_errors)
        ∷ []
      else [])
    ++ run_errors agent (suc sequence) runs

module _ (input : PlanInput) (profile : ChangeProfile) (matrix : Matrix) where
  -- The messages on one agent's runs.
  unfoldable pub agent_errors : Text → List ResolvedRun → List Text
  unfolding limits_for curator_agent run_errors ◌==◌ decimal txt
  agent_errors agent runs =
      let most = (limits_for matrix).max_runs_per_persona in
      (if agent == curator_agent && ltb 1 (length runs)
        then txt "divisor-curator may have at most one assessment run" ∷ []
        else [])
      ++ (if ltb most (length runs)
          then (agent
              ++ txt " requires "
              ++ decimal (length runs)
              ++ txt " runs but max_runs_per_persona is "
              ++ decimal most)
            ∷ []
          else [])
      ++ run_errors agent 1 runs

  -- The runs of one agent and what was omitted from them.
  unfoldable pub agent_runs : Text → Result (List ResolvedRun × List Omission)
  unfolding full_panel_runs base_runs matrix_mode add_augmentation deduplicate_runs
  agent_runs agent = do
    initial ←
        if input.full
        then full_panel_runs matrix
        else base_runs matrix (matrix_mode input.mode) agent
    augmented ← add_augmentation matrix agent profile input.augment input.full initial
    ok (deduplicate_runs agent augmented)

  -- The second pass.
  unfoldable pub resolve_agents : List Text → Result Resolution
  unfolding agent_runs run_entries agent_errors
  resolve_agents [] = ok (record { entries = []; omissions = []; errors = [] })
  resolve_agents (agent ∷ agents) = do
    (runs, omitted) ← agent_runs agent
    rest ← resolve_agents agents
    ok (record {
      entries = run_entries agent 1 runs ++ rest.entries;
      omissions = omitted ++ rest.omissions;
      errors = agent_errors agent runs ++ rest.errors;
    })

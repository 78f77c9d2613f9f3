-- ===== src/Dispatch/Targets.antt =====
-- .opencode/plugins/review-dispatch/index.ts: what the two recovery tools share, the targets of a
-- recovery and the agents that it reports without a run.
use complytime_providers.Prelude.{
  ◌-◌, Text, txt, Bool, true, not, Option, none, some, List, [], ◌∷◌, length, filter, take, drop,
  if◌then◌else◌, includes, starts_with, ends_with,
}
use complytime_providers.Review.Consolidate.{PersistedRun}
use complytime_providers.Dispatch.Folder.{LoadedRun}

without_prefix : Text → Text
unfolding starts_with txt
without_prefix name = if starts_with name (txt "run-") then drop 4 name else name

without_suffix : Text → Text
unfolding ends_with txt
without_suffix name = if ends_with name (txt ".json") then take (length name - 5) name else name

-- `fileName.replace(/^run-|\.json$/g, "")`
unfoldable pub agent_from_run_file_name : Text → Text
unfolding without_prefix without_suffix
agent_from_run_file_name name = without_suffix (without_prefix name)

-- `filter` is the set of the agents, if the tool was given some.
unfoldable pub is_target : Option (List Text) → (PersistedRun → Bool) → LoadedRun → Bool
unfolding includes
is_target none in_scope entry = in_scope entry.run
is_target (some agents) in_scope entry = includes agents entry.run.agent

unfoldable pub resolve_recovery_targets :
    List LoadedRun → Option (List Text) → (PersistedRun → Bool) → List LoadedRun
unfolding is_target
resolve_recovery_targets runs agents in_scope = filter (is_target agents in_scope) runs

is_asked : Option (List Text) → Text → Bool
unfolding includes
is_asked none agent = true
is_asked (some agents) agent = includes agents agent

unfoldable pub scoped_unreadable_agents : List Text → Option (List Text) → List Text
unfolding agent_from_run_file_name is_asked
scoped_unreadable_agents [] agents = []
scoped_unreadable_agents (file ∷ files) agents =
    let agent = agent_from_run_file_name file in
    if is_asked agents agent
    then agent ∷ scoped_unreadable_agents files agents
    else scoped_unreadable_agents files agents

unfoldable pub missing_agent_names : Option (List Text) → List Text → List Text
unfolding includes
missing_agent_names none seen = []
missing_agent_names (some agents) seen = filter (λ agent. not (includes seen agent)) agents

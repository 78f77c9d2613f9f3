-- ===== src/Plan/Cap.antt =====
-- .opencode/plugins/review-dispatch/index.ts: `applyTierCap`.
pub mod Filling
use complytime_providers.Prelude.{
  ℕ, suc, ◌+◌, Text, txt, ◌==◌, Bool, true, false, not, ◌&&◌, ◌||◌, Option, none, some, List, [],
  ◌∷◌, ◌++◌, map, length, count, leb, ltb, nat_eq, if◌then◌else◌, includes, add, sort, Assoc, keys,
  values, decimal,
}
use complytime_providers.Review.Model.{Tier, tier_text, skip, host, PlanEntry}
use complytime_providers.Plan.Relevance.{
  Code, content_capability, test_review_scope, full_panel, always_required, curator_relevant,
  curator_pruned, scope_miss, scope_match,
}

-- The buckets of `TIER_CAP_PRIORITY`, in order, and "other" behind them.
abbrev pub bucket : Code → ℕ
bucket always_required = 0
bucket scope_match = 1
bucket curator_relevant = 2
bucket _ = 3

-- The agents of a bucket, in the order of the map.
unfoldable pub agents_in : ℕ → Assoc Code → List Text
agents_in b [] = []
agents_in b ((agent, code) ∷ m) =
    if nat_eq (bucket code) b then agent ∷ agents_in b m else agents_in b m

-- All agents, bucket by bucket, each bucket sorted.
unfoldable pub by_priority : Assoc Code → List Text
unfolding agents_in sort
by_priority m =
    sort (agents_in 0 m) ++ (sort (agents_in 1 m) ++ (sort (agents_in 2 m) ++ sort (agents_in 3 m)))

-- `if (keep.size < effectiveCap) keep.add(agent)` for each agent
unfoldable pub fill : ℕ → List Text → List Text → List Text
unfolding add
fill cap keep [] = keep
fill cap keep (agent ∷ agents) =
    fill cap (if ltb (length keep) cap then add keep agent else keep) agents

unfoldable pub cap_entry : ℕ → Tier → Text → PlanEntry
unfolding decimal tier_text txt
cap_entry cap tier agent = record {
  agent = agent;
  decision = skip;
  reason_code = txt "tier-cap";
  reason =
      txt "tier cap of " ++ decimal cap ++ txt " exceeded for " ++ tier_text tier ++ txt " tier";
  source = host;
  sequence = 1;
  read_only = true;
  tier = none;
  model = none;
  variant = none;
  validation_errors = [];
}

-- The entries for the agents that are not kept.
unfoldable pub skipped_beyond : ℕ → Tier → List Text → List Text → List PlanEntry
unfolding includes cap_entry
skipped_beyond cap tier keep [] = []
skipped_beyond cap tier keep (agent ∷ agents) =
    if includes keep agent
    then skipped_beyond cap tier keep agents
    else cap_entry cap tier agent ∷ skipped_beyond cap tier keep agents

abbrev pub is_required : Code → Bool
is_required code = nat_eq (bucket code) 0

abbrev pub larger : ℕ → ℕ → ℕ
larger a b = if ltb a b then b else a

-- The cap is never less than the number of required agents.
unfoldable pub effective_cap : Assoc Code → ℕ → ℕ
effective_cap selected cap = larger cap (count is_required (values selected))

unfoldable pub apply_tier_cap : Assoc Code → Tier → ℕ → List Text × List PlanEntry
unfolding effective_cap by_priority fill skipped_beyond
apply_tier_cap selected tier cap =
    let most = effective_cap selected cap in
    if leb (length selected) most
    then (keys selected, [])
    else (let keep = fill most [] (by_priority selected) in
        (keep, skipped_beyond most tier keep (by_priority selected)))

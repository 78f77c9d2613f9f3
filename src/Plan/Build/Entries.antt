-- ===== src/Plan/Build/Entries.antt =====
-- .opencode/plugins/review-dispatch/index.ts: the agents of the entries that a plan includes.
use complytime_providers.Prelude.{
  ℕ, suc, ◌≡◌, inl, inr, Text, ==-refl, true, List, [], ◌∷◌, ◌++◌, length, All, All-append, leb,
  includes, Assoc, Bool-cases, Option-cases, arith, ok, >>=-eq-ok,
}
use complytime_providers.Review.Model.{PlanEntry, is_include, Tier}
use complytime_providers.Plan.Policy.{Matrix, Reviewer}
use complytime_providers.Plan.Profiles.{ChangeProfile, profile_tier}
use complytime_providers.Plan.Relevance.{Code, relevance}
use complytime_providers.Plan.Cap.{
  fill, apply_tier_cap, skipped_beyond, cap_entry, by_priority, effective_cap,
}
use complytime_providers.Plan.Runs.{ResolvedRun}
use complytime_providers.Plan.Select.{
  PlanInput, Pass, by_agent, select_agent, select_agents, tier_cap, capped,
}
use complytime_providers.Prelude.{get}
use complytime_providers.Plan.Resolve.{Resolution, resolve_agents, agent_runs, run_entries}

module _ (input : PlanInput) (profile : ChangeProfile) (matrix : Matrix) (reviewers : List Reviewer)
    (P : Text → Type 0) where
  -- An entry that is included is for an agent with the property.
  abbrev pub IsFor : PlanEntry → Type 0
  IsFor e = is_include e.decision ≡ true → P e.agent

  select_agent-IsFor :
      (p : Pass) (agent : Text)
      → All IsFor p.entries
      → All IsFor (select_agent input profile matrix reviewers p agent).entries
  unfolding select_agent
  select_agent-IsFor p agent h = elim (Option-cases (get (by_agent [] reviewers) agent)) [
    | inl unknown ↦ rw (unknown, select_agent) h
    | inr (r, listed) ↦
        rw (listed, select_agent)
          (elim (Bool-cases (relevance r profile input.mode input.full).selected) [
            | inl chosen ↦ rw chosen h
            | inr left ↦ rw left (All-append IsFor p.entries _ h (λ i. cc, tt))
          ])
  ]

  pub select_agents-IsFor :
      (p : Pass) (agents : List Text)
      → All IsFor p.entries
      → All IsFor (select_agents input profile matrix reviewers p agents).entries
  unfolding select_agents
  select_agents-IsFor p [] h = h
  select_agents-IsFor p (a ∷ agents) h =
      select_agents-IsFor (select_agent input profile matrix reviewers p a) agents
        (select_agent-IsFor p a h)

  skipped-IsFor :
      (cap : ℕ) (tier : Tier) (keep agents : List Text)
      → All IsFor (skipped_beyond cap tier keep agents)
  unfolding skipped_beyond cap_entry
  skipped-IsFor cap tier keep [] = tt
  skipped-IsFor cap tier keep (a ∷ agents) = elim (Bool-cases (includes keep a)) [
    | inl kept ↦ rw kept (skipped-IsFor cap tier keep agents)
    | inr gone ↦ rw gone (λ h. cc, skipped-IsFor cap tier keep agents)
  ]

  pub beyond-IsFor :
      (selected : Assoc Code) → All IsFor (capped input profile matrix reviewers selected).1
  unfolding capped apply_tier_cap
  beyond-IsFor selected = elim (Option-cases (tier_cap input profile matrix reviewers)) [
    | inl uncapped ↦ rw (uncapped, capped) tt
    | inr (cap, capping) ↦
        let most = effective_cap selected cap in
        rw (capping, capped)
          (elim (Bool-cases (leb (length selected) most)) [
            | inl fits ↦ rw fits tt
            | inr over ↦ rw over (
                skipped-IsFor most (profile_tier profile) (fill most [] (by_priority selected))
                  (by_priority selected))
          ])
  ]

  run_entries-IsFor :
      (agent : Text) (sequence : ℕ) (runs : List ResolvedRun)
      → P agent
      → All IsFor (run_entries agent sequence runs)
  unfolding run_entries
  run_entries-IsFor agent sequence [] e = tt
  run_entries-IsFor agent sequence (r ∷ runs) e =
      (λ _. e, run_entries-IsFor agent (suc sequence) runs e)

  pub resolve_agents-IsFor :
      (agents : List Text) (r : Resolution)
      → ((agent : Text) → includes agents agent ≡ true → P agent)
      → resolve_agents input profile matrix agents ≡ ok r
      → All IsFor r.entries
  unfolding resolve_agents includes
  resolve_agents-IsFor [] r all_in h = let e : [] ≡ r.entries = cc h in rw (← e) tt
  resolve_agents-IsFor (a ∷ agents) r all_in h =
      let (own, found, more) = >>=-eq-ok (agent_runs input profile matrix a) _ h in
      let (rest, resolved, e) = >>=-eq-ok (resolve_agents input profile matrix agents) _ more in
      let entries : run_entries a 1 own.0 ++ rest.entries ≡ r.entries = cc e in
      rw (← entries) (
        All-append IsFor (run_entries a 1 own.0) rest.entries
          (run_entries-IsFor a 1 own.0 (all_in a (ground (arith, ==-refl a))))
          (resolve_agents-IsFor agents rest (λ b h'. all_in b (ground (arith, h'))) resolved))

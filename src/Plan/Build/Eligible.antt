-- ===== src/Plan/Build/Eligible.antt =====
-- .opencode/plugins/review-dispatch/index.ts: `relevance` and the entries of `buildPlan`.
use complytime_providers.Prelude.{
  ◌≡◌, sym, ◌∙◌, inl, inr, Text, ◌==◌, ==_iff, Bool, true, some, List, [], ◌∷◌, ◌++◌, All,
  All-append, includes, sort, Assoc, get, keys, Bool-cases, Option-cases, arith, includes-sort,
  IsUnique, keys-put-IsUnique, includes-keys-put, includes-occurs, ok,
}
use mathlib.Core.Path.{subst}
use complytime_providers.Review.Model.{PlanEntry, is_include}
use complytime_providers.Plan.Policy.{Matrix, Reviewer, review, CommandMode}
use complytime_providers.Plan.Profiles.{ChangeProfile, profile_tier}
use complytime_providers.Plan.Relevance.{Code, relevance, is_test_mode, testing_agent}
use complytime_providers.Plan.Cap.{apply_tier_cap}
use complytime_providers.Plan.Cap.Filling.{apply_tier_cap-occurs}
use complytime_providers.Plan.Select.{
  PlanInput, Pass, nothing_passed, by_agent, select_agent, select_agents, tier_cap, capped,
}
use complytime_providers.Plan.Build.{DispatchPlan, assemble, build_plan}
use complytime_providers.Plan.Build.Entries.{
  select_agents-IsFor, beyond-IsFor, resolve_agents-IsFor,
}
use complytime_providers.Plan.Build.Safety.{build_plan-eq-ok}

-- A reviewer that the relevance test selects can review, and in test mode is the testing agent.
pub relevance-selected :
    (r : Reviewer) (profile : ChangeProfile) (mode : CommandMode) (full : Bool)
    → (relevance r profile mode full).selected ≡ true
    → (r.capability ≡ review) × (is_test_mode mode ≡ true → r.agent ≡ testing_agent)
unfolding relevance
relevance-selected r profile mode full h =
    (ground arith, λ t. ground (arith, ==_iff r.agent testing_agent))

module _ (input : PlanInput) (profile : ChangeProfile) (matrix : Matrix)
    (reviewers : List Reviewer) where
  -- An agent of the discovered ones with a reviewer in the manifest that the relevance test selects.
  pub record IsEligible (agent : Text) : Type 0 where
    pub reviewer : Reviewer
    pub listed : get (by_agent [] reviewers) agent ≡ some reviewer
    pub selected : (relevance reviewer profile input.mode input.full).selected ≡ true

  -- An entry that is included is for an eligible agent.
  abbrev pub IsVetted : PlanEntry → Type 0
  IsVetted e = is_include e.decision ≡ true → IsEligible e.agent

  -- The invariant of the first pass.
  record PassOk (p : Pass) : Type 0 where
    eligible : (agent : Text) → includes (keys p.selected) agent ≡ true → IsEligible agent
    unique : IsUnique (keys p.selected)

  select_agent-PassOk :
      (p : Pass) (agent : Text)
      → PassOk p
      → PassOk (select_agent input profile matrix reviewers p agent)
  unfolding select_agent
  select_agent-PassOk p agent o = elim (Option-cases (get (by_agent [] reviewers) agent)) [
    | inl unknown ↦ rw (unknown, select_agent) (record { eligible = o.eligible; unique = o.unique })
    | inr (r, listed) ↦
        let s = relevance r profile input.mode input.full in
        rw (listed, select_agent)
          (elim (Bool-cases s.selected) [
            | inl chosen ↦ rw chosen (record {
              eligible = λ a h. elim (Bool-cases (agent == a)) [
                | inl same ↦
                    subst IsEligible ((==_iff agent a).0 same)
                      (record { reviewer = r; listed = listed; selected = chosen })
                | inr other ↦
                    o.eligible a (ground (arith, includes-keys-put p.selected agent a s.code))
              ];
              unique = keys-put-IsUnique p.selected agent s.code o.unique;
            })
            | inr left ↦ rw left (record { eligible = o.eligible; unique = o.unique })
          ])
  ]

  select_agents-PassOk :
      (p : Pass) (agents : List Text)
      → PassOk p
      → PassOk (select_agents input profile matrix reviewers p agents)
  unfolding select_agents
  select_agents-PassOk p [] o = o
  select_agents-PassOk p (a ∷ agents) o =
      select_agents-PassOk (select_agent input profile matrix reviewers p a) agents
        (select_agent-PassOk p a o)

  includes-capped :
      (selected : Assoc Code) (agent : Text)
      → IsUnique (keys selected)
      → includes (capped input profile matrix reviewers selected).0 agent ≡ true
      → includes (keys selected) agent ≡ true
  unfolding capped
  includes-capped selected agent u h =
      elim (Option-cases (tier_cap input profile matrix reviewers)) [
        | inl uncapped ↦ rw (uncapped, capped) at h
        | inr (cap, capping) ↦
            let kept = apply_tier_cap selected (profile_tier profile) cap in
            let h' : includes kept.0 agent ≡ true = rw (capping, capped) at h in
            ground (
              arith,
              h',
              includes-occurs kept.0 agent,
              includes-occurs (keys selected) agent,
              apply_tier_cap-occurs selected (profile_tier profile) cap u agent,
            )
      ]

  nothing_passed-PassOk : PassOk nothing_passed
  unfolding includes
  nothing_passed-PassOk = record { eligible = λ a h. cc; unique = tt }

  -- Every entry that a plan includes is for an agent that has a reviewer in the manifest which the
  -- relevance test selects for this change and command.
  pub build_plan-IsVetted :
      {plan : DispatchPlan}
      → build_plan input profile matrix reviewers ≡ ok plan
      → All IsVetted plan.entries
  unfolding assemble
  build_plan-IsVetted {plan} built =
      let (r, resolved, e) = build_plan-eq-ok input profile matrix reviewers built in
      let p =
        select_agents input profile matrix reviewers nothing_passed
          (sort input.discovered_agents) in
      let o =
        select_agents-PassOk nothing_passed (sort input.discovered_agents) nothing_passed-PassOk in
      let c = capped input profile matrix reviewers p.selected in
      let runs =
        resolve_agents-IsFor input profile matrix reviewers IsEligible (sort c.0) r
          (λ a h.
            o.eligible a (includes-capped p.selected a o.unique (sym (includes-sort c.0 a) ∙ h)))
          resolved in
      subst (λ (q : DispatchPlan). All IsVetted q.entries) e
        (All-append IsVetted (p.entries ++ c.1) r.entries
          (All-append IsVetted p.entries c.1
            (select_agents-IsFor input profile matrix reviewers IsEligible nothing_passed
              (sort input.discovered_agents) tt)
            (beyond-IsFor input profile matrix reviewers IsEligible p.selected))
          runs)

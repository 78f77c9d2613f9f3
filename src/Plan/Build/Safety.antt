-- ===== src/Plan/Build/Safety.antt =====
-- .opencode/plugins/review-dispatch/index.ts: the status of a plan of `buildPlan`.
use complytime_providers.Prelude.{
  ◌≤◌, ◌<◌, ◌≡◌, refl, sym, ap, ◌∙◌, Text, true, ◌||◌, none, List, [], ◌∷◌, ◌++◌, length, ltb, add,
  add_all, set_of, sort, arith, length-sort, ok, >>=-eq-ok,
}
use mathlib.Core.Path.{subst}
use complytime_providers.Review.Model.{PlanEntry, is_include}
use complytime_providers.Prelude.{
  map, filter, All, All-append, includes, includes-sort, includes-set_of, set_of-IsUnique,
  length-IsUnique, ==_iff, Bool,
}
use complytime_providers.Plan.Build.Entries.{
  IsFor, select_agents-IsFor, beyond-IsFor, resolve_agents-IsFor,
}
use complytime_providers.Review.Votes.{is_cons}
use complytime_providers.Plan.Policy.{Matrix, Reviewer, limits_for}
use complytime_providers.Plan.Profiles.{ChangeProfile}
use complytime_providers.Plan.Select.{PlanInput, Pass, nothing_passed, select_agents, capped}
use complytime_providers.Plan.Resolve.{Resolution, resolve_agents}
use complytime_providers.Plan.Build.{
  DispatchPlan, count_included, exceeds, panel_errors, assemble, build_plan,
}

is_cons_append : (xs ys : List Text) → is_cons (xs ++ ys) ≡ (is_cons xs || is_cons ys)
is_cons_append [] ys = refl
is_cons_append (x ∷ xs) ys = refl

is_cons-length : (xs : List Text) → is_cons xs ≡ ltb 0 (length xs)
is_cons-length [] = refl
is_cons-length (x ∷ xs) = ground arith

is_cons-add_all : (s xs : List Text) → is_cons (add_all s xs) ≡ (is_cons s || is_cons xs)
unfolding add_all add
is_cons-add_all s [] = ground arith
is_cons-add_all s (x ∷ xs) = ground (arith, is_cons-add_all (add s x) xs, is_cons_append s (x ∷ []))

is_cons-sort_set : (xs : List Text) → is_cons (sort (set_of xs)) ≡ is_cons xs
unfolding set_of
is_cons-sort_set xs =
    is_cons-length (sort (set_of xs))
    ∙ ap (ltb 0) (length-sort (set_of xs))
    ∙ sym (is_cons-length (set_of xs))
    ∙ is_cons-add_all [] xs

-- The agents of the entries that a plan includes, each once.
abbrev pub personas_of : List PlanEntry → List Text
personas_of entries =
    set_of
      (map (λ (e : PlanEntry). e.agent) (filter (λ (e : PlanEntry). is_include e.decision) entries))

includes-personas :
    (entries : List PlanEntry) (P : Text → Bool)
    → All (λ (e : PlanEntry). is_include e.decision ≡ true → P e.agent ≡ true) entries
    → (agent : Text)
    → includes
        (map
          (λ (e : PlanEntry). e.agent)
          (filter (λ (e : PlanEntry). is_include e.decision) entries))
        agent
      ≡ true
    → P agent ≡ true
unfolding includes
includes-personas [] P h agent k = absurd cc
includes-personas (e ∷ entries) P h agent k =
    ground (arith, h.0, includes-personas entries P h.1 agent, ==_iff e.agent agent)

-- What a plan that is ready is held to, by the limits of the matrix.
pub record IsReady (matrix : Matrix) (plan : DispatchPlan) : Type 0 where
  pub some_run : 0 < count_included plan.entries
  pub few_runs : count_included plan.entries ≤ (limits_for matrix).max_total_runs
  pub few_personas : length (personas_of plan.entries) ≤ (limits_for matrix).max_personas
  pub limited : plan.limits ≡ limits_for matrix
  pub in_limits : plan.limit_state ≡ none
  pub no_errors : plan.errors ≡ []

module _ (input : PlanInput) (profile : ChangeProfile) (matrix : Matrix)
    (reviewers : List Reviewer) where
  assemble-IsReady :
      (p : Pass) (c : List Text × List PlanEntry) (r : Resolution)
      → length (personas_of (p.entries ++ c.1 ++ r.entries)) ≤ length c.0
      → (assemble input profile matrix reviewers p c r).ready ≡ true
      → IsReady matrix (assemble input profile matrix reviewers p c r)
  unfolding assemble panel_errors exceeds
  assemble-IsReady p (kept, beyond) r few h =
      let limits = limits_for matrix in
      let runs = count_included (p.entries ++ beyond ++ r.entries) in
      let panel = panel_errors limits (length kept) runs in
      let errors = p.errors ++ r.errors ++ panel in
      ground (arith, few, is_cons-sort_set errors, is_cons_append (p.errors ++ r.errors) panel)

  abbrev first_pass : Pass
  first_pass =
      select_agents input profile matrix reviewers nothing_passed (sort input.discovered_agents)

  abbrev after_cap : List Text × List PlanEntry
  after_cap = capped input profile matrix reviewers first_pass.selected

  -- A plan is assembled from the two passes.
  pub build_plan-eq-ok :
      {plan : DispatchPlan}
      → build_plan input profile matrix reviewers ≡ ok plan
      → (r : Resolution) × (resolve_agents input profile matrix (sort after_cap.0) ≡ ok r)
        × (assemble input profile matrix reviewers first_pass after_cap r ≡ plan)
  unfolding build_plan
  build_plan-eq-ok {plan} built =
      let (r, resolved, same) =
        >>=-eq-ok (resolve_agents input profile matrix (sort after_cap.0))
          (λ r. ok (assemble input profile matrix reviewers first_pass after_cap r)) built in
      (r, resolved, cc same)

  -- The agents that a plan includes are among those that the cap has left.
  few_personas :
      (r : Resolution)
      → resolve_agents input profile matrix (sort after_cap.0) ≡ ok r
      → length (personas_of (first_pass.entries ++ after_cap.1 ++ r.entries)) ≤ length after_cap.0
  few_personas r resolved =
      let entries = first_pass.entries ++ after_cap.1 ++ r.entries in
      let P : Text → Bool = λ a. includes after_cap.0 a in
      let Holds : Text → Type 0 = λ a. P a ≡ true in
      let chosen =
        resolve_agents-IsFor input profile matrix reviewers Holds (sort after_cap.0) r
          (λ a h. sym (includes-sort after_cap.0 a) ∙ h) resolved in
      let all =
        All-append (IsFor input profile matrix reviewers Holds) (first_pass.entries ++ after_cap.1)
          r.entries
          (All-append (IsFor input profile matrix reviewers Holds) first_pass.entries after_cap.1
            (select_agents-IsFor input profile matrix reviewers Holds nothing_passed
              (sort input.discovered_agents) tt)
            (beyond-IsFor input profile matrix reviewers Holds first_pass.selected))
          chosen in
      length-IsUnique (personas_of entries) after_cap.0 (set_of-IsUnique _)
        (λ a h. includes-personas entries P all a (sym (includes-set_of _ a) ∙ h))

  -- A plan that is ready has a run to make, and includes at most as many runs and agents as the
  -- matrix allows; it gives the limits of the matrix, reports that none is exceeded, and carries no
  -- error.
  pub build_plan-IsReady :
      {plan : DispatchPlan}
      → build_plan input profile matrix reviewers ≡ ok plan
      → plan.ready ≡ true
      → IsReady matrix plan
  build_plan-IsReady {plan} built h =
      let (r, resolved, e) = build_plan-eq-ok built in
      subst (λ (q : DispatchPlan). q.ready ≡ true → IsReady matrix q) e
        (assemble-IsReady first_pass after_cap r (few_personas r resolved)) h

-- ===== src/Plan/Tests.antt =====
-- The theorems on the planner at a concrete matrix and manifest.
use complytime_providers.Prelude.{
  Runtime, text_leb, ◌+◌, ◌≡◌, refl, Text, txt, ◌==◌, true, false, none, some, List, [], ◌∷◌, All,
  includes, occurs, IsUnique, Assoc, keys, get, Result, ok,
}
use complytime_providers.Review.Model.{lightweight}
use complytime_providers.Plan.Policy.{plain, review, content, Reviewer, Matrix, PerMode, code_mode}
use complytime_providers.Plan.Profiles.Counts.{IsProfile, profile_diff-IsProfile}
use complytime_providers.Plan.Profiles.{
  ChangedFile, DiffProfile, profile_diff, ChangeProfile, of_diff,
}
use complytime_providers.Plan.Relevance.{
  Code, always_required, scope_match, adversary_agent, guard_agent,
}
use complytime_providers.Plan.Cap.{apply_tier_cap}
use complytime_providers.Plan.Cap.Filling.{
  entry_agents, apply_tier_cap-occurs, apply_tier_cap-keeps_required,
}
use complytime_providers.Plan.Select.{PlanInput}
use complytime_providers.Plan.Build.{DispatchPlan, failed_plan, build_plan}
use complytime_providers.Plan.Build.Safety.{IsReady, build_plan-IsReady}
use complytime_providers.Plan.Build.Eligible.{IsVetted, build_plan-IsVetted}

-- Four agents for two places, of which one is required.
abbrev four_agents : Assoc Code
four_agents =
    (txt "d", scope_match)
    ∷ (txt "c", scope_match)
    ∷ (txt "a", always_required)
    ∷ (txt "b", scope_match)
    ∷ []

four_agents-IsUnique : IsUnique (keys four_agents)
unfolding includes txt ◌==◌
four_agents-IsUnique = (refl, (refl, (refl, (refl, tt))))

apply_tier_cap-occurs_example :
    occurs (apply_tier_cap four_agents lightweight 2).0 (txt "d")
      + occurs (entry_agents (apply_tier_cap four_agents lightweight 2).1) (txt "d")
    ≡ 1
unfolding txt ◌==◌
apply_tier_cap-occurs_example =
    apply_tier_cap-occurs four_agents lightweight 2 four_agents-IsUnique (txt "d")

apply_tier_cap-keeps_required_example :
    includes (apply_tier_cap four_agents lightweight 0).0 (txt "a") ≡ true
unfolding get txt ◌==◌
apply_tier_cap-keeps_required_example =
    apply_tier_cap-keeps_required four_agents lightweight 0 four_agents-IsUnique (txt "a") refl

abbrev in_each {ℓ} : {A : Type ℓ} → A → PerMode A
in_each a = record { code = a; spec = a; triage = a; feedback = a }

abbrev bare_matrix : Matrix
bare_matrix = record {
  version = 1;
  profiles = (txt "standard", record { model = some (txt "p/m"); variant = none }) ∷ [];
  defaults = in_each (txt "standard");
  always = [];
  advisors = in_each (adversary_agent ∷ []);
  runs = in_each [];
  risk_augmentation = none;
  limits = none;
}

abbrev reviewer : Text → Reviewer
reviewer agent = record { agent = agent; capability = review; scopes = plain ∷ [] }

abbrev manifest : List Reviewer
manifest =
    reviewer adversary_agent
    ∷ reviewer guard_agent
    ∷ record { agent = txt "writer"; capability = content; scopes = [] }
    ∷ []

abbrev small_change : ChangeProfile
small_change = of_diff (record {
  lines = 10;
  files = 1;
  components = 1;
  security_sensitive = false;
  user_facing = false;
  categories = plain ∷ [];
  tier = lightweight;
})

abbrev code_input : PlanInput
code_input = record {
  mode = code_mode;
  discovered_agents = adversary_agent ∷ guard_agent ∷ txt "writer" ∷ [];
  full = false;
  augment = false;
}

abbrev the_plan : Result DispatchPlan → DispatchPlan
the_plan (ok plan) = plan
the_plan _ = failed_plan code_input small_change []

abbrev small_plan : DispatchPlan
small_plan = the_plan (build_plan code_input small_change bare_matrix manifest)

build_plan-IsReady_example : IsReady bare_matrix small_plan
unfolding build_plan txt ◌==◌
build_plan-IsReady_example =
    build_plan-IsReady code_input small_change bare_matrix manifest refl refl

build_plan-IsVetted_example :
    All (IsVetted code_input small_change bare_matrix manifest) small_plan.entries
unfolding build_plan txt ◌==◌
build_plan-IsVetted_example = build_plan-IsVetted code_input small_change bare_matrix manifest refl

-- A runtime whose texts are in lower case and composed already.
abbrev js : Runtime
js = record {
  lower = λ s. s;
  nfc = λ s. s;
  locale_leb = text_leb;
  date_parse = λ _. none;
  stringify = λ s. s;
}

abbrev two_files : List ChangedFile
two_files =
    record { path = txt "cmd/main.go"; additions = 40; deletions = 11 }
    ∷ record { path = txt "docs/use.md"; additions = 2; deletions = 0 }
    ∷ []

abbrev the_profile : Result DiffProfile → DiffProfile
the_profile (ok p) = p
the_profile _ = record {
  lines = 0;
  files = 0;
  components = 0;
  security_sensitive = false;
  user_facing = false;
  categories = [];
  tier = lightweight;
}

profile_diff-IsProfile_example : IsProfile js two_files (the_profile (profile_diff js two_files))
unfolding profile_diff txt ◌==◌ includes
profile_diff-IsProfile_example = profile_diff-IsProfile js two_files refl

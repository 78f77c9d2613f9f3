-- ===== src/Plan/Relevance.antt =====
-- .opencode/plugins/review-dispatch/index.ts: `relevance`.
use complytime_providers.Prelude.{
  Text, txt, ◌==◌, Bool, true, false, ◌||◌, none, some, ◌++◌, find, if◌then◌else◌,
}
use complytime_providers.Plan.Policy.{
  documentation, has_category, category_text, Capability, review, content, Reviewer, CommandMode,
  test_mode,
}
use complytime_providers.Plan.Profiles.{ChangeProfile, profile_categories, is_user_facing}

-- The codes of the reasons for which an agent is selected or left out.
pub data Code : Type 0 where
  content_capability test_review_scope full_panel always_required : Code
  curator_relevant curator_pruned scope_miss scope_match : Code

unfoldable pub code_text : Code → Text
unfolding txt
code_text content_capability = txt "content-capability"
code_text test_review_scope = txt "test-review-scope"
code_text full_panel = txt "full-panel"
code_text always_required = txt "always-required"
code_text curator_relevant = txt "curator-relevant"
code_text curator_pruned = txt "curator-pruned"
code_text scope_miss = txt "scope-miss"
code_text scope_match = txt "scope-match"

pub record Selection : Type 0 where
  pub selected : Bool
  pub code : Code
  pub reason : Text

abbrev taken : Code → Text → Selection
taken code reason = record { selected = true; code = code; reason = reason }

abbrev left_out : Code → Text → Selection
left_out code reason = record { selected = false; code = code; reason = reason }

abbrev is_content : Capability → Bool
is_content content = true
is_content review = false

abbrev pub is_test_mode : CommandMode → Bool
is_test_mode test_mode = true
is_test_mode _ = false

-- The agents that the planner names.
unfoldable pub testing_agent : Text
unfolding txt
testing_agent = txt "divisor-testing"

unfoldable pub adversary_agent : Text
unfolding txt
adversary_agent = txt "divisor-adversary"

unfoldable pub guard_agent : Text
unfolding txt
guard_agent = txt "divisor-guard"

unfoldable pub curator_agent : Text
unfolding txt
curator_agent = txt "divisor-curator"

unfoldable pub architect_agent : Text
unfolding txt
architect_agent = txt "divisor-architect"

unfoldable pub relevance : Reviewer → ChangeProfile → CommandMode → Bool → Selection
unfolding ◌==◌ txt category_text testing_agent adversary_agent guard_agent curator_agent
relevance reviewer profile mode full =
    if is_content reviewer.capability
    then left_out content_capability (txt "content personas do not assess reviews")
    else if is_test_mode mode
    then (if reviewer.agent == testing_agent
        then taken test_review_scope (txt "test review is restricted to divisor-testing")
        else left_out test_review_scope (txt "outside the testing-only review scope"))
    else if full
    then taken full_panel (txt "full panel includes each review-capable persona")
    else if reviewer.agent == adversary_agent || reviewer.agent == guard_agent
    then taken always_required (txt "required baseline reviewer")
    else if reviewer.agent == curator_agent
    then (if has_category (profile_categories profile) documentation || is_user_facing profile
        then taken curator_relevant (txt "documentation or user-facing change")
        else left_out curator_pruned (txt "no documentation or user-facing change"))
    else elim (find (has_category (profile_categories profile)) reviewer.scopes) [
      | none ↦ left_out scope_miss (txt "reviewer scopes do not intersect change categories")
      | some scope ↦ taken scope_match (txt "matched " ++ category_text scope ++ txt " scope")
    ]

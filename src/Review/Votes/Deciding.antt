-- ===== src/Review/Votes/Deciding.antt =====
-- .opencode/plugins/review-dispatch/index.ts: `calculatedWorkflowValue`, in terms of the runs alone.
use complytime_providers.Prelude.{
  ◌≡◌, refl, Bool, true, false, ◌||◌, List, [], ◌∷◌, any, if◌then◌else◌, Assoc, values, arith,
}
use complytime_providers.Review.Model.{
  Verdict, approve, approve_with_advisories, request_changes, accept, author_decides, is_verdict,
  Kind, council, triage, feedback, test_review, Run, Advisory,
}
use complytime_providers.Review.Votes.{
  is_cons, no_success_result, group_votes, persona_vote, map_values, successful_persona_votes,
  decide_votes, calculated_workflow_value,
}
use complytime_providers.Review.Votes.Grouping.{
  votes_so, has_vote, any_value, any_value-group_votes, is_cons-votes,
}

-- The kinds whose verdicts are those of the severity ladder.
abbrev pub is_ladder : Kind → Bool
is_ladder council = true
is_ladder test_review = true
is_ladder _ = false

-- A run that requests changes blocks; else a run with advisories, or an advisory, is reported.
abbrev pub ladder_of_runs : List Run → List Advisory → Verdict
ladder_of_runs runs advisories =
    if any has_vote runs
    then if any (votes_so (is_verdict request_changes)) runs
      then request_changes
      else if any (votes_so (is_verdict approve_with_advisories)) runs || is_cons advisories
      then approve_with_advisories
      else approve
    else no_success_result runs

-- One run that accepts is enough.
abbrev pub feedback_of_runs : List Run → Verdict
feedback_of_runs runs =
    if any has_vote runs
    then if any (votes_so (is_verdict accept)) runs then accept else author_decides
    else no_success_result runs

abbrev votes_of : Kind → Assoc (List Verdict) → List Verdict
votes_of kind m = values (map_values (persona_vote kind) m)

any-blocking :
    (kind : Kind) (m : Assoc (List Verdict))
    → is_ladder kind ≡ true
    → any (is_verdict request_changes) (votes_of kind m) ≡ any_value (is_verdict request_changes) m
unfolding map_values persona_vote any_value
any-blocking kind [] h = refl
any-blocking council ((k, vs) ∷ m) h = ground (arith, any-blocking council m refl)
any-blocking test_review ((k, vs) ∷ m) h = ground (arith, any-blocking test_review m refl)
any-blocking triage _ h = cc
any-blocking feedback _ h = cc

any-advising :
    (kind : Kind) (m : Assoc (List Verdict))
    → is_ladder kind ≡ true
    → any_value (is_verdict request_changes) m ≡ false
    → any (is_verdict approve_with_advisories) (votes_of kind m)
      ≡ any_value (is_verdict approve_with_advisories) m
unfolding map_values persona_vote any_value
any-advising kind [] h free = refl
any-advising council ((k, vs) ∷ m) h free = ground (arith, any-advising council m refl)
any-advising test_review ((k, vs) ∷ m) h free = ground (arith, any-advising test_review m refl)
any-advising triage _ h free = cc
any-advising feedback _ h free = cc

any-accepting :
    (m : Assoc (List Verdict))
    → any (is_verdict accept) (votes_of feedback m) ≡ any_value (is_verdict accept) m
unfolding map_values persona_vote any_value
any-accepting [] = refl
any-accepting ((k, vs) ∷ m) = ground (arith, any-accepting m)

decide_ladder :
    (kind : Kind) (runs : List Run) (advised : Bool)
    → is_ladder kind ≡ true
    → decide_votes kind advised (values (successful_persona_votes kind runs)) ≡ (
        if any (votes_so (is_verdict request_changes)) runs
        then request_changes
        else if any (votes_so (is_verdict approve_with_advisories)) runs || advised
        then approve_with_advisories
        else approve)
unfolding decide_votes successful_persona_votes any_value
decide_ladder council runs advised h = ground (
  arith,
  any-blocking council (group_votes [] runs) refl,
  any-advising council (group_votes [] runs) refl,
  any_value-group_votes (is_verdict request_changes) [] runs,
  any_value-group_votes (is_verdict approve_with_advisories) [] runs,
)
decide_ladder test_review runs advised h = ground (
  arith,
  any-blocking test_review (group_votes [] runs) refl,
  any-advising test_review (group_votes [] runs) refl,
  any_value-group_votes (is_verdict request_changes) [] runs,
  any_value-group_votes (is_verdict approve_with_advisories) [] runs,
)
decide_ladder triage runs advised h = cc
decide_ladder feedback runs advised h = cc

-- For a council and for a test review the value does not depend on the grouping by persona: if some
-- run voted, it is REQUEST CHANGES if one run voted so, else APPROVE WITH ADVISORIES if one run
-- voted so or there is an advisory, else APPROVE; if none voted, it is the result for no success.
pub calculated_workflow_value-ladder :
    (kind : Kind) (runs : List Run) (advisories : List Advisory)
    → is_ladder kind ≡ true
    → calculated_workflow_value kind runs advisories ≡ ladder_of_runs runs advisories
unfolding calculated_workflow_value
calculated_workflow_value-ladder kind runs advisories h =
    rw (is_cons-votes, decide_ladder kind runs (is_cons advisories) h)

-- For feedback the value is ACCEPT exactly if some successful run accepts, and AUTHOR-DECIDES if
-- runs voted and none accepts; without a vote it is the result for no success.
calculated_workflow_value-feedback :
    (runs : List Run) (advisories : List Advisory)
    → calculated_workflow_value feedback runs advisories ≡ feedback_of_runs runs
unfolding calculated_workflow_value decide_votes
calculated_workflow_value-feedback runs advisories = rw is_cons-votes (
    unfold successful_persona_votes any_value in
    ground (
      arith,
      any-accepting (group_votes [] runs),
      any_value-group_votes (is_verdict accept) [] runs,
    ))

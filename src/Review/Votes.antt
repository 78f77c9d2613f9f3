-- ===== src/Review/Votes.antt =====
-- .opencode/plugins/review-dispatch/index.ts: from the verdicts of the runs to the workflow value,
-- and its projections.
pub mod Grouping
pub mod Deciding
pub mod Majority
pub mod Neutral
use complytime_providers.Prelude.{
  ℕ, ◌+◌, ◌*◌, Text, txt, ◌==◌, Bool, true, false, not, ◌&&◌, ◌||◌, Option, none, some, List, [],
  ◌∷◌, ◌++◌, map, length, any, all, count, ltb, nat_eq, if◌then◌else◌, is_some, or_else, includes,
  split, contains, Assoc, get, put, values,
}
use complytime_providers.Review.Model.{
  Verdict, approve, approve_with_advisories, request_changes, valid, invalid, needs_clarification,
  accept, author_decides, inconclusive, unavailable, is_verdict, Kind, council, triage, feedback,
  test_review, Status, success, failed, cancelled, is_status, RunError, Run, Advisory,
}

unfoldable pub tally : Verdict → List Verdict → ℕ
tally v values = count (is_verdict v) values

unfoldable pub triage_majority : List Verdict → Verdict
unfolding tally
triage_majority values =
    let clarification = tally needs_clarification values in
    let valids = tally valid values in
    let invalids = tally invalid values in
    if ltb (length values) (2 * clarification)
    then needs_clarification
    else if nat_eq valids invalids
    then needs_clarification
    else if ltb invalids valids
    then valid
    else invalid

-- The codes that blame the availability of a provider, a model or the runtime.
unfoldable pub availability_error : Text → Bool
unfolding split contains txt ◌==◌ includes
availability_error code =
    let parts = split b'_' code in
    any (includes (txt "provider" ∷ txt "model" ∷ txt "runtime" ∷ [])) parts
    && (any
          (includes
            (txt "unavailable" ∷ txt "availability" ∷ txt "timeout" ∷ txt "unsupported" ∷ []))
          parts
        || contains code (txt "_not_found"))

abbrev pub is_availability_failure : Run → Bool
is_availability_failure run =
    (is_status run.status failed || is_status run.status cancelled)
    && elim run.error [ none ↦ false | some e ↦ availability_error e.code ]

unfoldable pub no_success_result : List Run → Verdict
no_success_result [] = inconclusive
no_success_result (r ∷ rs) =
    if all is_availability_failure (r ∷ rs) then unavailable else inconclusive

-- The verdict with which a run votes: none unless the run succeeded.
unfoldable pub vote_of : Run → Option Verdict
vote_of run = if is_status run.status success then run.workflow_verdict else none

-- The loop that groups the verdicts by agent.
unfoldable pub group_votes : Assoc (List Verdict) → List Run → Assoc (List Verdict)
group_votes by_agent [] = by_agent
group_votes by_agent (run ∷ runs) =
    group_votes
      (elim (vote_of run) [
        | none ↦ by_agent
        | some v ↦ put by_agent run.agent (or_else (get by_agent run.agent) [] ++ v ∷ [])
      ])
      runs

unfoldable pub persona_vote : Kind → List Verdict → Verdict
unfolding triage_majority
persona_vote triage vs = triage_majority vs
persona_vote feedback vs = if any (is_verdict accept) vs then accept else author_decides
persona_vote _ vs =
    if any (is_verdict request_changes) vs
    then request_changes
    else if any (is_verdict approve_with_advisories) vs
    then approve_with_advisories
    else approve

unfoldable pub map_values {ℓ κ} : {A : Type ℓ} {B : Type κ} → (A → B) → Assoc A → Assoc B
map_values f [] = []
map_values f ((k, a) ∷ m) = (k, f a) ∷ map_values f m

unfoldable pub successful_persona_votes : Kind → List Run → Assoc Verdict
unfolding group_votes persona_vote map_values vote_of
successful_persona_votes kind runs = map_values (persona_vote kind) (group_votes [] runs)

-- The value that the votes decide, `has_advisories` being `advisories.length > 0`.
unfoldable pub decide_votes : Kind → Bool → List Verdict → Verdict
unfolding triage_majority
decide_votes triage has_advisories votes = triage_majority votes
decide_votes feedback has_advisories votes =
    if any (is_verdict accept) votes then accept else author_decides
decide_votes _ has_advisories votes =
    if any (is_verdict request_changes) votes
    then request_changes
    else if any (is_verdict approve_with_advisories) votes || has_advisories
    then approve_with_advisories
    else approve

abbrev pub is_cons {ℓ} : {A : Type ℓ} → List A → Bool
is_cons [] = false
is_cons (x ∷ xs) = true

unfoldable pub calculated_workflow_value : Kind → List Run → List Advisory → Verdict
unfolding successful_persona_votes no_success_result decide_votes
calculated_workflow_value kind runs advisories =
    let votes = values (successful_persona_votes kind runs) in
    if is_cons votes then decide_votes kind (is_cons advisories) votes else no_success_result runs

unfoldable pub project_native_value : Verdict → Verdict
project_native_value valid = approve
project_native_value accept = approve
project_native_value invalid = request_changes
project_native_value needs_clarification = approve_with_advisories
project_native_value author_decides = approve_with_advisories
project_native_value v = v

pub data CouncilDecision : Type 0 where
  approved escalated changes_requested : CouncilDecision
  undecided : Verdict → CouncilDecision

unfoldable pub canonical_decision : Verdict → CouncilDecision
canonical_decision approve = approved
canonical_decision approve_with_advisories = escalated
canonical_decision request_changes = changes_requested
canonical_decision v = undecided v

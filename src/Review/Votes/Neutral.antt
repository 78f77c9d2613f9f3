-- ===== src/Review/Votes/Neutral.antt =====
-- .opencode/plugins/review-dispatch/index.ts: `calculatedWorkflowValue` of a triage, under an exchange
-- of VALID and INVALID.
use complytime_providers.Prelude.{
  ◌≡◌, refl, sym, ap, ◌∙◌, inl, inr, Text, Option, none, some, List, [], ◌∷◌, ◌++◌, map, all,
  or_else, Assoc, get, put, values, Option-cases, arith,
}
use complytime_providers.Review.Model.{Verdict, triage, Run, Advisory}
use complytime_providers.Review.Votes.{
  is_cons, is_availability_failure, no_success_result, vote_of, group_votes, persona_vote,
  map_values, successful_persona_votes, decide_votes, calculated_workflow_value,
}
use complytime_providers.Review.Votes.Majority.{opposite, triage_majority-opposite}

abbrev opposite_vote : Option Verdict → Option Verdict
opposite_vote none = none
opposite_vote (some v) = some (opposite v)

-- A run with the opposite verdict.
abbrev pub opposite_run : Run → Run
opposite_run r = record r { workflow_verdict = opposite_vote r.workflow_verdict }

vote_of-opposite_run : (r : Run) → vote_of (opposite_run r) ≡ opposite_vote (vote_of r)
unfolding vote_of
vote_of-opposite_run r = ground arith

map-append_one :
    (vs : List Verdict) (v : Verdict)
    → map opposite (vs ++ v ∷ []) ≡ map opposite vs ++ opposite v ∷ []
map-append_one [] v = refl
map-append_one (w ∷ vs) v = cc (map-append_one vs v)

abbrev opposites : Assoc (List Verdict) → Assoc (List Verdict)
opposites m = map_values (map opposite) m

get-opposites :
    (m : Assoc (List Verdict)) (k : Text)
    → or_else (get (opposites m) k) [] ≡ map opposite (or_else (get m k) [])
unfolding map_values get
get-opposites [] k = refl
get-opposites ((j, vs) ∷ m) k = ground (arith, get-opposites m k)

put-opposites :
    (m : Assoc (List Verdict)) (k : Text) (vs : List Verdict)
    → put (opposites m) k (map opposite vs) ≡ opposites (put m k vs)
unfolding map_values put
put-opposites [] k vs = refl
put-opposites ((j, ws) ∷ m) k vs = ground (arith, put-opposites m k vs)

group_votes-opposites :
    (m : Assoc (List Verdict)) (runs : List Run)
    → group_votes (opposites m) (map opposite_run runs) ≡ opposites (group_votes m runs)
unfolding group_votes
group_votes-opposites m [] = refl
group_votes-opposites m (r ∷ rs) = elim (Option-cases (vote_of r)) [
  | inl silent ↦
      let silent' : vote_of (opposite_run r) ≡ none =
        vote_of-opposite_run r ∙ ap opposite_vote silent in
      rw (silent, silent', group_votes) (group_votes-opposites m rs)
  | inr (v, voted) ↦
      let voted' : vote_of (opposite_run r) ≡ some (opposite v) =
        vote_of-opposite_run r ∙ ap opposite_vote voted in
      let vs = or_else (get m r.agent) [] in
      let step : put (opposites m) r.agent
            (or_else (get (opposites m) r.agent) [] ++ opposite v ∷ [])
          ≡ opposites (put m r.agent (vs ++ v ∷ [])) =
        ap (put (opposites m) r.agent) (
          ap (λ (us : List Verdict). us ++ opposite v ∷ []) (get-opposites m r.agent)
          ∙ sym (map-append_one vs v))
        ∙ put-opposites m r.agent (vs ++ v ∷ []) in
      rw (voted, voted', group_votes)
        (ap (λ (q : Assoc (List Verdict)). group_votes q (map opposite_run rs)) step
          ∙ group_votes-opposites (put m r.agent (vs ++ v ∷ [])) rs)
]

persona_votes-opposites :
    (m : Assoc (List Verdict))
    → values (map_values (persona_vote triage) (opposites m))
      ≡ map opposite (values (map_values (persona_vote triage) m))
unfolding map_values persona_vote
persona_votes-opposites [] = refl
persona_votes-opposites ((k, vs) ∷ m) = cc (triage_majority-opposite vs, persona_votes-opposites m)

all-opposite_run :
    (runs : List Run)
    → all is_availability_failure (map opposite_run runs) ≡ all is_availability_failure runs
all-opposite_run [] = refl
all-opposite_run (r ∷ rs) = ground (arith, all-opposite_run rs)

no_success_result-opposite :
    (runs : List Run)
    → no_success_result (map opposite_run runs) ≡ opposite (no_success_result runs)
unfolding no_success_result
no_success_result-opposite [] = refl
no_success_result-opposite (r ∷ rs) = ground (arith, all-opposite_run (r ∷ rs))

is_cons-map : (vs : List Verdict) → is_cons (map opposite vs) ≡ is_cons vs
is_cons-map [] = refl
is_cons-map (v ∷ vs) = refl

-- A triage treats VALID and INVALID alike: if every run gives the opposite verdict, the workflow value
-- is the opposite one.
pub calculated_workflow_value-opposite :
    (runs : List Run) (advisories : List Advisory)
    → calculated_workflow_value triage (map opposite_run runs) advisories
      ≡ opposite (calculated_workflow_value triage runs advisories)
unfolding calculated_workflow_value successful_persona_votes decide_votes map_values
calculated_workflow_value-opposite runs advisories =
    let groups = group_votes [] runs in
    let votes = values (map_values (persona_vote triage) groups) in
    ground (
      arith,
      group_votes-opposites [] runs,
      persona_votes-opposites groups,
      is_cons-map votes,
      triage_majority-opposite votes,
      no_success_result-opposite runs,
    )

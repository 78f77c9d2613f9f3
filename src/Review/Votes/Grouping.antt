-- ===== src/Review/Votes/Grouping.antt =====
-- .opencode/plugins/review-dispatch/index.ts: `successfulPersonaVotes`, its grouping by agent.
use complytime_providers.Prelude.{
  ◌≡◌, refl, ◌∙◌, inl, inr, Text, ◌==◌, Bool, true, false, ◌||◌, none, some, List, [], ◌∷◌, ◌++◌,
  any, is_some, or_else, Assoc, get, put, values, Bool-cases, Option-cases, arith, any-append,
}
use complytime_providers.Review.Model.{Verdict, Kind, Run}
use complytime_providers.Review.Votes.{
  is_cons, vote_of, group_votes, persona_vote, map_values, successful_persona_votes,
}

-- `p` holds of the verdict with which the run votes.
abbrev pub votes_so : (Verdict → Bool) → Run → Bool
votes_so p run = elim (vote_of run) [ none ↦ false | some v ↦ p v ]

abbrev pub has_vote : Run → Bool
has_vote run = is_some (vote_of run)

-- Some list of the map holds an element with `p`.
unfoldable pub any_value : (Verdict → Bool) → Assoc (List Verdict) → Bool
any_value p m = any (any p) (values m)

any_value-put :
    (p : Verdict → Bool) (m : Assoc (List Verdict)) (k : Text) (v : Verdict)
    → any_value p (put m k (or_else (get m k) [] ++ v ∷ [])) ≡ (any_value p m || p v)
unfolding any_value put get
any_value-put p [] k v = ground arith
any_value-put p ((j, vs) ∷ m) k v = elim (Bool-cases (j == k)) [
  | inl same ↦ rw same (ground (arith, any-append p vs (v ∷ [])))
  | inr other ↦ rw other (ground (arith, any_value-put p m k v))
]

pub any_value-group_votes :
    (p : Verdict → Bool) (m : Assoc (List Verdict)) (runs : List Run)
    → any_value p (group_votes m runs) ≡ (any_value p m || any (votes_so p) runs)
unfolding group_votes
any_value-group_votes p m [] = ground arith
any_value-group_votes p m (r ∷ runs) = elim (Option-cases (vote_of r)) [
  | inl absent ↦ rw absent (ground (arith, any_value-group_votes p m runs))
  | inr (v, given) ↦ rw given (
      ground (
        arith,
        any_value-group_votes p (put m r.agent (or_else (get m r.agent) [] ++ v ∷ [])) runs,
        any_value-put p m r.agent v,
      ))
]

is_cons-put {ℓ} : {V : Type ℓ} (m : Assoc V) (k : Text) (v : V) → is_cons (put m k v) ≡ true
unfolding put
is_cons-put [] k v = refl
is_cons-put ((j, w) ∷ m) k v = ground arith

is_cons-group_votes :
    (m : Assoc (List Verdict)) (runs : List Run)
    → is_cons (group_votes m runs) ≡ (is_cons m || any has_vote runs)
unfolding group_votes
is_cons-group_votes m [] = ground arith
is_cons-group_votes m (r ∷ runs) = elim (Option-cases (vote_of r)) [
  | inl absent ↦ rw absent (is_cons-group_votes m runs)
  | inr (v, given) ↦
      let vs = or_else (get m r.agent) [] ++ v ∷ [] in
      rw given
        (ground (arith, is_cons-group_votes (put m r.agent vs) runs, is_cons-put m r.agent vs))
]

is_cons-values {ℓ} : {V : Type ℓ} (m : Assoc V) → is_cons (values m) ≡ is_cons m
is_cons-values [] = refl
is_cons-values ((k, v) ∷ m) = refl

is_cons-map_values {ℓ κ} :
    {A : Type ℓ} {B : Type κ} (f : A → B) (m : Assoc A) → is_cons (map_values f m) ≡ is_cons m
unfolding map_values
is_cons-map_values f [] = refl
is_cons-map_values f ((k, a) ∷ m) = refl

-- There is a vote exactly if some run voted.
pub is_cons-votes :
    (kind : Kind) (runs : List Run)
    → is_cons (values (successful_persona_votes kind runs)) ≡ any has_vote runs
unfolding successful_persona_votes
is_cons-votes kind runs =
    is_cons-values (map_values (persona_vote kind) (group_votes [] runs))
    ∙ is_cons-map_values (persona_vote kind) (group_votes [] runs)
    ∙ is_cons-group_votes [] runs

-- ===== src/Plan/Runs/Distinct.antt =====
-- .opencode/plugins/review-dispatch/index.ts: `deduplicateRuns`.
use complytime_providers.Prelude.{
  ℕ, ◌+◌, ◌≡◌, refl, inl, inr, Text, ==_iff, Bool, true, false, not, ◌&&◌, none, some, List, [],
  ◌∷◌, map, filter, is_none, includes, add, Option-cases, arith, includes-add, IsUnique, occurs,
  includes-occurs, IsUnique-of_occurs,
}
use complytime_providers.Plan.Runs.{
  ResolvedRun, Omission, run_key, deduplicate_from, deduplicate_runs,
}

-- The keys of the runs that name a model.
abbrev model_keys : List ResolvedRun → List Text
model_keys [] = []
model_keys (r ∷ rs) = elim r.model [
  | none ↦ model_keys rs
  | some model ↦ run_key model r.variant ∷ model_keys rs
]

abbrev omission_keys : List Omission → List Text
omission_keys os = map (λ (o : Omission). run_key o.model o.variant) os

-- The runs that inherit a model.
abbrev pub inherited : List ResolvedRun → List ResolvedRun
inherited rs = filter (λ (r : ResolvedRun). is_none r.model) rs

abbrev once : Bool → ℕ
once true = 1
once false = 0

-- A key is kept once, if it was given and not seen before.
occurs-deduplicate_from :
    (agent : Text) (seen : List Text) (runs : List ResolvedRun) (key : Text)
    → occurs (model_keys (deduplicate_from agent seen runs).0) key
      ≡ once (includes (model_keys runs) key && not (includes seen key))
unfolding deduplicate_from includes
occurs-deduplicate_from agent seen [] key = refl
occurs-deduplicate_from agent seen (r ∷ runs) key = elim (Option-cases r.model) [
  | inl host ↦ ground (arith, occurs-deduplicate_from agent seen runs key)
  | inr (model, named) ↦
      let k = run_key model r.variant in
      ground (
        arith,
        occurs-deduplicate_from agent seen runs key,
        occurs-deduplicate_from agent (add seen k) runs key,
        includes-add seen k key,
        ==_iff k key,
      )
]

-- No model is run twice with one variant.
deduplicate_runs-IsUnique :
    (agent : Text) (runs : List ResolvedRun) → IsUnique (model_keys (deduplicate_runs agent runs).0)
unfolding deduplicate_runs
deduplicate_runs-IsUnique agent runs =
    IsUnique-of_occurs (model_keys (deduplicate_from agent [] runs).0)
      λ key. ground (arith, occurs-deduplicate_from agent [] runs key)

-- The models that are run, with their variants, are those that were asked for.
includes-deduplicate_runs :
    (agent : Text) (runs : List ResolvedRun) (key : Text)
    → includes (model_keys (deduplicate_runs agent runs).0) key ≡ includes (model_keys runs) key
unfolding deduplicate_runs includes
includes-deduplicate_runs agent runs key = ground (
  arith,
  occurs-deduplicate_from agent [] runs key,
  includes-occurs (model_keys (deduplicate_from agent [] runs).0) key,
)

omitted-deduplicate_from :
    (agent : Text) (seen : List Text) (runs : List ResolvedRun) (key : Text)
    → occurs (model_keys (deduplicate_from agent seen runs).0) key
        + occurs (omission_keys (deduplicate_from agent seen runs).1) key
      ≡ occurs (model_keys runs) key
unfolding deduplicate_from
omitted-deduplicate_from agent seen [] key = refl
omitted-deduplicate_from agent seen (r ∷ runs) key = elim (Option-cases r.model) [
  | inl host ↦ ground (arith, omitted-deduplicate_from agent seen runs key)
  | inr (model, named) ↦ ground (
    arith,
    omitted-deduplicate_from agent seen runs key,
    omitted-deduplicate_from agent (add seen (run_key model r.variant)) runs key,
  )
]

-- Every run with a model is either kept or reported as an omission.
occurs-deduplicate_runs :
    (agent : Text) (runs : List ResolvedRun) (key : Text)
    → occurs (model_keys (deduplicate_runs agent runs).0) key
        + occurs (omission_keys (deduplicate_runs agent runs).1) key
      ≡ occurs (model_keys runs) key
unfolding deduplicate_runs
occurs-deduplicate_runs agent runs key = omitted-deduplicate_from agent [] runs key

-- ===== src/Review/Consolidate/Rejected.antt =====
-- .opencode/plugins/review-dispatch/index.ts: `deduplicateFindings` under `validateFindings`.
use complytime_providers.Prelude.{
  ◌≡◌, refl, Text, ◌==◌, ==_iff, true, false, ◌||◌, List, [], ◌∷◌, ◌++◌, includes, add, set_of,
  Assoc, get, put, Runtime, arith,
}
use complytime_providers.Review.Model.{success, Finding, Consolidated}
use complytime_providers.Review.Votes.{is_cons}
use complytime_providers.Review.Consolidate.{
  PersistedRun, group_key, deduplicate_findings, success_runs, Metadata, consolidate,
}
use complytime_providers.Review.Validate.Keys.{finding_key}
use complytime_providers.Review.Validate.OfFindings.{
  successful_ids, contributors, check_findings, validate_findings,
}

-- The two findings as they stand after deduplication, the only reports of one successful run.
abbrev alone : Text → Finding → Consolidated
alone id f = record { finding = f; run_ids = id ∷ [] }

module _ (js : Runtime) (f g : Finding) (apart : (group_key js f == group_key js g) ≡ false) where
  deduplicate_two :
      (run : PersistedRun)
      → run.findings ≡ f ∷ g ∷ []
      → deduplicate_findings js (run ∷ []) ≡ alone run.run_id f ∷ alone run.run_id g ∷ []
  unfolding deduplicate_findings get put
  deduplicate_two run e = rw e (rw (apart, get, put) refl)

is_cons-append : (xs ys : List Text) → is_cons (xs ++ ys) ≡ (is_cons xs || is_cons ys)
is_cons-append [] ys = refl
is_cons-append (x ∷ xs) ys = refl

includes_one : (x y : Text) → x ≡ y → includes (add [] x) y ≡ true
unfolding add includes
includes_one x y e = ground (arith, ==_iff x y)

-- The finalizer reports the second of two findings with one normalised key.
duplicate_reported :
    (js : Runtime) (ids : List Text) (m : Assoc (List Text)) (a b : Consolidated)
    → finding_key js a.finding ≡ finding_key js b.finding
    → is_cons (check_findings js ids m [] (a ∷ b ∷ [])).1 ≡ true
unfolding check_findings
duplicate_reported js ids m a b e =
    simp (is_cons-append, includes_one (finding_key js a.finding) (finding_key js b.finding) e)
      (ground arith)

-- A dispatch whose one successful run reports two findings that consolidation keeps apart, and that
-- the finalizer's normalisation makes equal, yields a payload which the finalizer rejects.
pub consolidate_rejected :
    (js : Runtime) (metadata : Metadata) (run : PersistedRun) (f g : Finding)
    → run.status ≡ success
    → run.findings ≡ f ∷ g ∷ []
    → (group_key js f == group_key js g) ≡ false
    → finding_key js f ≡ finding_key js g
    → is_cons (validate_findings js (consolidate js metadata (run ∷ []))) ≡ true
unfolding consolidate validate_findings success_runs
consolidate_rejected js metadata run f g good given apart same =
    let payload = consolidate js metadata (run ∷ []) in
    simp (is_cons-append, good, deduplicate_two js f g apart run given)
      (ground (
        arith,
        duplicate_reported js (set_of (successful_ids payload.runs))
            (contributors js [] payload.runs) (alone run.run_id f) (alone run.run_id g) same,
      ))

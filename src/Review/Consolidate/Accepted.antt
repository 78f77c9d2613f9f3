-- ===== src/Review/Consolidate/Accepted.antt =====
-- .opencode/plugins/review-dispatch/index.ts: the payload of `consolidate_dispatch` under the checks
-- of `validatePayloadSemantics` on counts, verdicts and the result.
use complytime_providers.Prelude.{
  suc, ◌+◌, ◌≡◌, refl, ap, Bool, true, false, ◌&&◌, ◌||◌, List, [], ◌∷◌, map, length, any, all,
  count, if◌then◌else◌, Runtime, arith, any-append,
}
use complytime_providers.Review.Model.{
  Verdict, approve, approve_with_advisories, request_changes, is_verdict, Kind, council, triage,
  feedback, test_review, Status, success, failed, skipped, budget_skipped, limit_skipped, cancelled,
  is_status, Finding, Run, Advisory,
}
use complytime_providers.Review.Votes.{
  is_cons, vote_of, decide_votes, calculated_workflow_value, project_native_value,
}
use complytime_providers.Review.Consolidate.{
  PersistedRun, deduplicate_findings, compute_verdict, run_verdict, workflow_kind,
  workflow_verdict_value, build_advisories, dispatch_run, has_status, success_runs, count_runs,
  Metadata, consolidate,
}
use complytime_providers.Review.Validate.OfPlan.{is_allowed}
use complytime_providers.Review.Validate.OfCounts.{with_status, validate_run_counts}
use complytime_providers.Review.Validate.OfPayload.{validate_result}
use complytime_providers.Review.Votes.Grouping.{votes_so, has_vote}
use complytime_providers.Review.Votes.Deciding.{is_ladder, calculated_workflow_value-ladder}
use complytime_providers.Review.Consolidate.Severities.{
  at_least, any_finding, findings_of, run_verdict-ladder, compute_verdict-deduplicate_findings,
}

is_verdict_refl : (v : Verdict) → is_verdict v v ≡ true
is_verdict_refl approve = refl
is_verdict_refl _ = refl

-- Advisories only reinforce a value that the votes already gave.
calculated_workflow_value-advised :
    (kind : Kind) (runs : List Run) (advisories : List Advisory)
    → (is_cons advisories ≡ true
        → is_verdict
            (project_native_value (calculated_workflow_value kind runs []))
            approve_with_advisories
          ≡ true)
    → calculated_workflow_value kind runs advisories ≡ calculated_workflow_value kind runs []
unfolding calculated_workflow_value decide_votes project_native_value
calculated_workflow_value-advised council runs [] h = refl
calculated_workflow_value-advised test_review runs [] h = refl
calculated_workflow_value-advised council runs (a ∷ rest) h = ground (arith, h refl)
calculated_workflow_value-advised test_review runs (a ∷ rest) h = ground (arith, h refl)
calculated_workflow_value-advised triage runs advisories h = refl
calculated_workflow_value-advised feedback runs advisories h = refl

-- The finalizer recomputes the recorded value and verdict of a consolidated payload, whatever the
-- command and the run files are: the advisories that consolidation adds do not change the value.
pub validate_result-consolidate :
    (js : Runtime) (metadata : Metadata) (runs : List PersistedRun)
    → validate_result (consolidate js metadata runs) ≡ []
unfolding consolidate validate_result
validate_result-consolidate js metadata runs =
    let kind = workflow_kind metadata.command in
    let built = map (dispatch_run kind) runs in
    let value = calculated_workflow_value kind built [] in
    let found = deduplicate_findings js (success_runs runs) in
    let advisories =
      if is_verdict (project_native_value value) approve_with_advisories
      then build_advisories found
      else [] in
    ground (
      arith,
      calculated_workflow_value-advised kind built advisories (λ h. ground arith),
      is_verdict_refl value,
      is_verdict_refl (project_native_value value),
    )

votes_so-dispatch_run :
    (kind : Kind) (p : Verdict → Bool) (run : PersistedRun)
    → votes_so p (dispatch_run kind run)
      ≡ (is_status run.status success && p (workflow_verdict_value kind (run_verdict run.findings)))
unfolding dispatch_run vote_of
votes_so-dispatch_run kind p run = ground arith

has_vote-dispatch_run :
    (kind : Kind) (run : PersistedRun) → has_vote (dispatch_run kind run) ≡ has_status success run
unfolding dispatch_run vote_of
has_vote-dispatch_run kind run = ground arith

-- The verdict of a built run is one of those that the kind of the workflow allows, if it has one.
is_allowed-dispatch_run :
    (kind : Kind) (run : PersistedRun)
    → is_allowed kind (dispatch_run kind run).workflow_verdict ≡ true
unfolding dispatch_run is_allowed run_verdict workflow_verdict_value
is_allowed-dispatch_run council run = ground arith
is_allowed-dispatch_run _ run = ground arith

any_vote :
    (kind : Kind) (runs : List PersistedRun)
    → any has_vote (map (dispatch_run kind) runs) ≡ any (has_status success) runs
any_vote kind [] = refl
any_vote kind (r ∷ rs) = ground (arith, has_vote-dispatch_run kind r, any_vote kind rs)

-- For the kinds of the severity ladder a run votes with the ladder's verdict.
workflow_verdict_value-ladder :
    (kind : Kind) (v : Verdict) → is_ladder kind ≡ true → workflow_verdict_value kind v ≡ v
unfolding workflow_verdict_value
workflow_verdict_value-ladder council v h = refl
workflow_verdict_value-ladder test_review v h = refl
workflow_verdict_value-ladder triage v h = cc
workflow_verdict_value-ladder feedback v h = cc

-- The votes for `v` of the built runs, from the severities that the successful runs reported.
module _ (kind : Kind) (h : is_ladder kind ≡ true) where
  blocking_vote :
      (runs : List PersistedRun)
      → any (votes_so (is_verdict request_changes)) (map (dispatch_run kind) runs)
        ≡ any_finding 3 (findings_of (success_runs runs))
  unfolding success_runs
  blocking_vote [] = refl
  blocking_vote (r ∷ rs) = ground (
    arith,
    votes_so-dispatch_run kind (is_verdict request_changes) r,
    workflow_verdict_value-ladder kind (run_verdict r.findings) h,
    run_verdict-ladder r.findings,
    any-append (λ (f : Finding). at_least 3 f.severity) r.findings (findings_of (success_runs rs)),
    blocking_vote rs,
  )

  noted_vote :
      (runs : List PersistedRun)
      → any_finding 3 (findings_of (success_runs runs)) ≡ false
      → any (votes_so (is_verdict approve_with_advisories)) (map (dispatch_run kind) runs)
        ≡ any_finding 1 (findings_of (success_runs runs))
  unfolding success_runs
  noted_vote [] free = refl
  noted_vote (r ∷ rs) free = ground (
    arith,
    votes_so-dispatch_run kind (is_verdict approve_with_advisories) r,
    workflow_verdict_value-ladder kind (run_verdict r.findings) h,
    run_verdict-ladder r.findings,
    any-append (λ (f : Finding). at_least 3 f.severity) r.findings (findings_of (success_runs rs)),
    any-append (λ (f : Finding). at_least 1 f.severity) r.findings (findings_of (success_runs rs)),
    noted_vote rs,
  )

-- For a council and a test review with a successful run, the value that the votes of the runs decide
-- is the verdict that the severity ladder gives to the deduplicated findings.
pub value-consolidate :
    (js : Runtime) (metadata : Metadata) (runs : List PersistedRun)
    → is_ladder (workflow_kind metadata.command) ≡ true
    → any (has_status success) runs ≡ true
    → (consolidate js metadata runs).value
      ≡ (compute_verdict (consolidate js metadata runs).findings).0
unfolding consolidate
value-consolidate js metadata runs h voted =
    let kind = workflow_kind metadata.command in
    let found = findings_of (success_runs runs) in
    ground (
      arith,
      calculated_workflow_value-ladder kind (map (dispatch_run kind) runs) [] h,
      any_vote kind runs,
      blocking_vote kind h runs,
      noted_vote kind h runs,
      compute_verdict-deduplicate_findings js (success_runs runs),
      run_verdict-ladder found,
    )

-- The statuses that a run file holds.
abbrev pub is_counted : PersistedRun → Bool
is_counted run =
    has_status success run
    || has_status failed run
    || has_status skipped run
    || has_status cancelled run

with_status-dispatch_run :
    (kind : Kind) (s : Status) (runs : List PersistedRun)
    → with_status s (map (dispatch_run kind) runs) ≡ count (has_status s) runs
unfolding with_status dispatch_run
with_status-dispatch_run kind s [] = refl
with_status-dispatch_run kind s (r ∷ rs) = ground (arith, with_status-dispatch_run kind s rs)

length-dispatch_run :
    (kind : Kind) (runs : List PersistedRun) → length (map (dispatch_run kind) runs) ≡ length runs
length-dispatch_run kind [] = refl
length-dispatch_run kind (r ∷ rs) = ap suc (length-dispatch_run kind rs)

record Tallied (runs : List PersistedRun) : Type 0 where
  over_budget : count (has_status budget_skipped) runs ≡ 0
  over_limit : count (has_status limit_skipped) runs ≡ 0
  sum :
      count (has_status success) runs
        + count (has_status failed) runs
        + count (has_status skipped) runs
        + count (has_status cancelled) runs
      ≡ length runs

Tallied-cons :
    (r : PersistedRun) (rs : List PersistedRun)
    → is_counted r ≡ true
    → Tallied rs
    → Tallied (r ∷ rs)
Tallied-cons r rs h t = ground arith

count-Tallied : (runs : List PersistedRun) → all is_counted runs ≡ true → Tallied runs
count-Tallied [] h = ground arith
count-Tallied (r ∷ rs) h = Tallied-cons r rs (ground arith) (count-Tallied rs (ground arith))

-- The counts of a consolidated payload pass the finalizer's check, if every run file holds one of the
-- statuses that consolidation counts.
pub validate_run_counts-consolidate :
    (js : Runtime) (metadata : Metadata) (runs : List PersistedRun)
    → all is_counted runs ≡ true
    → validate_run_counts (consolidate js metadata runs) ≡ []
unfolding consolidate validate_run_counts count_runs
validate_run_counts-consolidate js metadata runs h =
    let kind = workflow_kind metadata.command in
    let t = count-Tallied runs h in
    simp (with_status-dispatch_run kind, length-dispatch_run kind) (ground (arith, t))

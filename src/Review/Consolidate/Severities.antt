-- ===== src/Review/Consolidate/Severities.antt =====
-- .opencode/plugins/review-dispatch/index.ts: `deduplicateFindings`, `computeVerdict` and `runVerdict`,
-- by severity.
use complytime_providers.Prelude.{
  ℕ, ◌≡◌, refl, ◌∙◌, inl, inr, Text, ◌==◌, Bool, ◌||◌, List, [], ◌∷◌, ◌++◌, map, any, leb,
  if◌then◌else◌, get, put, values, Runtime, Bool-cases, arith, any-append,
}
use complytime_providers.Review.Model.{
  Severity, Verdict, approve, approve_with_advisories, request_changes, Finding, Consolidated,
}
use complytime_providers.Review.Consolidate.{
  PersistedRun, severity_rank, group_key, Groups, merge, group_findings, group_runs,
  with_sorted_ids, deduplicate_findings, is_critical, is_high, is_medium, is_low, has,
  compute_verdict, run_verdict,
}

abbrev pub at_least : ℕ → Severity → Bool
at_least k s = leb k (severity_rank s)

abbrev pub any_finding : ℕ → List Finding → Bool
any_finding k fs = any (λ (f : Finding). at_least k f.severity) fs

abbrev pub findings_of : List PersistedRun → List Finding
findings_of [] = []
findings_of (r ∷ rs) = r.findings ++ findings_of rs

has_group : ℕ → Groups → Bool
has_group k groups = has (at_least k) (values groups)

has_group-put :
    (k : ℕ) (groups : Groups) (key id : Text) (f : Finding)
    → has_group k (put groups key (merge id f (get groups key)))
      ≡ (has_group k groups || at_least k f.severity)
unfolding has_group put get merge
has_group-put k [] key id f = ground arith
has_group-put k ((j, g) ∷ groups) key id f = elim (Bool-cases (j == key)) [
  | inl same ↦ rw same (ground arith)
  | inr other ↦ rw other (ground (arith, has_group-put k groups key id f))
]

has_group-group_findings :
    (js : Runtime) (k : ℕ) (id : Text) (groups : Groups) (fs : List Finding)
    → has_group k (group_findings js id groups fs) ≡ (has_group k groups || any_finding k fs)
unfolding group_findings
has_group-group_findings js k id groups [] = ground arith
has_group-group_findings js k id groups (f ∷ fs) =
    let key = group_key js f in
    let groups' = put groups key (merge id f (get groups key)) in
    ground (arith, has_group-group_findings js k id groups' fs, has_group-put k groups key id f)

has_group-group_runs :
    (js : Runtime) (k : ℕ) (groups : Groups) (runs : List PersistedRun)
    → has_group k (group_runs js groups runs)
      ≡ (has_group k groups || any_finding k (findings_of runs))
unfolding group_runs
has_group-group_runs js k groups [] = ground arith
has_group-group_runs js k groups (r ∷ rs) = ground (
  arith,
  has_group-group_runs js k (group_findings js r.run_id groups r.findings) rs,
  has_group-group_findings js k r.run_id groups r.findings,
  any-append (λ (f : Finding). at_least k f.severity) r.findings (findings_of rs),
)

has-sorted_ids :
    (p : Severity → Bool) (cs : List Consolidated) → has p (map with_sorted_ids cs) ≡ has p cs
has-sorted_ids p [] = refl
has-sorted_ids p (c ∷ cs) = ground (arith, has-sorted_ids p cs)

-- A severity of at least `k` is reported after deduplication exactly if some run reported one.
has-deduplicate_findings :
    (js : Runtime) (k : ℕ) (runs : List PersistedRun)
    → has (at_least k) (deduplicate_findings js runs) ≡ any_finding k (findings_of runs)
unfolding deduplicate_findings has_group
has-deduplicate_findings js k runs =
    has-sorted_ids (at_least k) (values (group_runs js [] runs)) ∙ has_group-group_runs js k [] runs

abbrev ladder : Bool → Bool → Verdict
ladder blocking noted =
    if blocking then request_changes else if noted then approve_with_advisories else approve

has_blocking :
    (cs : List Consolidated) → (has is_critical cs || has is_high cs) ≡ has (at_least 3) cs
has_blocking [] = refl
has_blocking (c ∷ cs) = ground (arith, has_blocking cs)

has_noted :
    (cs : List Consolidated)
    → (has is_critical cs || has is_high cs || has is_medium cs || has is_low cs)
      ≡ has (at_least 1) cs
has_noted [] = refl
has_noted (c ∷ cs) = ground (arith, has_noted cs)

compute_verdict-ladder :
    (cs : List Consolidated)
    → (compute_verdict cs).0 ≡ ladder (has (at_least 3) cs) (has (at_least 1) cs)
unfolding compute_verdict
compute_verdict-ladder cs = ground (arith, has_blocking cs, has_noted cs)

blocking_finding :
    (fs : List Finding)
    → any (λ (f : Finding). is_critical f.severity || is_high f.severity) fs ≡ any_finding 3 fs
blocking_finding [] = refl
blocking_finding (f ∷ fs) = ground (arith, blocking_finding fs)

noted_finding :
    (fs : List Finding)
    → (any_finding 3 fs || any (λ (f : Finding). is_medium f.severity || is_low f.severity) fs)
      ≡ any_finding 1 fs
noted_finding [] = refl
noted_finding (f ∷ fs) = ground (arith, noted_finding fs)

pub run_verdict-ladder :
    (fs : List Finding) → run_verdict fs ≡ ladder (any_finding 3 fs) (any_finding 1 fs)
unfolding run_verdict
run_verdict-ladder fs = ground (arith, blocking_finding fs, noted_finding fs)

-- The verdict of the deduplicated findings is the verdict that the severity ladder of a single run
-- gives to all findings together: deduplication neither hides nor invents a severity.
pub compute_verdict-deduplicate_findings :
    (js : Runtime) (runs : List PersistedRun)
    → (compute_verdict (deduplicate_findings js runs)).0 ≡ run_verdict (findings_of runs)
compute_verdict-deduplicate_findings js runs =
    rw (
      compute_verdict-ladder, run_verdict-ladder, has-deduplicate_findings,
      has-deduplicate_findings,
    )

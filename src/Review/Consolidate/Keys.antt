-- ===== src/Review/Consolidate/Keys.antt =====
-- .opencode/plugins/review-dispatch/index.ts: the keys of `deduplicateFindings`, and the built runs under
-- `validateRunState`.
use complytime_providers.Prelude.{
  ◌≡◌, refl, inl, inr, Text, ◌==◌, ==_iff, true, false, ◌||◌, List, [], ◌∷◌, ◌++◌, map, is_some,
  includes, get, put, keys, values, Runtime, Bool-cases, arith, includes-append, IsUnique,
  keys-put-IsUnique, includes-keys-put,
}
use complytime_providers.Review.Model.{Kind, success, failed, cancelled, Finding, Consolidated}
use complytime_providers.Review.Consolidate.{
  PersistedRun, group_key, Groups, merge, group_findings, group_runs, with_sorted_ids,
  deduplicate_findings, dispatch_run, has_status,
}
use complytime_providers.Review.Validate.OfRun.{earlier, validate_run_state}

-- What the executor records of a run: it ended, in order, and a run that did not succeed has an error.
pub record IsRecorded (js : Runtime) (run : PersistedRun) : Type 0 where
  pub ended : (has_status success run || has_status failed run || has_status cancelled run) ≡ true
  pub ordered : earlier js run.finished_at run.started_at ≡ false
  pub explained : has_status success run ≡ false → is_some run.error ≡ true

-- The finalizer's check of the run's state accepts what consolidation builds from a run that ended,
-- in order, and with an error if it did not succeed.
pub validate_run_state-dispatch_run :
    (js : Runtime) (kind : Kind) (run : PersistedRun)
    → IsRecorded js run
    → validate_run_state js (dispatch_run kind run) ≡ []
unfolding dispatch_run validate_run_state
validate_run_state-dispatch_run js kind run r = elim (Bool-cases (has_status success run)) [
  | inl good ↦ ground (arith, r.ended, r.ordered)
  | inr bad ↦ ground (arith, r.ended, r.ordered, r.explained bad)
]

abbrev consolidated_key : Runtime → Consolidated → Text
consolidated_key js c = group_key js c.finding

-- In a table of groups every finding has the key under which it is filed.
abbrev Filed : Runtime → Groups → Type 0
Filed js [] = Unit
Filed js ((k, g) ∷ m) = (group_key js g.finding ≡ k) × Filed js m

put-Filed :
    (js : Runtime) (m : Groups) (id : Text) (f : Finding)
    → Filed js m
    → Filed js (put m (group_key js f) (merge id f (get m (group_key js f))))
unfolding put get merge
put-Filed js [] id f h = (refl, tt)
put-Filed js ((k, g) ∷ m) id f (here, later) = elim (Bool-cases (k == group_key js f)) [
  | inl same ↦ rw same (ground (arith, ==_iff k (group_key js f)), later)
  | inr other ↦ rw other (here, put-Filed js m id f later)
]

record IsTable (js : Runtime) (m : Groups) : Type 0 where
  filed : Filed js m
  unique : IsUnique (keys m)

group_findings-IsTable :
    (js : Runtime) (id : Text) (m : Groups) (fs : List Finding)
    → IsTable js m
    → IsTable js (group_findings js id m fs)
unfolding group_findings
group_findings-IsTable js id m [] t = t
group_findings-IsTable js id m (f ∷ fs) t =
    let key = group_key js f in
    group_findings-IsTable js id (put m key (merge id f (get m key))) fs (record {
      filed = put-Filed js m id f t.filed;
      unique = keys-put-IsUnique m key (merge id f (get m key)) t.unique;
    })

group_runs-IsTable :
    (js : Runtime) (m : Groups) (runs : List PersistedRun)
    → IsTable js m
    → IsTable js (group_runs js m runs)
unfolding group_runs
group_runs-IsTable js m [] t = t
group_runs-IsTable js m (r ∷ rs) t =
    group_runs-IsTable js (group_findings js r.run_id m r.findings) rs
      (group_findings-IsTable js r.run_id m r.findings t)

keys_of_Filed :
    (js : Runtime) (m : Groups)
    → Filed js m
    → map (consolidated_key js) (map with_sorted_ids (values m)) ≡ keys m
keys_of_Filed js [] h = refl
keys_of_Filed js ((k, g) ∷ m) (here, later) = cc (here, keys_of_Filed js m later)

-- No two deduplicated findings have the same file and root cause, as consolidation compares them.
deduplicate_findings-IsUnique :
    (js : Runtime) (runs : List PersistedRun)
    → IsUnique (map (consolidated_key js) (deduplicate_findings js runs))
unfolding deduplicate_findings
deduplicate_findings-IsUnique js runs =
    let t = group_runs-IsTable js [] runs (record { filed = tt; unique = tt }) in
    rw (keys_of_Filed js (group_runs js [] runs) t.filed) t.unique

abbrev keys_of : Runtime → List Finding → List Text
keys_of js fs = map (group_key js) fs

includes-group_findings :
    (js : Runtime) (id : Text) (m : Groups) (fs : List Finding) (j : Text)
    → includes (keys (group_findings js id m fs)) j
      ≡ (includes (keys m) j || includes (keys_of js fs) j)
unfolding group_findings includes
includes-group_findings js id m [] j = ground arith
includes-group_findings js id m (f ∷ fs) j =
    let key = group_key js f in
    let g = merge id f (get m key) in
    ground (arith, includes-group_findings js id (put m key g) fs j, includes-keys-put m key j g)

-- The keys of all findings that the runs reported, in order.
abbrev pub reported_keys : Runtime → List PersistedRun → List Text
reported_keys js [] = []
reported_keys js (r ∷ rs) = keys_of js r.findings ++ reported_keys js rs

includes-group_runs :
    (js : Runtime) (m : Groups) (runs : List PersistedRun) (j : Text)
    → includes (keys (group_runs js m runs)) j
      ≡ (includes (keys m) j || includes (reported_keys js runs) j)
unfolding group_runs includes
includes-group_runs js m [] j = ground arith
includes-group_runs js m (r ∷ rs) j = ground (
  arith,
  includes-group_runs js (group_findings js r.run_id m r.findings) rs j,
  includes-group_findings js r.run_id m r.findings j,
  includes-append (keys_of js r.findings) (reported_keys js rs) j,
)

-- The deduplicated findings have exactly the keys that some run reported.
includes-deduplicate_findings :
    (js : Runtime) (runs : List PersistedRun) (j : Text)
    → includes (map (consolidated_key js) (deduplicate_findings js runs)) j
      ≡ includes (reported_keys js runs) j
unfolding deduplicate_findings includes
includes-deduplicate_findings js runs j =
    let t = group_runs-IsTable js [] runs (record { filed = tt; unique = tt }) in
    rw (keys_of_Filed js (group_runs js [] runs) t.filed) (includes-group_runs js [] runs j)

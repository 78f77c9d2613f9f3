-- ===== src/Review/Validate/OfFindings.antt =====
-- .opencode/plugins/review-dispatch/index.ts: `validateFindings`.
use complytime_providers.Prelude.{
  Text, txt, Bool, not, List, [], ◌∷◌, ◌++◌, any, if◌then◌else◌, or_else, includes, add, set_of,
  Assoc, get, put, keys, Runtime, trim, collapse_spaces,
}
use complytime_providers.Review.Model.{
  success, is_status, Finding, Run, Consolidated, Advisory, Payload,
}
use complytime_providers.Review.Validate.Keys.{
  when, unique_sorted, normalized_finding_key, finding_key, equal_sets,
}

abbrev pub succeeded : Run → Bool
succeeded run = is_status run.status success

-- The ids of the successful runs.
unfoldable pub successful_ids : List Run → List Text
successful_ids [] = []
successful_ids (r ∷ rs) = if succeeded r then r.run_id ∷ successful_ids rs else successful_ids rs

-- `contributors`: the runs that reported a finding, by its normalised key.
add_contributor : Runtime → Text → Assoc (List Text) → List Finding → Assoc (List Text)
unfolding normalized_finding_key
add_contributor js id m [] = m
add_contributor js id m (f ∷ fs) =
    let key = finding_key js f in
    add_contributor js id (put m key (or_else (get m key) [] ++ id ∷ [])) fs

unfoldable pub contributors : Runtime → Assoc (List Text) → List Run → Assoc (List Text)
unfolding add_contributor
contributors js m [] = m
contributors js m (r ∷ rs) =
    contributors js (if succeeded r then add_contributor js r.run_id m r.findings else m) rs

-- The loop over the consolidated findings: the keys seen, and its messages.
unfoldable pub check_findings :
    Runtime → List Text → Assoc (List Text) → List Text → List Consolidated → List Text × List Text
unfolding normalized_finding_key equal_sets txt
check_findings js ids by_key seen [] = (seen, [])
check_findings js ids by_key seen (c ∷ cs) =
    let key = finding_key js c.finding in
    let (keys', later) = check_findings js ids by_key (add seen key) cs in
    (
      keys',
      when (includes seen key)
            (txt "duplicate consolidated finding for normalized file and root cause")
          ++ when (not (equal_sets c.run_ids (unique_sorted (or_else (get by_key key) []))))
              (txt "consolidated finding has incorrect contributing run ids")
          ++ when (any (λ id. not (includes ids id)) c.run_ids)
              (txt "consolidated finding references a non-successful or unknown run")
          ++ later,
    )

unfoldable pub missing_findings : List Text → List Text → List Text
unfolding txt
missing_findings seen [] = []
missing_findings seen (key ∷ ks) =
    when (not (includes seen key)) (txt "run finding is missing from consolidated findings")
    ++ missing_findings seen ks

advisory_key : Runtime → Advisory → Text
unfolding trim collapse_spaces
advisory_key js a = js.lower (collapse_spaces (trim (js.nfc a.description)))

unfoldable pub check_advisories : Runtime → List Text → List Text → List Advisory → List Text
unfolding advisory_key txt
check_advisories js ids seen [] = []
check_advisories js ids seen (a ∷ rest) =
    when (includes seen (advisory_key js a)) (txt "duplicate advisory description")
    ++ when (any (λ id. not (includes ids id)) a.run_ids)
        (txt "advisory references a non-successful or unknown run")
    ++ check_advisories js ids (add seen (advisory_key js a)) rest

unfoldable pub validate_findings : Runtime → Payload → List Text
unfolding successful_ids contributors check_findings missing_findings check_advisories
validate_findings js payload =
    let ids = set_of (successful_ids payload.runs) in
    let by_key = contributors js [] payload.runs in
    let (seen, errors) = check_findings js ids by_key [] payload.findings in
    errors ++ missing_findings seen (keys by_key) ++ check_advisories js ids [] payload.advisories

-- ===== src/Review/Tests.antt =====
-- The theorems on the review dispatch at concrete runs.
use complytime_providers.Prelude.{
  put, get, ◌≡◌, refl, Text, txt, map, ℕ, ◌+◌, ◌-◌, ◌*◌, leb, ◌&&◌, true, false, Option, none, some,
  List, [], ◌∷◌, ◌++◌, ◌==◌, text_leb, if◌then◌else◌, Runtime,
}
use complytime_providers.Review.Model.{
  valid, invalid, needs_clarification, critical, high, medium, Verdict, approve, request_changes,
  council, triage, review_council, success, failed, host, Finding, Run, local, diff,
}
use complytime_providers.Review.Votes.{is_cons, calculated_workflow_value, vote_of}
use complytime_providers.Review.Votes.Neutral.{opposite_run, calculated_workflow_value-opposite}
use complytime_providers.Review.Votes.Deciding.{calculated_workflow_value-ladder}
use complytime_providers.Review.Validate.Keys.{finding_key, normalized_finding_key}
use complytime_providers.Review.Validate.OfCounts.{validate_run_counts}
use complytime_providers.Review.Validate.OfFindings.{validate_findings}
use complytime_providers.Review.Validate.OfPayload.{validate_result}
use complytime_providers.Review.Consolidate.{
  PersistedRun, Metadata, group_key, deduplicate_findings, compute_verdict, run_verdict,
  dispatch_run, consolidate,
}
use complytime_providers.Review.Consolidate.Severities.{compute_verdict-deduplicate_findings}
use complytime_providers.Review.Consolidate.Accepted.{
  validate_result-consolidate, value-consolidate, validate_run_counts-consolidate,
}
use complytime_providers.Review.Consolidate.Rejected.{consolidate_rejected}

-- The letters of ASCII in lower case.
abbrev lower_unit : ℕ → ℕ
lower_unit c = if leb b'A' c && leb c b'Z' then c + 32 else c

abbrev digits : ℕ → Text → Option ℕ
digits n [] = some n
digits n (c ∷ s) = digits (10 * n + (c - 48)) s

abbrev pub js : Runtime
js = record {
  lower = map lower_unit;
  nfc = λ s. s;
  locale_leb = text_leb;
  date_parse = digits 0;
  stringify = λ s. b'"' ∷ s ++ b'"' ∷ [];
}

abbrev pub race : Finding
race = record {
  severity = high;
  category = txt "security";
  description = txt "race on the cache";
  root_cause = txt "Race";
  file = some (txt "a.go");
  line = some 3;
}

-- The same cause in another spelling, and less severe.
abbrev race_again : Finding
race_again = record race { severity = medium; root_cause = txt "race" }

abbrev pub first_run : PersistedRun
first_run = record {
  correlation_id = txt "d1";
  run_id = txt "r1";
  agent = txt "divisor-guard";
  source = host;
  sequence = 1;
  status = success;
  started_at = txt "10";
  finished_at = txt "20";
  requested_model = none;
  provider = none;
  model_id = none;
  variant = none;
  resolved_parent_model = some (txt "p/m");
  resolved_parent_variant = some (txt "v");
  reported_model = some (txt "p/m");
  model_mismatch = false;
  usage = none;
  error = none;
  workflow_verdict = none;
  findings = race ∷ race_again ∷ [];
  proposals = [];
  text = [];
  read_only = true;
  prompt = some (txt "review this");
  post_submission_abort = none;
  discarded_submissions = none;
}

abbrev second_run : PersistedRun
second_run = record first_run {
  run_id = txt "r2";
  agent = txt "divisor-adversary";
  findings = record race { severity = critical } ∷ [];
}

abbrev pub failed_run : PersistedRun
failed_run = record first_run {
  run_id = txt "r3";
  agent = txt "divisor-testing";
  status = failed;
  error =
      some (record { code = txt "provider_timeout"; message = txt "no answer"; retryable = true });
}

abbrev three_runs : List PersistedRun
three_runs = first_run ∷ second_run ∷ failed_run ∷ []

abbrev pub metadata : Metadata
metadata = record {
  command = review_council;
  input_context = local (txt "abc");
  change_profile = diff;
  plan = [];
}

abbrev voting : Text → Text → Verdict → Run
voting id agent v = record (dispatch_run council first_run) {
  run_id = id;
  agent = agent;
  workflow_verdict = some v;
}

-- One persona approves twice, the other requests changes once.
abbrev three_votes : List Run
three_votes =
    voting (txt "r1") (txt "a") approve
    ∷ voting (txt "r2") (txt "b") request_changes
    ∷ voting (txt "r3") (txt "a") approve
    ∷ []

calculated_workflow_value-ladder_example :
    calculated_workflow_value council three_votes [] ≡ request_changes
unfolding vote_of dispatch_run
calculated_workflow_value-ladder_example =
    calculated_workflow_value-ladder council three_votes [] refl

-- Two personas find an issue valid, and one asks for clarification.
abbrev three_triages : List Run
three_triages =
    voting (txt "r1") (txt "a") valid
    ∷ voting (txt "r2") (txt "b") needs_clarification
    ∷ voting (txt "r3") (txt "c") valid
    ∷ []

calculated_workflow_value-opposite_example :
    calculated_workflow_value triage (map opposite_run three_triages) [] ≡ invalid
unfolding calculated_workflow_value dispatch_run txt ◌==◌ put get
calculated_workflow_value-opposite_example = calculated_workflow_value-opposite three_triages []

compute_verdict-deduplicate_findings_example :
    (compute_verdict (deduplicate_findings js three_runs)).0 ≡ request_changes
unfolding run_verdict
compute_verdict-deduplicate_findings_example = compute_verdict-deduplicate_findings js three_runs

validate_result-consolidate_example : validate_result (consolidate js metadata three_runs) ≡ []
validate_result-consolidate_example = validate_result-consolidate js metadata three_runs

value-consolidate_example :
    (consolidate js metadata three_runs).value
    ≡ (compute_verdict (consolidate js metadata three_runs).findings).0
unfolding consolidate
value-consolidate_example = value-consolidate js metadata three_runs refl refl

validate_run_counts-consolidate_example :
    validate_run_counts (consolidate js metadata three_runs) ≡ []
validate_run_counts-consolidate_example =
    validate_run_counts-consolidate js metadata three_runs refl

apart : (group_key js race == group_key js race_again) ≡ false
unfolding group_key txt ◌==◌
apart = refl

same : finding_key js race ≡ finding_key js race_again
unfolding normalized_finding_key txt
same = refl

consolidate_rejected_example :
    is_cons (validate_findings js (consolidate js metadata (first_run ∷ []))) ≡ true
consolidate_rejected_example =
    consolidate_rejected js metadata first_run race race_again refl refl apart same

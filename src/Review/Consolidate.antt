-- ===== src/Review/Consolidate.antt =====
-- .opencode/plugins/review-dispatch/index.ts: `consolidate_dispatch`, from the run files of a session
-- to the payload for finalization.
pub mod Severities
pub mod Rejected
pub mod Keys
pub mod Accepted
use complytime_providers.Prelude.{
  ℕ, ◌+◌, ◌≡◌, Text, txt, ◌==◌, Bool, true, false, not, ◌&&◌, ◌||◌, Option, none, some, List, [],
  ◌∷◌, ◌++◌, map, length, any, filter, count, ltb, nat_eq, if◌then◌else◌, add, sort, Assoc, get,
  put, values, decimal, Runtime, trim, forward_slashes,
}
use complytime_providers.Review.Model.{
  Severity, critical, high, medium, low, Verdict, approve, approve_with_advisories, request_changes,
  valid, invalid, needs_clarification, accept, author_decides, is_verdict, Kind, council, triage,
  feedback, test_review, Command, review_council, triage_issue, address_feedback,
  speckit_testreview, Status, success, failed, skipped, cancelled, is_status, Source, Usage,
  RunError, Finding, Run, Consolidated, Advisory, PlanEntry, RunCounts, InputContext, ProfileKind,
  Payload,
}
use complytime_providers.Review.Votes.{is_cons, calculated_workflow_value, project_native_value}

pub record Proposal : Type 0 where
  pub information : Text
  pub tag : Text
  pub category : Option Text

-- The records that audit an abort behind the submissions and a discard, without their fixed notes.
pub record PostSubmissionAbort : Type 0 where
  pub original_status : Status
  pub error_code : Text
  pub error_message : Text

pub record DiscardedSubmissions : Type 0 where
  pub agent : Text
  pub run_id : Text
  pub discarded_findings : ℕ
  pub discarded_proposals : ℕ
  pub discarded_at : Text

-- A run file.
pub record PersistedRun : Type 0 where
  pub correlation_id : Text
  pub run_id : Text
  pub agent : Text
  pub source : Source
  pub sequence : ℕ
  pub status : Status
  pub started_at : Text
  pub finished_at : Text
  pub requested_model : Option Text
  pub provider : Option Text
  pub model_id : Option Text
  pub variant : Option Text
  pub resolved_parent_model : Option Text
  pub resolved_parent_variant : Option Text
  pub reported_model : Option Text
  pub model_mismatch : Bool
  pub usage : Option Usage
  pub error : Option RunError
  pub workflow_verdict : Option Text
  pub findings : List Finding
  pub proposals : List Proposal
  pub text : Text
  pub read_only : Bool
  pub prompt : Option Text
  pub post_submission_abort : Option PostSubmissionAbort
  pub discarded_submissions : Option DiscardedSubmissions

abbrev pub severity_rank : Severity → ℕ
severity_rank low = 1
severity_rank medium = 2
severity_rank high = 3
severity_rank critical = 4

unfoldable pub normalize_file : Runtime → Option Text → Text
unfolding trim forward_slashes
normalize_file js none = []
normalize_file js (some file) = trim (forward_slashes (js.lower file))

unfoldable pub group_key : Runtime → Finding → Text
unfolding normalize_file
group_key js f = normalize_file js f.file ++ 0 ∷ f.root_cause

abbrev pub Groups : Type 0
Groups = Assoc Consolidated

-- One more finding of a group: the run's id joins it, and a higher severity takes its place.
unfoldable pub merge : Text → Finding → Option Consolidated → Consolidated
merge id f none = record { finding = f; run_ids = id ∷ [] }
merge id f (some g) = record {
  finding =
      if ltb (severity_rank g.finding.severity) (severity_rank f.severity) then f else g.finding;
  run_ids = add g.run_ids id;
}

unfoldable pub group_findings : Runtime → Text → Groups → List Finding → Groups
unfolding group_key merge
group_findings js id groups [] = groups
group_findings js id groups (f ∷ fs) =
    let key = group_key js f in
    group_findings js id (put groups key (merge id f (get groups key))) fs

unfoldable pub group_runs : Runtime → Groups → List PersistedRun → Groups
unfolding group_findings
group_runs js groups [] = groups
group_runs js groups (run ∷ runs) =
    group_runs js (group_findings js run.run_id groups run.findings) runs

abbrev pub with_sorted_ids : Consolidated → Consolidated
with_sorted_ids g = record g { run_ids = sort g.run_ids }

unfoldable pub deduplicate_findings : Runtime → List PersistedRun → List Consolidated
unfolding group_runs sort
deduplicate_findings js runs = map with_sorted_ids (values (group_runs js [] runs))

abbrev pub is_critical : Severity → Bool
is_critical critical = true
is_critical _ = false

abbrev pub is_high : Severity → Bool
is_high high = true
is_high _ = false

abbrev pub is_medium : Severity → Bool
is_medium medium = true
is_medium _ = false

abbrev pub is_low : Severity → Bool
is_low low = true
is_low _ = false

-- `findings.some((f) => p(f.severity))`, and the number of them
abbrev pub has : (Severity → Bool) → List Consolidated → Bool
has p fs = any (λ (c : Consolidated). p c.finding.severity) fs

abbrev how_many : (Severity → Bool) → List Consolidated → ℕ
how_many p fs = count (λ (c : Consolidated). p c.finding.severity) fs

-- The verdict and its reason.
unfoldable pub compute_verdict : List Consolidated → Verdict × Text
unfolding decimal txt
compute_verdict fs =
    if has is_critical fs || has is_high fs
    then (
      request_changes,
      (if has is_critical fs
            then decimal (how_many is_critical fs) ++ txt " CRITICAL"
            else decimal (how_many is_high fs) ++ txt " HIGH")
          ++ txt " severity finding(s) require changes",
    )
    else if has is_medium fs
    then (
      approve_with_advisories,
      decimal (how_many is_medium fs) ++ txt " MEDIUM severity finding(s) noted as advisories",
    )
    else if has is_low fs
    then (
      approve_with_advisories,
      decimal (length fs) ++ txt " LOW severity finding(s) noted as advisories",
    )
    else (approve, txt "No findings requiring changes")

unfoldable pub run_verdict : List Finding → Verdict
run_verdict fs =
    if any (λ (f : Finding). is_critical f.severity || is_high f.severity) fs
    then request_changes
    else if any (λ (f : Finding). is_medium f.severity || is_low f.severity) fs
    then approve_with_advisories
    else approve

unfoldable pub workflow_kind : Command → Kind
workflow_kind review_council = council
workflow_kind triage_issue = triage
workflow_kind address_feedback = feedback
workflow_kind speckit_testreview = test_review

triage_value : Verdict → Verdict
triage_value approve = valid
triage_value request_changes = invalid
triage_value _ = needs_clarification

feedback_value : Verdict → Verdict
feedback_value approve = accept
feedback_value approve_with_advisories = author_decides
feedback_value request_changes = author_decides
feedback_value v = v

unfoldable pub workflow_verdict_value : Kind → Verdict → Verdict
unfolding triage_value feedback_value
workflow_verdict_value triage v = triage_value v
workflow_verdict_value feedback v = feedback_value v
workflow_verdict_value _ v = v

unfoldable pub build_advisories : List Consolidated → List Advisory
build_advisories [] = []
build_advisories (c ∷ cs) =
    if is_medium c.finding.severity || is_low c.finding.severity
    then record {
      severity = c.finding.severity;
      description = c.finding.description;
      run_ids = c.run_ids;
    }
      ∷ build_advisories cs
    else build_advisories cs

-- The entry of the payload for a run file.
unfoldable pub dispatch_run : Kind → PersistedRun → Run
unfolding workflow_verdict_value run_verdict
dispatch_run kind run =
    let ok = is_status run.status success in
    record {
      run_id = run.run_id;
      agent = run.agent;
      source = run.source;
      requested_model = run.requested_model;
      provider = run.provider;
      model_id = run.model_id;
      variant = run.variant;
      resolved_parent_model = run.resolved_parent_model;
      resolved_parent_variant = run.resolved_parent_variant;
      sequence = run.sequence;
      status = run.status;
      started_at = some run.started_at;
      finished_at = some run.finished_at;
      usage = run.usage;
      error = if ok then none else run.error;
      reported_model = run.reported_model;
      model_mismatch = run.model_mismatch;
      workflow_verdict =
          if ok then some (workflow_verdict_value kind (run_verdict run.findings)) else none;
      findings = if ok then run.findings else [];
    }

abbrev pub has_status : Status → PersistedRun → Bool
has_status s run = is_status run.status s

unfoldable pub success_runs : List PersistedRun → List PersistedRun
success_runs runs = filter (has_status success) runs

unfoldable pub count_runs : List PersistedRun → RunCounts
count_runs runs = record {
  total = length runs;
  success = count (has_status success) runs;
  failed = count (has_status failed) runs;
  skipped = count (has_status skipped) runs;
  budget_skipped = 0;
  limit_skipped = 0;
  cancelled = count (has_status cancelled) runs;
}

-- What the payload takes from the session's metadata.
pub record Metadata : Type 0 where
  pub command : Command
  pub input_context : InputContext
  pub change_profile : ProfileKind
  pub plan : List PlanEntry

unfoldable pub consolidate : Runtime → Metadata → List PersistedRun → Payload
unfolding workflow_kind deduplicate_findings success_runs compute_verdict dispatch_run count_runs
    calculated_workflow_value project_native_value build_advisories
consolidate js metadata runs =
    let kind = workflow_kind metadata.command in
    let findings = deduplicate_findings js (success_runs runs) in
    let dispatched = map (dispatch_run kind) runs in
    let value = calculated_workflow_value kind dispatched [] in
    let projected = project_native_value value in
    record {
      command = metadata.command;
      input_context = metadata.input_context;
      change_profile = metadata.change_profile;
      plan = metadata.plan;
      runs = dispatched;
      findings = findings;
      advisories =
          if is_verdict projected approve_with_advisories then build_advisories findings else [];
      verdict = projected;
      verdict_reason = (compute_verdict findings).1;
      run_counts = count_runs runs;
      kind = kind;
      value = value;
    }

pub record Orphaned : Type 0 where
  pub agent : Text
  pub run_id : Text
  pub discarded_findings : ℕ
  pub discarded_proposals : ℕ

-- The warnings on the submissions that the scoping to successful runs discards.
unfoldable pub orphaned_warnings : List PersistedRun → List Orphaned
orphaned_warnings [] = []
orphaned_warnings (run ∷ runs) =
    if not (is_status run.status success) && (is_cons run.findings || is_cons run.proposals)
    then record {
      agent = run.agent;
      run_id = run.run_id;
      discarded_findings = length run.findings;
      discarded_proposals = length run.proposals;
    }
      ∷ orphaned_warnings runs
    else orphaned_warnings runs

-- ===== src/Dispatch/Tests.antt =====
-- .opencode/plugins/review-dispatch/index.ts and .opencode/lib/agent-executor.ts: a dispatch with a
-- successful and a failed run, and its recovery.
use complytime_providers.Prelude.{
  includes, ℕ, ◌≡◌, refl, Text, txt, ◌==◌, ==_iff, true, false, Option, none, some, List, [], ◌∷◌,
  get, ok, err, Runtime, text_leb, arith,
}
use complytime_providers.Review.Model.{
  success, failed, council, review_council, explicit, host, include, Finding, high, PlanEntry,
  local, diff,
}
use complytime_providers.Review.Votes.{is_cons}
use complytime_providers.Review.Validate.OfRun.{earlier, validate_run_state, validate_run_model}
use complytime_providers.Review.Consolidate.{PersistedRun, Metadata, dispatch_run}
use complytime_providers.Plan.Policy.{tier_named, plain, review, Reviewer, Matrix, PerMode}
use complytime_providers.Dispatch.Folder.{run_file, Folder, is_run_name}
use complytime_providers.Dispatch.Discard.{DiscardCalls, discard_orphaned_submissions}
use complytime_providers.Dispatch.Discard.Kept.{IsKept, discard_orphaned_submissions-IsKept}
use complytime_providers.Dispatch.Discard.Cleared.{Succeeds}
use complytime_providers.Dispatch.Consolidating.{valid_metadata, consolidate_dispatch}
use complytime_providers.Dispatch.Consolidating.Recovered.{
  without_warnings, consolidate_dispatch-discard,
}
use complytime_providers.Dispatch.Consolidating.Warned.{
  warnings_of, warnings_of-consolidate_dispatch,
}
use complytime_providers.Dispatch.Executor.{ModelIdentity, at_first_slash, text_part, step_finish}
use complytime_providers.Dispatch.Executor.Session.{
  cancel, expire, resolved, ChildMessage, Agenda, execute_agent_session,
}
use complytime_providers.Dispatch.Executor.Session.Results.{IsSettled}
use complytime_providers.Dispatch.Executor.Session.Settled.{execute_agent_session-IsSettled}
use complytime_providers.Dispatch.Core.{make_provenance, execute_dispatch_run}
use complytime_providers.Dispatch.Submissions.{Submissions}
use complytime_providers.Dispatch.Selecting.{RunOptions, World}
use complytime_providers.Dispatch.Core.Recorded.{
  recorded_run, validate_run_state-execute_dispatch_run,
}
use complytime_providers.Dispatch.Core.Reporting.{validate_run_model-execute_dispatch_run}
use complytime_providers.Dispatch.Core.Refused.{validate_run_model-execute_host}
use complytime_providers.Dispatch.Redispatch.{redispatch_failed_runs}
use complytime_providers.Dispatch.Archive.{Session, RedispatchCalls}
use complytime_providers.Dispatch.Redispatch.Once.{IsSeparate}
use complytime_providers.Dispatch.Redispatch.Recoverable.{IsRecoverable}
use complytime_providers.Dispatch.Redispatch.Recovering.{
  IsTidy, redispatch_failed_runs-kept, redispatch_failed_runs-IsRecoverable,
}

-- A date is read off its first character.
abbrev first_unit : Text → Option ℕ
first_unit [] = none
first_unit (c ∷ s) = some c

abbrev js : Runtime
js = record {
  lower = λ s. s;
  nfc = λ s. s;
  locale_leb = text_leb;
  date_parse = first_unit;
  stringify = λ s. s;
}

abbrev guard_agent : Text
guard_agent = txt "divisor-guard"

abbrev answer : ChildMessage
answer = record {
  provider_id = txt "p";
  model_id = txt "m";
  error = none;
  parts = text_part (txt "done") false ∷ step_finish 3 (record { input = 1; output = 2 }) ∷ [];
}

abbrev calm : Agenda
calm = record {
  aborted = false;
  while_creating = [];
  created = resolved (record { value = some (txt "s1"); failure = none; http_status = none });
  while_prompting = [];
  prompted = resolved (record { value = some answer; failure = none; http_status = none });
}

abbrev identity : ModelIdentity
identity = record { provider_id = txt "p"; model_id = txt "m"; combined = txt "p/m" }

-- The time runs out while the child is prompted, and the parent cancels behind it.
abbrev hasty : Agenda
hasty = record calm { while_prompting = expire ∷ cancel ∷ [] }

execute_agent_session-IsSettled_example :
    IsSettled
      (make_provenance guard_agent (some (txt "p/m")) none true)
      identity
      (execute_agent_session
        (λ t. t)
        (make_provenance guard_agent (some (txt "p/m")) none true)
        identity
        hasty).0
      (execute_agent_session
        (λ t. t)
        (make_provenance guard_agent (some (txt "p/m")) none true)
        identity
        hasty).1
unfolding make_provenance
execute_agent_session-IsSettled_example =
    execute_agent_session-IsSettled (λ t. t)
      (make_provenance guard_agent (some (txt "p/m")) none true) identity (refl, refl) hasty

abbrev in_each {ℓ} : {A : Type ℓ} → A → PerMode A
in_each a = record { code = a; spec = a; triage = a; feedback = a }

abbrev matrix : Matrix
matrix = record {
  version = 1;
  profiles = (txt "standard", record { model = some (txt "p/m"); variant = none }) ∷ [];
  defaults = in_each (txt "standard");
  always = [];
  advisors = in_each [];
  runs = in_each [];
  risk_augmentation = none;
  limits = none;
}

abbrev reviewer : Text → Reviewer
reviewer agent = record { agent = agent; capability = review; scopes = plain ∷ [] }

abbrev world : World
world = record {
  redact = λ t. t;
  policies = ok (matrix, reviewer guard_agent ∷ reviewer (txt "divisor-adversary") ∷ []);
  host_message = err [];
  is_aborted = false;
  agenda = calm;
  started_at = txt "1";
  finished_at = txt "2";
  run_id = txt "r9";
  makes_folder = true;
  writes = true;
  leaves_part = false;
  renames = true;
  unlinks = true;
}

abbrev options : RunOptions
options = record {
  agent = guard_agent;
  prompt_text = txt "review this";
  correlation_id = txt "d1";
  sequence = 1;
  read_only = true;
  source = explicit;
  model = some (txt "p/m");
  tier = none;
  variant = none;
}

abbrev entry : PlanEntry
entry = record {
  agent = guard_agent;
  decision = include;
  reason_code = txt "scope_match";
  reason = [];
  source = explicit;
  sequence = 1;
  read_only = true;
  tier = none;
  model = some (txt "p/m");
  variant = none;
  validation_errors = [];
}

abbrev finding : Finding
finding = record {
  severity = high;
  category = txt "security";
  description = txt "race";
  root_cause = txt "race";
  file = none;
  line = none;
}

-- What the dispatch records of the calm session.
abbrev good_run : PersistedRun
good_run = record {
  correlation_id = txt "d1";
  run_id = txt "r9";
  agent = guard_agent;
  source = explicit;
  sequence = 1;
  status = success;
  started_at = txt "1";
  finished_at = txt "2";
  requested_model = some (txt "p/m");
  provider = some (txt "p");
  model_id = some (txt "m");
  variant = none;
  resolved_parent_model = none;
  resolved_parent_variant = none;
  reported_model = some (txt "p/m");
  model_mismatch = false;
  usage = some (record { cost_usd = some 3; tokens = some (record { input = 1; output = 2 }) });
  error = none;
  workflow_verdict = none;
  findings = finding ∷ [];
  proposals = [];
  text = txt "done";
  read_only = true;
  prompt = some (txt "review this");
  post_submission_abort = none;
  discarded_submissions = none;
}

abbrev submissions : Submissions
submissions = (txt "s1", record { findings = finding ∷ []; proposals = [] }) ∷ []

abbrev host_options : RunOptions
host_options = record options { source = host; model = none }

recorded : recorded_run (execute_dispatch_run world options submissions []) ≡ some good_run
unfolding execute_dispatch_run txt
recorded = refl

recorded_host :
    recorded_run (execute_dispatch_run world host_options submissions [])
    ≡ some (record good_run { source = host })
unfolding execute_dispatch_run txt tier_named
recorded_host = refl

validate_run_state-execute_dispatch_run_example :
    validate_run_state js (dispatch_run council good_run) ≡ []
unfolding earlier txt
validate_run_state-execute_dispatch_run_example =
    validate_run_state-execute_dispatch_run world options js council submissions [] good_run refl
      recorded

validate_run_model-execute_dispatch_run_example :
    is_cons (validate_run_model (dispatch_run council good_run) entry) ≡ false
unfolding at_first_slash txt
validate_run_model-execute_dispatch_run_example =
    validate_run_model-execute_dispatch_run world options entry (txt "p/m") (txt "p") (txt "m") refl
      refl refl refl (refl, refl) council submissions [] good_run recorded

validate_run_model-execute_host_example :
    is_cons (validate_run_model (dispatch_run council (record good_run { source = host })) entry)
    ≡ true
validate_run_model-execute_host_example =
    validate_run_model-execute_host world host_options council submissions []
      (record good_run { source = host }) entry refl recorded_host

-- The run of another reviewer, which has failed behind its submissions.
abbrev bad_run : PersistedRun
bad_run = record good_run {
  run_id = txt "r1";
  agent = txt "divisor-adversary";
  status = failed;
  error = some (record { code = txt "timeout"; message = []; retryable = true });
}

abbrev good_file : Text
good_file = txt "run-divisor-guard.json"

abbrev bad_file : Text
bad_file = txt "run-divisor-adversary.json"

abbrev folder : Folder
folder = (good_file, run_file good_run) ∷ (bad_file, run_file bad_run) ∷ []

abbrev sound_calls : DiscardCalls
sound_calls = record {
  listed = true;
  discarded_at = txt "3";
  write = λ file. none;
  leaves_part = λ file. false;
  rename = λ file. none;
  unlink = λ file. true;
}

discard_orphaned_submissions-IsKept_example :
    IsKept
      (txt "3")
      (some (run_file bad_run))
      (get (discard_orphaned_submissions sound_calls none folder).1 bad_file)
unfolding is_run_name get txt ◌==◌
discard_orphaned_submissions-IsKept_example =
    discard_orphaned_submissions-IsKept sound_calls none folder bad_file refl

abbrev metadata : Metadata
metadata = record {
  command = review_council;
  input_context = local (txt "abc");
  change_profile = diff;
  plan = entry ∷ [];
}

consolidate_dispatch-discard_example :
    without_warnings (
      consolidate_dispatch js true
        (valid_metadata metadata)
        (discard_orphaned_submissions sound_calls none folder).1)
    ≡ without_warnings (consolidate_dispatch js true (valid_metadata metadata) folder)
consolidate_dispatch-discard_example =
    consolidate_dispatch-discard js true (valid_metadata metadata) sound_calls none folder

sound : Succeeds sound_calls
sound = record { lists = refl; writes = λ file. refl; renames = λ file. refl }

warnings_of-consolidate_dispatch_example :
    warnings_of (
      consolidate_dispatch js true
        (valid_metadata metadata)
        (discard_orphaned_submissions sound_calls none folder).1)
    ≡ []
warnings_of-consolidate_dispatch_example =
    warnings_of-consolidate_dispatch js true (valid_metadata metadata) sound_calls folder sound

-- The run that is executed again leaves no run file, and the prior one cannot be restored.
abbrev lost_calls : RedispatchCalls
lost_calls = record {
  correlation_id = txt "d1";
  listed = true;
  archives = λ run. true;
  restores = λ run. false;
  worlds = λ run. record world { writes = false };
}

abbrev plan : List PlanEntry
plan = entry ∷ record entry { agent = txt "divisor-adversary" } ∷ []

abbrev session : Session
session = record { store = submissions; folder = folder; archive = [] }

folder-IsTidy : IsTidy folder
unfolding get txt
folder-IsTidy name run h there = ground (arith, ==_iff good_file name, ==_iff bad_file name)

redispatch_failed_runs-kept_example :
    get (redispatch_failed_runs js lost_calls plan none session).1.folder good_file
    ≡ some (run_file good_run)
unfolding is_run_name get txt ◌==◌
redispatch_failed_runs-kept_example =
    redispatch_failed_runs-kept js lost_calls plan none session folder-IsTidy good_file refl
      (λ run there. ground (arith, there))

folder-IsSeparate : IsSeparate folder
unfolding get txt
folder-IsSeparate name other run run' h k same = ground (
  arith,
  h,
  k,
  same,
  ==_iff good_file name,
  ==_iff bad_file name,
  ==_iff good_file other,
  ==_iff bad_file other,
)

redispatch_failed_runs-IsRecoverable_example :
    IsRecoverable bad_file
      (run_file bad_run)
      (redispatch_failed_runs js lost_calls plan none session).0.runs
      (redispatch_failed_runs js lost_calls plan none session).1
unfolding is_run_name includes get txt ◌==◌
redispatch_failed_runs-IsRecoverable_example =
    redispatch_failed_runs-IsRecoverable js lost_calls plan none session folder-IsTidy
      (refl, (refl, tt)) folder-IsSeparate bad_file (run_file bad_run) refl refl

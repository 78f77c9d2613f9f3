-- ===== src/Review/Model.antt =====
-- .opencode/plugins/review-dispatch/index.ts: the data of a review dispatch, as its schemas give it.
use complytime_providers.Prelude.{ℕ, Text, txt, Bool, true, false, Option, List, nat_eq}

pub data Severity : Type 0 where
  critical high medium low : Severity

-- The generic verdicts, the verdicts of a single run, and the values of a workflow result: the
-- source's unions of string literals are subsets of this one.
pub data Verdict : Type 0 where
  approve approve_with_advisories request_changes : Verdict
  valid invalid needs_clarification : Verdict
  accept author_decides : Verdict
  inconclusive unavailable : Verdict

abbrev verdict_index : Verdict → ℕ
verdict_index approve = 0
verdict_index approve_with_advisories = 1
verdict_index request_changes = 2
verdict_index valid = 3
verdict_index invalid = 4
verdict_index needs_clarification = 5
verdict_index accept = 6
verdict_index author_decides = 7
verdict_index inconclusive = 8
verdict_index unavailable = 9

-- `a === b` on verdicts
abbrev pub is_verdict : Verdict → Verdict → Bool
is_verdict a b = nat_eq (verdict_index a) (verdict_index b)

unfoldable pub verdict_text : Verdict → Text
unfolding txt
verdict_text approve = txt "APPROVE"
verdict_text approve_with_advisories = txt "APPROVE WITH ADVISORIES"
verdict_text request_changes = txt "REQUEST CHANGES"
verdict_text valid = txt "VALID"
verdict_text invalid = txt "INVALID"
verdict_text needs_clarification = txt "NEEDS-CLARIFICATION"
verdict_text accept = txt "ACCEPT"
verdict_text author_decides = txt "AUTHOR-DECIDES"
verdict_text inconclusive = txt "INCONCLUSIVE"
verdict_text unavailable = txt "UNAVAILABLE"

pub data Kind : Type 0 where
  council triage feedback test_review : Kind

unfoldable pub kind_text : Kind → Text
unfolding txt
kind_text council = txt "council"
kind_text triage = txt "triage"
kind_text feedback = txt "feedback"
kind_text test_review = txt "test-review"

pub data Command : Type 0 where
  review_council triage_issue address_feedback speckit_testreview : Command

pub data Status : Type 0 where
  pending running success failed skipped budget_skipped limit_skipped cancelled : Status

abbrev status_index : Status → ℕ
status_index pending = 0
status_index running = 1
status_index success = 2
status_index failed = 3
status_index skipped = 4
status_index budget_skipped = 5
status_index limit_skipped = 6
status_index cancelled = 7

-- `a === b` on statuses
abbrev pub is_status : Status → Status → Bool
is_status a b = nat_eq (status_index a) (status_index b)

unfoldable pub status_text : Status → Text
unfolding txt
status_text pending = txt "pending"
status_text running = txt "running"
status_text success = txt "success"
status_text failed = txt "failed"
status_text skipped = txt "skipped"
status_text budget_skipped = txt "budget_skipped"
status_text limit_skipped = txt "limit_skipped"
status_text cancelled = txt "cancelled"

pub data Source : Type 0 where
  explicit advisor host : Source

unfoldable pub source_text : Source → Text
unfolding txt
source_text explicit = txt "explicit"
source_text advisor = txt "advisor"
source_text host = txt "host"

pub data Tier : Type 0 where
  lightweight standard heavy : Tier

unfoldable pub tier_text : Tier → Text
unfolding txt
tier_text lightweight = txt "lightweight"
tier_text standard = txt "standard"
tier_text heavy = txt "heavy"

pub data Decision : Type 0 where
  include skip : Decision

abbrev pub is_include : Decision → Bool
is_include include = true
is_include skip = false

pub record Tokens : Type 0 where
  pub input : ℕ
  pub output : ℕ

-- Costs are counted in a fixed fraction of a dollar.
pub record Usage : Type 0 where
  pub cost_usd : Option ℕ
  pub tokens : Option Tokens

pub record RunError : Type 0 where
  pub code : Text
  pub message : Text
  pub retryable : Bool

pub record Finding : Type 0 where
  pub severity : Severity
  pub category : Text
  pub description : Text
  pub root_cause : Text
  pub file : Option Text
  pub line : Option ℕ

pub record Run : Type 0 where
  pub run_id : Text
  pub agent : Text
  pub source : Source
  pub requested_model : Option Text
  pub provider : Option Text
  pub model_id : Option Text
  pub variant : Option Text
  pub resolved_parent_model : Option Text
  pub resolved_parent_variant : Option Text
  pub sequence : ℕ
  pub status : Status
  pub started_at : Option Text
  pub finished_at : Option Text
  pub usage : Option Usage
  pub error : Option RunError
  pub reported_model : Option Text
  pub model_mismatch : Bool
  pub workflow_verdict : Option Verdict
  pub findings : List Finding

-- `finding` is extended by the ids of the runs that contributed it.
pub record Consolidated : Type 0 where
  pub finding : Finding
  pub run_ids : List Text

pub record Advisory : Type 0 where
  pub severity : Severity
  pub description : Text
  pub run_ids : List Text

pub record PlanEntry : Type 0 where
  pub agent : Text
  pub decision : Decision
  pub reason_code : Text
  pub reason : Text
  pub source : Source
  pub sequence : ℕ
  pub read_only : Bool
  pub tier : Option Tier
  pub model : Option Text
  pub variant : Option Text
  pub validation_errors : List Text

pub record RunCounts : Type 0 where
  pub total : ℕ
  pub success : ℕ
  pub failed : ℕ
  pub skipped : ℕ
  pub budget_skipped : ℕ
  pub limit_skipped : ℕ
  pub cancelled : ℕ

-- What the semantic validation reads of `input_context` and of `change_profile`.
pub data InputContext : Type 0 where
  pr local : (head_sha : Text) → InputContext
  issue : (content_sha256 : Text) → InputContext

pub data ProfileKind : Type 0 where
  diff : ProfileKind
  issue_profile : (content_sha256 : Text) → ProfileKind

pub record Payload : Type 0 where
  pub command : Command
  pub input_context : InputContext
  pub change_profile : ProfileKind
  pub plan : List PlanEntry
  pub runs : List Run
  pub findings : List Consolidated
  pub advisories : List Advisory
  pub verdict : Verdict
  pub verdict_reason : Text
  pub run_counts : RunCounts
  pub kind : Kind
  pub value : Verdict

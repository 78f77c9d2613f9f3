-- ===== src/Review/Outcome.antt =====
-- .opencode/plugins/review-dispatch/index.ts: `projectReviewVerdict`, and `finalizeReviewDispatch`
-- behind the check of its input's shape.
pub mod Closed
mod Tests
use complytime_providers.Prelude.{
  ℕ, Text, txt, ◌==◌, Bool, true, false, Option, none, some, List, [], ◌∷◌, ◌++◌, map, filter, any,
  includes, sort_by, Runtime,
}
use complytime_providers.Review.Model.{
  Severity, Verdict, approve, request_changes, invalid, inconclusive, verdict_text, Kind, Run,
  Finding, Consolidated, Payload,
}
use complytime_providers.Review.Votes.{
  successful_persona_votes, CouncilDecision, canonical_decision,
}
use complytime_providers.Review.Validate.OfPayload.{validate_payload_semantics}
use complytime_providers.Review.Finalize.{Folder, Calls, target_name, persist_envelope}

pub record CanonicalFinding : Type 0 where
  pub severity : Severity
  pub category : Text
  pub description : Text
  pub file : Option Text
  pub line : Option ℕ

abbrev pub canonical_finding : Consolidated → CanonicalFinding
canonical_finding c = record {
  severity = c.finding.severity;
  category = c.finding.category;
  description = c.finding.description;
  file = c.finding.file;
  line = c.finding.line;
}

pub data PersonaDecision : Type 0 where
  approves requests_changes : PersonaDecision

unfoldable pub persona_decision : Verdict → PersonaDecision
persona_decision request_changes = requests_changes
persona_decision invalid = requests_changes
persona_decision vote = approves

pub record PersonaVerdict : Type 0 where
  pub persona : Text
  pub decision : PersonaDecision
  pub findings : List CanonicalFinding
  pub summary : Text

pub record ReviewVerdict : Type 0 where
  pub council_decision : CouncilDecision
  pub persona_verdicts : List PersonaVerdict
  pub unresolved_findings : List CanonicalFinding

-- The findings to which a run of the persona has contributed.
unfoldable pub findings_of : Payload → Text → List CanonicalFinding
unfolding includes ◌==◌
findings_of payload persona =
    let run_ids =
      map (λ (run : Run). run.run_id) (filter (λ (run : Run). run.agent == persona) payload.runs) in
    map canonical_finding
      (filter (λ (c : Consolidated). any (includes run_ids) c.run_ids) payload.findings)

unfoldable pub persona_verdict : Payload → Text × Verdict → PersonaVerdict
unfolding persona_decision findings_of verdict_text txt
persona_verdict payload (persona, vote) = record {
  persona = persona;
  decision = persona_decision vote;
  findings = findings_of payload persona;
  summary = txt "Native verdict: " ++ verdict_text vote;
}

unfoldable pub project_review_verdict : Runtime → Payload → ReviewVerdict
unfolding canonical_decision persona_verdict successful_persona_votes sort_by
project_review_verdict js payload = record {
  council_decision = canonical_decision payload.verdict;
  persona_verdicts = map (persona_verdict payload) (
      sort_by (λ (a b : Text × Verdict). js.locale_leb a.0 b.0)
        (successful_persona_votes payload.kind payload.runs));
  unresolved_findings = map canonical_finding payload.findings;
}

-- Why a finalization has failed: the messages of the checks, or that the artifact was not persisted.
pub data Failure : Type 0 where
  invalid_payload : (errors : List Text) → Failure
  not_persisted : Failure

pub data Finalized : Type 0 where
  finalized :
      (operation_verdict : Verdict)
      → (correlation_id : Text) → (artifact : Text) → (review_verdict : ReviewVerdict) → Finalized
  failed :
      (operation_verdict : Verdict)
      → (correlation_id : Text) → (assessment : Option ReviewVerdict) → Failure
      → Finalized

-- What follows the writing of the envelope: the identifier of the artifact, if there is one.
unfoldable pub after_persist : Runtime → Payload → Text → Option Text × Folder → Finalized × Folder
unfolding project_review_verdict target_name
after_persist js payload correlation_id (none, after) = (
  failed inconclusive correlation_id (some (project_review_verdict js payload)) not_persisted,
  after,
)
after_persist js payload correlation_id (some published, after) = (
  finalized payload.verdict published (target_name published) (project_review_verdict js payload),
  after,
)

-- What follows the checks, given their messages.
unfoldable pub after_checks :
    Runtime → Payload → Text → Calls → Folder → List Text → Finalized × Folder
unfolding after_persist persist_envelope
after_checks js payload correlation_id calls folder [] =
    after_persist js payload correlation_id (persist_envelope calls correlation_id folder)
after_checks js payload correlation_id calls folder (message ∷ errors) =
    (failed inconclusive correlation_id none (invalid_payload (message ∷ errors)), folder)

unfoldable pub finalize_review_dispatch :
    Runtime → Payload → Text → Text → Calls → Folder → Finalized × Folder
unfolding after_checks validate_payload_semantics
finalize_review_dispatch js payload commit correlation_id calls folder =
    after_checks js payload correlation_id calls folder
      (validate_payload_semantics js payload commit)

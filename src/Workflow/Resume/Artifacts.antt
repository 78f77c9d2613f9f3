-- ===== src/Workflow/Resume/Artifacts.antt =====
-- .opencode/lib/review-dispatch-artifact.ts: `parseReviewDispatchArtifact`; and of
-- .opencode/plugins/uf-workflow/index.ts, `readDispatchArtifacts` and `mostRecentArtifact`.
use complytime_providers.Prelude.{
  ℕ, Text, txt, ◌==◌, Bool, true, false, not, ◌&&◌, ◌||◌, Option, none, some, List, [], ◌∷◌,
  if◌then◌else◌, ltb, nat_eq, text_leb, ends_with, any, or_else, Runtime, Result, ok, err,
}

pub record ArtifactSummary : Type 0 where
  pub source : Text
  pub mode : Text
  pub branch : Text
  pub head_sha : Text
  pub verdict : Text
  pub written_at : ℕ

-- The object that JSON reads from an artifact; a field that is missing, no string, or in an object
-- that is missing, is none.
pub record Envelope : Type 0 where
  pub artifact_type : Option Text
  pub mode : Option Text
  pub verdict : Option Text
  pub branch : Option Text
  pub head_sha : Option Text
  pub timestamp : Option Text

-- Milliseconds from the first instant of a Date; the epoch is the default.
abbrev epoch : ℕ
epoch = 8640000000000000

unfoldable pub written_at_of : Runtime → Option Text → ℕ
written_at_of rt none = epoch
written_at_of rt (some timestamp) = or_else (rt.date_parse timestamp) epoch

abbrev pub is_dispatch_type : Option Text → Bool
is_dispatch_type none = false
is_dispatch_type (some artifact_type) = artifact_type == txt "review-dispatch"

-- The four fields, or none where one is missing.
unfoldable pub summary_of :
    Text → ℕ → Option Text → Option Text → Option Text → Option Text → Option ArtifactSummary
summary_of source written_at (some mode) (some verdict) (some branch) (some head_sha) =
    some (record {
      source = source;
      mode = mode;
      branch = branch;
      head_sha = head_sha;
      verdict = verdict;
      written_at = written_at;
    })
summary_of source written_at _ _ _ _ = none

-- `JSON.parse` gives the envelope, or none where it throws or reads no object.
unfoldable pub parse_review_dispatch_artifact :
    Runtime → Option Envelope → Text → Option ArtifactSummary
unfolding written_at_of summary_of txt ◌==◌
parse_review_dispatch_artifact rt none source = none
parse_review_dispatch_artifact rt (some e) source =
    if is_dispatch_type e.artifact_type
    then summary_of source (written_at_of rt e.timestamp) e.mode e.verdict e.branch e.head_sha
    else none

-- The store of the artifacts: the names in its folder, or an error, and what JSON reads from a file.
pub data Listing : Type 0 where
  no_folder : Listing
  not_listed : (message : Text) → Listing
  names : (found : List Text) → Listing

pub record ArtifactStore : Type 0 where
  pub listing : Listing
  pub read_json : Text → Option Envelope

-- A name that the reader looks at.
unfoldable pub is_artifact_name : Text → Bool
unfolding ends_with txt
is_artifact_name name =
    ends_with name (txt ".json") && not (any (λ c. nat_eq c b'/' || nat_eq c b'\\') name)

abbrev pub add_summary : Option ArtifactSummary → List ArtifactSummary → List ArtifactSummary
add_summary none found = found
add_summary (some summary) found = summary ∷ found

unfoldable pub read_named : Runtime → ArtifactStore → List Text → List ArtifactSummary
unfolding is_artifact_name parse_review_dispatch_artifact
read_named rt store [] = []
read_named rt store (name ∷ more) =
    let rest = read_named rt store more in
    if is_artifact_name name
    then add_summary (parse_review_dispatch_artifact rt (store.read_json name) name) rest
    else rest

unfoldable pub read_dispatch_artifacts : Runtime → ArtifactStore → Result (List ArtifactSummary)
unfolding read_named
read_dispatch_artifacts rt store = elim store.listing [
  | no_folder ↦ ok []
  | not_listed message ↦ err message
  | names found ↦ ok (read_named rt store found)
]

-- `a > b` on strings
abbrev pub is_behind : Text → Text → Bool
is_behind a b = not (text_leb a b)

-- Whether a candidate replaces the most recent one so far.
unfoldable pub is_newer : ArtifactSummary → Option ArtifactSummary → Bool
unfolding text_leb
is_newer candidate none = true
is_newer candidate (some best) =
    ltb best.written_at candidate.written_at
    || (nat_eq candidate.written_at best.written_at && is_behind candidate.source best.source)

-- Whether a candidate is of the mode and of the branch.
unfoldable pub is_for : Text → Text → ArtifactSummary → Bool
unfolding ◌==◌
is_for mode branch candidate = candidate.mode == mode && candidate.branch == branch

-- The loop of `mostRecentArtifact`.
unfoldable pub most_recent_from :
    Text → Text → Option ArtifactSummary → List ArtifactSummary → Option ArtifactSummary
unfolding is_newer is_for
most_recent_from mode branch best [] = best
most_recent_from mode branch best (candidate ∷ candidates) =
    most_recent_from mode branch
      (if is_for mode branch candidate && is_newer candidate best then some candidate else best)
      candidates

unfoldable pub most_recent_artifact : List ArtifactSummary → Text → Text → Option ArtifactSummary
unfolding most_recent_from
most_recent_artifact candidates mode branch = most_recent_from mode branch none candidates

-- `APPROVE` and `APPROVE WITH ADVISORIES`
unfoldable pub is_approving_verdict : Text → Bool
unfolding ◌==◌ txt
is_approving_verdict verdict = verdict == txt "APPROVE" || verdict == txt "APPROVE WITH ADVISORIES"

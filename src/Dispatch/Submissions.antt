-- ===== src/Dispatch/Submissions.antt =====
-- .opencode/plugins/review-dispatch/index.ts: the submissions of the children, by their sessions.
use complytime_providers.Prelude.{
  Text, Option, none, some, List, [], ◌∷◌, ◌++◌, or_else, get, put, Assoc,
}
use complytime_providers.Review.Model.{Finding}
use complytime_providers.Review.Consolidate.{Proposal}
use complytime_providers.Dispatch.Folder.{remove}

pub record Submitted : Type 0 where
  pub findings : List Finding
  pub proposals : List Proposal

-- The submissions of the children, by session.
abbrev pub Submissions : Type 0
Submissions = Assoc Submitted

abbrev no_submissions : Submitted
no_submissions = record { findings = []; proposals = [] }

-- `submit_review_findings` and `submit_lesson_proposal`, in the session of a child
submit_review_findings : Submissions → Text → List Finding → Submissions
unfolding get put
submit_review_findings store session findings =
    let entry = or_else (get store session) no_submissions in
    put store session (record entry { findings = entry.findings ++ findings })

submit_lesson_proposal : Submissions → Text → Proposal → Submissions
unfolding get put
submit_lesson_proposal store session proposal =
    let entry = or_else (get store session) no_submissions in
    put store session (record entry { proposals = entry.proposals ++ proposal ∷ [] })

-- `submissionStore.get` and `delete`, for the child of a result.
unfoldable pub harvest : Submissions → Option Text → Submitted × Submissions
unfolding get remove
harvest store none = (no_submissions, store)
harvest store (some session) = (or_else (get store session) no_submissions, remove store session)

-- ===== src/Lib.antt =====
-- Two of the repository's OpenCode plugins: the review dispatch, which captures the diff of a change,
-- plans its review, runs the reviewers, consolidates what they report and finalizes the verdict, and
-- the workflow, which keeps the progress of a change and the list of its tasks.
--
-- The parts and the files that model them, all of .opencode/plugins/review-dispatch/index.ts unless
-- another file is named:
--   Review/Model         the data of a payload: runs, findings, plan entries, counts (the zod schemas)
--   Review/Votes         triageMajority to canonicalDecision: from the runs' verdicts to the value
--   Review/Validate      validatePayloadSemantics and each of its checks; a check returns the list of
--                        the messages that the source pushes, in the source's order
--   Review/Consolidate   deduplicateFindings to buildAdvisories, and the body of
--                        consolidate_dispatch from the run files that were read to the payload
--   Dispatch/Folder      the folder of a session's run files, and loadDispatchRunFiles
--   Dispatch/Consolidating    readRunFiles, and consolidate_dispatch on the folder
--   Dispatch/Executor    the results of a child session, of .opencode/lib/agent-executor.ts, with
--                        resolveHostModel in its HostModel and executeAgentSession in its Session
--   Dispatch/Submissions, Dispatch/Selecting   the store of the children's submissions; the options of
--                        executeDispatchRun and its choice of the model
--   Dispatch/Core        executeDispatchRun
--   Dispatch/Targets, Dispatch/Discard    resolveRecoveryTargets, discard_orphaned_submissions
--   Dispatch/Archive, Dispatch/Redispatch   restorePriorRunFile and the archive of run files, and
--                        redispatch_failed_runs, which archives a file and executes its run again
--   Review/Finalize      persistEnvelope and cleanupTemporary, on the folder of the artifacts
--   Review/Outcome       projectReviewVerdict and finalizeReviewDispatch
--   Plan/Policy          the review matrix, its limits and profiles; the reviewers of
--                        .opencode/lib/reviewer-manifest.ts
--   Plan/Paths, Plan/Profiles   the paths of a change, profileDiff and diffTier
--   Plan/Relevance, Plan/Runs, Plan/Cap   relevance; the runs of an agent; applyTierCap
--   Plan/Select, Plan/Resolve, Plan/Build   the two passes of buildPlan, its errors and advisories,
--                        failedPlan and planReviewDispatch
--   Diff/Base            resolveBaseRefWithDivergence of .opencode/lib/review-diff.ts
--   Diff/Lines           its functions on text: numstat, line counts, the diff of a new file
--   Diff/Capture         captureReviewDiff, with its budgets; git and the file system are the fields
--                        of the record Dependencies
--   Workflow/Names       sanitizeSlug and normalizeModelName of .opencode/lib/uf-workflow-types.ts
-- The other files of Workflow are about .opencode/plugins/uf-workflow/index.ts:
--   Workflow/Tasks       the lines of tasks.md, parseTasksText, findTaskLine,
--                        countUncheckedCheckboxes and the tool mark_task_complete
--   Workflow/Progress/State   the progress state, resolveKey, and the update of a state by a step
--   Workflow/Progress/Disk    statePath, readState, writeState and deleteState
--   Workflow/Progress/Tools   upsertCheckpointStep, checkpoint, get_progress and clear_progress
--   Workflow/Gate        uf_unleash_branch_gate, and classifyBranch of
--                        .opencode/lib/branch-classification.ts
--   Workflow/Resume/Artifacts parseReviewDispatchArtifact of .opencode/lib/review-dispatch-artifact.ts,
--                        readDispatchArtifacts and mostRecentArtifact
--   Workflow/Resume/Probes    the markers of spec.md, isAncestorOrEqual and specArtifactsDirty
--   Workflow/Resume/Detect, Workflow/Resume/Tool   the tool uf_unleash_detect_resume, which counts the
--                        open boxes of tasks.md and reads and records the progress
-- The captured diff's files are the changed files that the planner profiles. The planner's entries
-- are the plan of the session's metadata; consolidation copies it into the payload, and the validation
-- compares the payload's runs with it. An execution of an entry writes the run file that the recovery
-- tools rewrite and that consolidation reads.
--
-- A string is the list of its UTF-16 code units (Prelude/Strings). What the JavaScript runtime
-- decides by tables (case mapping, NFC, collation, Date.parse, JSON.stringify) is a field of the
-- record Runtime, an argument of the definitions that use it, with no assumption on it. A Map is an
-- association list in the order of insertion, a Set a list without repetitions (Prelude/Sets), an
-- absent or null value is none, and a thrown error is the err of a Result. Numbers that the schemas
-- hold to be integers are natural numbers; costs are counted in a fixed fraction of a dollar. All
-- loops are recursions on the list that the source iterates over, so none needs fuel; only decimal
-- recurses on a bound, the number itself, which is never less than the number of divisions by ten.
--
-- The disk of the workflow's progress is a function from paths, lists of segments, to what lstat finds
-- there; every call takes a disk and returns the one that it leaves. The errors of the file system and
-- the codec of JSON are the fields of the record Node; of the codec, only the round trip of the state
-- at hand is assumed, where a theorem names it. The order of the keys of an object is not observed.
-- The folder of the artifacts is a function from names to texts; what its calls answer in each attempt
-- is a field of the record Calls. The collisions that persistEnvelope repeats are a recursion on the 31
-- that may follow the first attempt, so that it makes 32 at most.
-- The folder of a session is an association list from names to what reading a file gives, a run or
-- nothing: the JSON between them is not part of the model, nor are the texts of parsing errors. What
-- the calls on it answer are fields of the records World, DiscardCalls and RedispatchCalls. The store
-- of the submissions is the one that is left when the session has ended. A session's signals, of the
-- parent and of the timer, are listed for each of its two waits in the record Agenda, so that a theorem
-- on every agenda is one on every order of events; the aborts that reach the child are listed.
-- A task file is missing, unreadable, or a text; what a write of it answers, and what one that fails
-- leaves, is an argument.
--
-- Git and the file system answer the capture of a diff as functions of their arguments: nothing
-- changes them between two calls of one capture.
--
-- Not modelled: the string patterns and length limits of the schemas, the file access of the policies
-- and of the session's metadata, the patterns that redact an error's text (the parameter redact), the
-- loop of dispatch_review_runs, dispatch_status, the prompts, the profile of an issue,
-- the check of the tools' arguments, the other tools of uf-workflow (git calls, delegation,
-- clarifications, routes, conflict markers), and the other plugins. Of a payload, the fields mode,
-- full, coverage, plan_version and correlation_id, which no check of the semantic validation reads,
-- are left out. Of a plan, the fields that repeat the input or the status are left out, and of a
-- session's records the notes of the audits and the texts of a redispatch's reasons.
mod Prelude
pub mod Review
pub mod Plan
pub mod Diff
pub mod Workflow
pub mod Dispatch

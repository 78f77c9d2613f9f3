-- ===== src/Dispatch.antt =====
-- The runs of a review dispatch: .opencode/lib/agent-executor.ts, and the dispatch core and the
-- recovery tools of .opencode/plugins/review-dispatch/index.ts.
pub mod Folder
pub mod Targets
pub mod Discard
pub mod Consolidating
pub mod Executor
pub mod Submissions
pub mod Selecting
pub mod Core
pub mod Archive
pub mod Redispatch
mod Tests

-- ===== src/Plan.antt =====
-- .opencode/plugins/review-dispatch/index.ts and .opencode/lib/reviewer-manifest.ts: the planner of a
-- review dispatch.
pub mod Policy
pub mod Paths
pub mod Profiles
pub mod Relevance
pub mod Runs
pub mod Cap
pub mod Select
pub mod Resolve
pub mod Build
mod Tests

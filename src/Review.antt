-- ===== src/Review.antt =====
-- .opencode/plugins/review-dispatch/index.ts: planning, voting, validation and consolidation of a
-- review dispatch.
pub mod Model
pub mod Votes
pub mod Validate
pub mod Consolidate
pub mod Finalize
pub mod Outcome
mod Tests

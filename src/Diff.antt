-- ===== src/Diff.antt =====
-- .opencode/lib/review-diff.ts: capturing the diff of a review.
pub mod Base
pub mod Lines
pub mod Capture
mod Tests

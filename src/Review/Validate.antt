-- ===== src/Review/Validate.antt =====
-- .opencode/plugins/review-dispatch/index.ts: the semantic validation of a dispatch payload, by the
-- functions of the source.
pub mod Keys
pub mod OfRun
pub mod OfPlan
pub mod OfCounts
pub mod OfFindings
pub mod OfPayload

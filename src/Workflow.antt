-- ===== src/Workflow.antt =====
-- .opencode/plugins/uf-workflow/index.ts: the state of a workflow between its steps.
pub mod Names
pub mod Progress
pub mod Tasks
pub mod Resume
pub mod Gate
mod Tests

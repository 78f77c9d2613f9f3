-- ===== src/Workflow/Progress.antt =====
-- .opencode/plugins/uf-workflow/index.ts: the progress of a workflow, and its tools.
pub mod State
pub mod Disk
pub mod Tools
pub mod Paths
pub mod Steps
pub mod Store
pub mod Readback
pub mod Guards
mod Tests

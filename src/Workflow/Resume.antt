-- ===== src/Workflow/Resume.antt =====
-- .opencode/plugins/uf-workflow/index.ts: how a workflow finds the step to resume from.
pub mod Artifacts
pub mod Probes
pub mod Detect
pub mod Tool
pub mod Newest
pub mod Reviewed
mod Tests

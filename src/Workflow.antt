-- ===== src/Workflow.antt =====
-- internal/workflowhelpers: what the workflows use of the SDK, with types.
pub mod Activities
pub mod SideEffects
pub mod Values
pub mod Replay
pub mod Children
pub mod History
pub mod Tests

-- ===== src/Workflow.antt =====
-- backend/app/services/workflow.py: the state machine of an evaluation.
pub mod Roles
pub mod Table
pub mod Apply
pub mod Advance
pub mod Diagram
pub mod Effects

-- ===== src/Scoring.antt =====
-- The scoring of backend/app/services/evaluation.py and `finalize_scoring` of
-- backend/app/services/workflow.py.
pub mod Floats
pub mod Words
pub mod Evidence
pub mod Compute
pub mod Finalize
pub mod Complete
mod Tests

-- ===== src/Cases.antt =====
-- backend/app/api/routers/evaluations.py: the endpoints that work on evaluation records.
pub mod Snapshot
pub mod Chain
pub mod Scores
pub mod Comments
pub mod Owners
pub mod Open
pub mod Deeds
mod Tests

-- ===== src/Model.antt =====
-- The data of the program: backend/app/models, as records and data types.
pub mod Enums
pub mod Values
pub mod Evaluation
pub mod Tables
pub mod Store

-- ===== src/Delivery.antt =====
-- backend/app/services/delivery.py: the outbox of notifications that leave the system.
pub mod Enqueue
pub mod Reach
pub mod Sweep
pub mod Retries
pub mod Endless
mod Tests

-- ===== src/System.antt =====
-- The whole service: uploads, the workers of internal/worker/pool.go, and the stages of
-- internal/invoice/service.go that they run on one store.
pub mod Isolation
pub mod Steps
pub mod Intake
pub mod Counts
pub mod Invariant
pub mod Handing
pub mod Uploading
pub mod Published

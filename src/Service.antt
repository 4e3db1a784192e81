-- ===== src/Service.antt =====
-- Package internal/invoice (service.go): uploads, the three stages of a job, and what they share.
pub mod Types
pub mod Apply
pub mod Cascade
pub mod Judging
pub mod Stages
pub mod Uploads

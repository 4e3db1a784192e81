-- ===== src/Openrouter.antt =====
-- internal/openrouter: the assistant that recovers the items of an invoice.
pub mod Assist
pub mod Client
pub mod Outcome

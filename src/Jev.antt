-- ===== src/Jev.antt =====
-- Package internal/jev: the call of TypeSafe and the judgment composed from its answers (client.go),
-- and the explanation of a stored judgment (explain.go).
pub mod Answers
pub mod Compose
pub mod Explain
pub mod Verdict
pub mod Questions
pub mod Client
pub mod Retries

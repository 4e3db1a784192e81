-- ===== src/Httpserver.antt =====
-- internal/httpserver: the API's handlers, their answers, and what a client can rely on.
pub mod Dto
pub mod Handlers
pub mod Health
pub mod Polling
pub mod Faithful

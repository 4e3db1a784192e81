-- ===== src/Program.antt =====
-- cmd/api/main.go: how the settings become the parts' options.
pub mod Wiring
pub mod Backends
pub mod Engines
pub mod Run
pub mod Parts

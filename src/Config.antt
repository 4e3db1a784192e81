-- ===== src/Config.antt =====
-- internal/config: the settings, where they are read from, and which are accepted.
pub mod Fields
pub mod Dotenv
pub mod Load
pub mod Validate

-- ===== src/Config.antt =====
-- The configuration of server/model/config.go: its records and modes, its defaults, and its check.
pub mod Record
pub mod Defaults
pub mod Validate
pub mod Load
pub mod Save

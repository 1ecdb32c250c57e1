-- ===== src/Command.antt =====
-- cmd/sbackup/main.go: what the commands decide, apart from what they print.
pub mod Secrets
pub mod Maintenance
pub mod Callbacks
pub mod Options
mod Tests

-- ===== src/Backup.antt =====
-- internal/backup/service.go: running a backup job, and the other commands on its repository.
pub mod Options
pub mod Retention
pub mod Commands
pub mod Run
pub mod Snapshots
mod Tests

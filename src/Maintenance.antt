-- ===== src/Maintenance.antt =====
-- maintenance/: the backup of the settings and the data in an archive, its check, and its restoration.
pub mod Settings
pub mod Files
pub mod Backup
pub mod Check
pub mod Sums
pub mod Validate
pub mod Round
pub mod Sound
pub mod Accepted
pub mod Data
pub mod Apply
pub mod Refused

-- ===== src/Tests.antt =====
-- The theorems at concrete inputs.
pub mod Data
pub mod Frames
pub mod Hex
pub mod PcLink
pub mod Exchanges
pub mod Polls
pub mod Workers
pub mod Trends
pub mod Tables
pub mod Masters
mod Logins
pub mod Settings
pub mod Backups
mod Registers
mod Restores

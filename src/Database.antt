-- ===== src/Database.antt =====
-- data_collection/database/DeviceDatabase.cpp: the restoration of data from a backup.
pub mod Rows
pub mod Stored
pub mod Tx
pub mod Registers
pub mod Restore
pub mod Calls
pub mod Rollback
pub mod Users

-- ===== src/Api.antt =====
-- api/ApiServer.cpp and data_collection/database/DeviceDatabase.cpp: how a user logs in and out.
pub mod Users
pub mod Sessions
pub mod Lockout
pub mod LastCall

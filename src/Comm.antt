-- ===== src/Comm.antt =====
-- data_collection/comm: the protocol clients and what they share.
pub mod Io
pub mod Bytes
pub mod Serial
pub mod Modbus
pub mod Client
pub mod Factory
pub mod PcLink

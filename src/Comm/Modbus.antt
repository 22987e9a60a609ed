-- ===== src/Comm/Modbus.antt =====
-- data_collection/comm/modbus: the Modbus clients.
pub mod Crc
pub mod Pdu
pub mod Rtu
pub mod Tcp
pub mod Ascii

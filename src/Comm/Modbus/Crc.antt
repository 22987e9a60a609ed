-- ===== src/Comm/Modbus/Crc.antt =====
-- data_collection/comm/modbus/ModbusRTUClient.cpp: the check sum of an RTU frame.
pub mod Detect
use swr.Base.{ℕ, zero, suc, ◌/◌, ◌%◌, bit_xor, List, [], ◌∷◌, ◌==◌, if◌then◌else◌}

-- `if (crc & 0x0001) { crc >>= 1; crc ^= 0xA001; } else { crc >>= 1; }`
unfoldable pub crc_bit : ℕ → ℕ
crc_bit crc = if crc % 2 == 1 then bit_xor (crc / 2) 0xA001 else crc / 2

unfoldable pub crc_bits : ℕ → ℕ → ℕ
crc_bits zero crc = crc
crc_bits (suc n) crc = crc_bits n (crc_bit crc)

unfoldable pub crc_loop : ℕ → List ℕ → ℕ
crc_loop crc [] = crc
crc_loop crc (byte ∷ data') = crc_loop (crc_bits 8 (bit_xor crc byte)) data'

unfoldable pub crc16 : List ℕ → ℕ
crc16 data' = crc_loop 0xFFFF data'

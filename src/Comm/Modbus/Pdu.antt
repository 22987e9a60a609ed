-- ===== src/Comm/Modbus/Pdu.antt =====
-- data_collection/comm/modbus: the request bodies, as ModbusASCIIClient.cpp builds them; the RTU
-- client puts its check sum behind the same bytes and the TCP client a header before them.
pub mod Verify
use swr.Base.{
  ℕ, ◌+◌, ◌*◌, ◌≤◌, ◌≡◌, List, [], ◌∷◌, ◌++◌, Bool, true, false, ◌==◌, ◌||◌, if◌then◌else◌, leb,
  length, bit_or,
}
use swr.Comm.Io.{
  Result, ok, at, check, ◌>>=◌, ◌>>◌, slave_mismatch, modbus_exception, function_mismatch,
  byte_count_mismatch, buffer_too_short, length_mismatch,
}
use swr.Comm.Bytes.{hi_byte, lo_byte, word_bytes, pack_coils}

-- Slave, function code, address and one 16-bit value.
unfoldable pub short_pdu : ℕ → ℕ → ℕ → ℕ → List ℕ
short_pdu slave function address value =
    lo_byte slave
    ∷ (function ∷ (hi_byte address ∷ (lo_byte address ∷ (hi_byte value ∷ (lo_byte value ∷ [])))))

unfoldable pub build_read_request : ℕ → ℕ → ℕ → ℕ → List ℕ
unfolding short_pdu
build_read_request slave function address quantity = short_pdu slave function address quantity

unfoldable pub build_write_single_coil_request : ℕ → ℕ → Bool → List ℕ
unfolding short_pdu
build_write_single_coil_request slave address value =
    short_pdu slave 0x05 address (if value then 0xFF00 else 0x0000)

unfoldable pub build_write_single_register_request : ℕ → ℕ → ℕ → List ℕ
unfolding short_pdu
build_write_single_register_request slave address value = short_pdu slave 0x06 address value

unfoldable pub build_write_multiple_coils_request : ℕ → ℕ → List Bool → List ℕ
unfolding short_pdu
build_write_multiple_coils_request slave address values =
    short_pdu slave 0x0F address (length values)
    ++ (lo_byte (length (pack_coils values)) ∷ pack_coils values)

unfoldable pub build_write_multiple_registers_request : ℕ → ℕ → List ℕ → List ℕ
unfolding short_pdu
build_write_multiple_registers_request slave address values =
    short_pdu slave 0x10 address (length values)
    ++ (lo_byte (length values * 2) ∷ word_bytes values)

-- `expectedFunction == 0x01 || expectedFunction == 0x03`.
abbrev pub is_read : ℕ → Bool
is_read function = function == 0x01 || function == 0x03

-- The part of `verifyResponse` that the three clients share: the slave, the function code and the
-- length of a body, whose `skip` bytes before the slave belong to the header. Every caller passes
-- a length that is not negative, so the test for that is dropped.
unfoldable pub verify_body : ℕ → ℕ → ℕ → ℕ → List ℕ → Result (Unit {0})
verify_body skip slave function expected body = do
  id ← at body skip
  check (id == lo_byte slave) (slave_mismatch slave id)
  code ← at body (skip + 1)
  exception ← at body (skip + 2)
  if code == lo_byte (bit_or function 0x80)
      then check false (modbus_exception exception)
      else check (code == function) function_mismatch
  if is_read function
      then (check (exception == expected) byte_count_mismatch
          >> check (leb (skip + 3 + expected) (length body)) buffer_too_short)
      else check (length body == skip + 2 + expected) length_mismatch

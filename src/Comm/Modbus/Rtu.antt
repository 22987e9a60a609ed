-- ===== src/Comm/Modbus/Rtu.antt =====
-- data_collection/comm/modbus/ModbusRTUClient.cpp: the client on the RS485 bus. A frame is a body
-- and its check sum, low byte first.
pub mod Frames
pub mod Corruption
pub mod Reads
pub mod Safety
use swr.Base.{
  ℕ, ◌+◌, ◌-◌, ◌*◌, ◌/◌, List, [], ◌∷◌, ◌++◌, Bool, true, false, ◌==◌, if◌then◌else◌, leb, length,
  take, bit_or,
}
use swr.Model.{DeviceConnection}
use swr.Comm.Io.{
  Result, ok, at, check, ◌>>=◌, ◌>>◌, Io, next, noting, too_short, crc_mismatch, bus_not_open,
}
use swr.Comm.Serial.{SerialBus, Session, note, fail, send_request}
use swr.Comm.Bytes.{hi_byte, lo_byte, read_word_list, read_bit_list}
use swr.Comm.Modbus.Crc.{crc16}
use swr.Comm.Modbus.Pdu

-- The last lines of every builder.
unfoldable pub add_crc : List ℕ → List ℕ
add_crc frame = frame ++ (lo_byte (crc16 frame) ∷ (hi_byte (crc16 frame) ∷ []))

unfoldable pub verify_response : ℕ → List ℕ → ℕ → ℕ → Result (Unit {0})
unfolding Pdu.verify_body
verify_response slave response function expected = do
  check (leb 5 (length response)) too_short
  let size = length response
  low ← at response (size - 2)
  high ← at response (size - 1)
  let payload = take (size - 2) response
  check (crc16 payload == bit_or (high * 256) low) crc_mismatch
  Pdu.verify_body 0 slave function expected payload

module _ {B : Type 0} (dev : SerialBus B) (fuel : ℕ) (c : DeviceConnection) where
  -- The reply to a request, once it passed `verifyResponse`.
  unfoldable pub request : List ℕ → ℕ → ℕ → Io (Session B) (List ℕ)
  request pdu function expected s =
      next (send_request dev fuel 200 c (add_crc pdu) s) λ response s'.
        next (noting note (verify_response c.slave_id response function expected) s')
          λ _ s''. (ok response, s'')

  unfoldable pub when_open : {A : Type 0} → Io (Session B) A → Io (Session B) A
  when_open call s = if dev.is_open s.bus then call s else fail bus_not_open s

  unfoldable pub read_words_open : ℕ → ℕ → Io (Session B) (List ℕ)
  unfolding request
  read_words_open address count s =
      next (request (Pdu.build_read_request c.slave_id 0x03 address count) 0x03 (count * 2) s)
        λ response s'. (read_word_list response 3 count, s')

  unfoldable pub read_words : ℕ → ℕ → Io (Session B) (List ℕ)
  unfolding read_words_open when_open
  read_words address count s = when_open (read_words_open address count) s

  unfoldable pub read_bits_open : ℕ → ℕ → Io (Session B) (List Bool)
  unfolding request
  read_bits_open address count s =
      next (request (Pdu.build_read_request c.slave_id 0x01 address count) 0x01 ((count + 7) / 8) s)
        λ response s'. (read_bit_list response 3 0 count, s')

  unfoldable pub read_bits : ℕ → ℕ → Io (Session B) (List Bool)
  unfolding read_bits_open when_open
  read_bits address count s = when_open (read_bits_open address count) s

  write_done : List ℕ → ℕ → Io (Session B) (Unit {0})
  unfolding request
  write_done pdu function s = next (request pdu function 4 s) λ _ s'. (ok tt, s')

  unfoldable pub write_words : ℕ → List ℕ → Io (Session B) (Unit {0})
  unfolding write_done when_open
  write_words address (v ∷ []) =
      when_open (write_done (Pdu.build_write_single_register_request c.slave_id address v) 0x06)
  write_words address values =
      when_open
        (write_done (Pdu.build_write_multiple_registers_request c.slave_id address values) 0x10)

  unfoldable pub write_bits : ℕ → List Bool → Io (Session B) (Unit {0})
  unfolding write_done when_open
  write_bits address (v ∷ []) =
      when_open (write_done (Pdu.build_write_single_coil_request c.slave_id address v) 0x05)
  write_bits address values =
      when_open (write_done (Pdu.build_write_multiple_coils_request c.slave_id address values) 0x0F)

-- ===== src/Comm/PcLink/Serial.antt =====
-- data_collection/comm/pclink/PcLinkClient.cpp: the client on the RS485 bus.
use swr.Base.{
  ℕ, zero, suc, ◌+◌, ◌-◌, ◌*◌, none, some, List, [], ◌∷◌, ◌++◌, ◌==◌, leb, if◌then◌else◌, length,
}
use swr.Model.{DeviceConnection}
use swr.Comm.Io.{
  bus_not_open, too_short, missing_stx, checksum_mismatch, invalid_hex_data, write_rejected,
  bit_read_unsupported, bit_write_unsupported, Result, ok, err, check, at, ◌>>=◌, ◌>>◌, Io, next,
  noting,
}
use swr.Comm.Serial.{SerialBus, Session, note, fail}
use swr.Comm.Serial
use swr.Comm.Modbus.Ascii.{byte_sum}
use swr.Comm.Client.{DeviceClient, or_no_text}
use swr.Comm.PcLink.{NumberText, eq_bytes, mid, hex_words}

module _ (text : NumberText) where
  -- Two digits of the sum of the bytes, a `quint8` that wraps.
  unfoldable pub checksum : List ℕ → List ℕ
  unfolding byte_sum
  checksum bytes = text.hex 2 (byte_sum bytes 0)

  abbrev pub framed : List ℕ → List ℕ
  framed body = 0x05 ∷ (body ++ (checksum body ++ (0x04 ∷ [])))

  -- `RD01`.
  unfoldable pub build_read_frame : DeviceConnection → ℕ → ℕ → List ℕ
  unfolding checksum
  build_read_frame c address count = framed (
      text.hex 2 c.slave_id
      ++ ((0x52 ∷ (0x44 ∷ (0x30 ∷ (0x31 ∷ [])))) ++ (text.hex 4 address ++ text.hex 2 count)))

  -- `WD01`.
  unfoldable pub build_write_frame : DeviceConnection → ℕ → List ℕ → List ℕ
  unfolding checksum
  build_write_frame c address values = framed (
      text.hex 2 c.slave_id
      ++ ((0x57 ∷ (0x44 ∷ (0x30 ∷ (0x31 ∷ []))))
          ++ (text.hex 4 address ++ (text.hex 2 (length values) ++ hex_words text values))))

  -- The words from the offset on, `n` of them.
  unfoldable pub read_hex_words : ℕ → ℕ → List ℕ → Result (List ℕ)
  read_hex_words zero offset response = ok []
  read_hex_words (suc n) offset response =
      let rest = read_hex_words n (offset + 4) response in
      elim (text.parse_hex (mid response offset 4)) [
        | none ↦ err invalid_hex_data
        | some word ↦ rest >>= λ words. ok (word ∷ words)
      ]

  unfoldable pub parse_read_response : ℕ → List ℕ → Result (List ℕ)
  unfolding checksum read_hex_words
  parse_read_response count response = do
    check (leb (10 + count * 4) (length response)) too_short
    first ← at response 0
    check (first == 0x02) missing_stx
    check
        (eq_bytes (checksum (mid response 1 (length response - 4)))
          (mid response (length response - 3) 2))
        checksum_mismatch
    read_hex_words count 7 response

  unfoldable pub parse_write_response : List ℕ → Result (Unit {0})
  parse_write_response [] = err write_rejected
  parse_write_response (first ∷ rest) = check (first == 0x06) write_rejected

  module _ {B : Type 0} (dev : SerialBus B) (fuel : ℕ) (c : DeviceConnection) where
    -- The exchange, if the bus is open, with 50 ms of silence behind a reply.
    unfoldable pub pc_link_request : List ℕ → Io (Session B) (List ℕ)
    pc_link_request request s =
        if dev.is_open s.bus
        then Serial.send_request dev fuel 50 c request s
        else fail bus_not_open s

    unfoldable pub read_words : ℕ → ℕ → Io (Session B) (List ℕ)
    unfolding pc_link_request build_read_frame parse_read_response
    read_words address count s =
        next (pc_link_request (build_read_frame c address count) s)
          λ response. noting note (parse_read_response count response)

    unfoldable pub write_words : ℕ → List ℕ → Io (Session B) (Unit {0})
    unfolding pc_link_request build_write_frame parse_write_response
    write_words address values s =
        next (pc_link_request (build_write_frame c address values) s)
          λ response. noting note (parse_write_response response)

    unfoldable pub pc_link_client : DeviceClient (Session B)
    unfolding read_words write_words
    pc_link_client = record {
      connect = λ s. (dev.is_open s.bus, s);
      is_connected = λ s. dev.is_open s.bus;
      read_words = read_words;
      read_bits = λ address count. fail bit_read_unsupported;
      write_words = write_words;
      write_bits = λ address values. fail bit_write_unsupported;
      error_string = λ s. or_no_text s.last_error;
    }

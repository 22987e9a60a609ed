-- ===== src/Comm/Modbus/Ascii.antt =====
-- data_collection/comm/modbus/ModbusASCIIClient.cpp: the client whose frames are text, a colon,
-- the body and its check sum in hexadecimal digits, and a line end. Qt's conversions to and from
-- digits are a parameter.
pub mod Frames
use swr.Base.{
  ℕ, zero, suc, ◌+◌, ◌-◌, ◌*◌, ◌/◌, ◌%◌, Option, none, some, List, [], ◌∷◌, ◌++◌, Bool, true, false,
  ◌==◌, ◌&&◌, if◌then◌else◌, leb, length, take, drop,
}
use swr.Model.{DeviceConnection}
use swr.Comm.Io.{
  Error, Result, ok, err, check, at, ◌>>=◌, ◌>>◌, Io, next, noting, too_short, framing_error,
  invalid_hex_length, lrc_mismatch, bus_not_open,
}
use swr.Comm.Serial.{SerialBus, Session, note, fail}
use swr.Comm.Serial
use swr.Comm.Bytes.{read_word_list, read_bit_list}
use swr.Comm.Modbus.Pdu

-- `toHex().toUpper()`, a byte as two upper-case digits, and `QByteArray::fromHex`.
pub record HexCodec : Type 0 where
  pub to_hex_upper : List ℕ → List ℕ
  pub two_digits : ℕ → List ℕ
  pub from_hex : List ℕ → List ℕ

-- The `for` of `lrc`: a `quint8` that wraps.
unfoldable pub byte_sum : List ℕ → ℕ → ℕ
byte_sum [] sum = sum
byte_sum (b ∷ bs) sum = byte_sum bs ((sum + b) % 256)

-- `(~sum + 1) & 0xFF`, where `~sum` of an `int` is `-sum - 1`.
unfoldable pub lrc : List ℕ → ℕ
unfolding byte_sum
lrc bytes = (256 - byte_sum bytes 0) % 256

unfoldable pub build_ascii_frame : HexCodec → List ℕ → List ℕ
build_ascii_frame hex pdu =
    0x3A ∷ (hex.to_hex_upper pdu ++ (hex.two_digits (lrc pdu) ++ (0x0D ∷ (0x0A ∷ []))))

abbrev pub one_later : Option ℕ → Option ℕ
one_later none = none
one_later (some n) = some (suc n)

-- `QByteArray::indexOf` for one byte, and for a line end.
unfoldable pub index_of : ℕ → List ℕ → Option ℕ
index_of c [] = none
index_of c (x ∷ xs) = if x == c then some 0 else one_later (index_of c xs)

unfoldable pub index_of_line_end : List ℕ → Option ℕ
index_of_line_end [] = none
index_of_line_end (x ∷ []) = none
index_of_line_end (x ∷ (y ∷ xs)) =
    if (x == 0x0D && y == 0x0A) then some 0 else one_later (index_of_line_end (y ∷ xs))

-- The part of `parseAsciiFrame` behind `fromHex`.
unfoldable pub check_raw : List ℕ → Result (List ℕ)
check_raw raw = do
  check (leb 3 (length raw)) too_short
  received ← at raw (length raw - 1)
  check (lrc (take (length raw - 1) raw) == received) lrc_mismatch
  ok (take (length raw - 1) raw)

parse_payload : HexCodec → List ℕ → Result (List ℕ)
unfolding check_raw
parse_payload hex payload =
    check (length payload % 2 == 0) invalid_hex_length >> check_raw (hex.from_hex payload)

-- `end` is `start + n`: the search for the line end begins at the colon.
unfoldable pub parse_ascii_frame : HexCodec → List ℕ → Result (List ℕ)
unfolding parse_payload index_of index_of_line_end
parse_ascii_frame hex frame = elim (index_of 0x3A frame) [
  | none ↦ err framing_error
  | some start ↦ elim (index_of_line_end (drop start frame)) [
    | none ↦ err framing_error
    | some n ↦ parse_payload hex (take (n - 1) (drop (start + 1) frame))
  ]
]

unfoldable pub verify_response : ℕ → List ℕ → ℕ → ℕ → Result (Unit {0})
unfolding Pdu.verify_body
verify_response slave response function expected =
    check (leb 3 (length response)) too_short >> Pdu.verify_body 0 slave function expected response

module _ {B : Type 0} (dev : SerialBus B) (hex : HexCodec) (fuel : ℕ) (c : DeviceConnection) where
  unfoldable pub send_request : List ℕ → Io (Session B) (List ℕ)
  send_request request s =
      next (Serial.send_request dev fuel 200 c request s)
        λ response s'. noting note (parse_ascii_frame hex response) s'

  unfoldable pub request : List ℕ → ℕ → ℕ → Io (Session B) (List ℕ)
  unfolding send_request
  request pdu function expected s = next (send_request (build_ascii_frame hex pdu) s) λ response s'.
      next (noting note (verify_response c.slave_id response function expected) s')
        λ _ s2. (ok response, s2)

  unfoldable pub when_open : {A : Type 0} → Io (Session B) A → Io (Session B) A
  when_open call s = if dev.is_open s.bus then call s else fail bus_not_open s

  unfoldable pub read_words : ℕ → ℕ → Io (Session B) (List ℕ)
  unfolding when_open request
  read_words address count = when_open λ s.
      next (request (Pdu.build_read_request c.slave_id 0x03 address count) 0x03 (count * 2) s)
        λ response s'. (read_word_list response 3 count, s')

  unfoldable pub read_bits : ℕ → ℕ → Io (Session B) (List Bool)
  unfolding when_open request
  read_bits address count = when_open λ s.
      next (request (Pdu.build_read_request c.slave_id 0x01 address count) 0x01 ((count + 7) / 8) s)
        λ response s'. (read_bit_list response 3 0 count, s')

  done : List ℕ → ℕ → Io (Session B) (Unit {0})
  unfolding request
  done pdu function s = next (request pdu function 4 s) λ _ s'. (ok tt, s')

  unfoldable pub write_words : ℕ → List ℕ → Io (Session B) (Unit {0})
  unfolding when_open done
  write_words address (v ∷ []) =
      when_open (done (Pdu.build_write_single_register_request c.slave_id address v) 0x06)
  write_words address values =
      when_open (done (Pdu.build_write_multiple_registers_request c.slave_id address values) 0x10)

  unfoldable pub write_bits : ℕ → List Bool → Io (Session B) (Unit {0})
  unfolding when_open done
  write_bits address (v ∷ []) =
      when_open (done (Pdu.build_write_single_coil_request c.slave_id address v) 0x05)
  write_bits address values =
      when_open (done (Pdu.build_write_multiple_coils_request c.slave_id address values) 0x0F)

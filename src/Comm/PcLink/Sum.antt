-- ===== src/Comm/PcLink/Sum.antt =====
-- data_collection/comm/pclink/PcLinkSumTCPClient.cpp: the client with a socket of its own.
use swr.Base.{
  ℕ, zero, suc, ◌+◌, ◌-◌, ◌*◌, ◌%◌, Bool, true, false, not, ◌&&◌, Option, none, some, List, [], ◌∷◌,
  ◌++◌, ◌==◌, ltb, leb, if◌then◌else◌, length, get_or,
}
use swr.Model.{DeviceConnection}
use swr.Comm.Io.{
  Error, connect_failed, not_connected, write_timeout, read_timeout, checksum_mismatch,
  response_too_short, plc_error, unexpected_header, data_truncated, expected_comma, invalid_value,
  too_short, bit_read_unsupported, bit_write_unsupported, Result, ok, err, stuck, check, ◌>>=◌,
  ◌>>◌, Io, next, noting,
}
use swr.Comm.Modbus.Tcp.{TcpSocket}
use swr.Comm.Modbus.Ascii.{byte_sum}
use swr.Comm.Client.{DeviceClient, or_no_text}
use swr.Comm.PcLink.{NumberText, eq_bytes, mid}

-- `m_socket` and `m_lastError`.
pub record SumSession (T : Type 0) : Type 0 where
  pub socket : T
  pub last_error : Option Error

abbrev pub note : {T : Type 0} → Error → SumSession T → SumSession T
note e s = record s { last_error = some e }

abbrev pub fail : {T A : Type 0} → Error → Io (SumSession T) A
fail e s = (err e, note e s)

-- `endsWith("\r\n")`.
unfoldable pub ends_line : List ℕ → Bool
ends_line [] = false
ends_line (x ∷ []) = false
ends_line (x ∷ (y ∷ [])) = x == 0x0D && y == 0x0A
ends_line (x ∷ (y ∷ (z ∷ bs))) = ends_line (y ∷ (z ∷ bs))

module _ (text : NumberText) where
  abbrev pub sum_digits : List ℕ → List ℕ
  sum_digits body = text.hex 2 (byte_sum body 0)

  unfoldable pub wrap_frame : List ℕ → List ℕ
  unfolding byte_sum
  wrap_frame body = 0x02 ∷ (body ++ (sum_digits body ++ (0x0D ∷ (0x0A ∷ []))))

  -- `RSD,` and the count and the address in decimal digits.
  unfoldable pub build_rsd_frame : DeviceConnection → ℕ → ℕ → List ℕ
  unfolding wrap_frame
  build_rsd_frame c address count = wrap_frame (
      text.dec 2 c.slave_id
      ++ ((0x52 ∷ (0x53 ∷ (0x44 ∷ (0x2C ∷ []))))
          ++ (text.dec 2 count ++ (0x2C ∷ text.dec 4 address))))

  unfoldable pub comma_words : List ℕ → List ℕ
  comma_words [] = []
  comma_words (w ∷ ws) = (0x2C ∷ text.hex 4 w) ++ comma_words ws

  -- `WSD,`, with the values behind.
  unfoldable pub build_wsd_frame : DeviceConnection → ℕ → List ℕ → List ℕ
  unfolding wrap_frame comma_words
  build_wsd_frame c address values = wrap_frame (
      text.dec 2 c.slave_id
      ++ ((0x57 ∷ (0x53 ∷ (0x44 ∷ (0x2C ∷ []))))
          ++ (text.dec 2 (length values) ++ (0x2C ∷ (text.dec 4 address ++ comma_words values)))))

  -- Every index is below the length, which the first test makes at least 6.
  unfoldable pub verify_frame_sum : List ℕ → Bool
  unfolding eq_bytes
  verify_frame_sum frame =
      let n = length frame in
      not (ltb n 6)
      && (get_or frame 0 0 == 0x02
          && ((get_or frame (n - 2) 0 == 0x0D && get_or frame (n - 1) 0 == 0x0A)
              && eq_bytes (text.to_upper (mid frame (n - 4) 2)) (sum_digits (mid frame 1 (n - 5)))))

  -- The error of an `NG` frame.
  unfoldable pub check_ng_response : List ℕ → Option Error
  unfolding eq_bytes
  check_ng_response response =
      if ltb (length response) 11
      then none
      else if eq_bytes (mid response 3 2) (0x4E ∷ (0x47 ∷ []))
      then some (plc_error (text.parse_dec (mid response 5 2)))
      else none

  -- The values from `pos` on, `n` of them, the first of which is the value `i`.
  unfoldable pub read_values : ℕ → ℕ → ℕ → List ℕ → Result (List ℕ)
  read_values zero i pos response = ok []
  read_values (suc n) i pos response =
      let rest = read_values n (i + 1) (pos + 5) response in
      if ltb (length response - 4) (pos + 5)
      then err (data_truncated i)
      else if not (get_or response pos 0 == 0x2C)
      then err (expected_comma pos)
      else elim (text.parse_hex (mid response (pos + 1) 4)) [
        | none ↦ err (invalid_value (pos + 1))
        | some value ↦ rest >>= λ values. ok (value ∷ values)
      ]

  abbrev pub unless_ng : {A : Type 0} → List ℕ → Result A → Result A
  unless_ng response rest = elim (check_ng_response response) [ some e ↦ err e | none ↦ rest ]

  -- `RSD,OK`.
  unfoldable pub parse_rsd_response : ℕ → List ℕ → Result (List ℕ)
  unfolding check_ng_response verify_frame_sum read_values eq_bytes
  parse_rsd_response count response = unless_ng response (do
    check (verify_frame_sum response) checksum_mismatch
    check (leb (13 + count * 5) (length response))
        (response_too_short (length response) (13 + count * 5))
    check (eq_bytes (mid response 3 6) (0x52 ∷ (0x53 ∷ (0x44 ∷ (0x2C ∷ (0x4F ∷ (0x4B ∷ [])))))))
        (unexpected_header (mid response 3 6))
    read_values count 0 9 response)

  -- `WSD,OK`.
  unfoldable pub parse_wsd_response : List ℕ → Result (Unit {0})
  unfolding check_ng_response verify_frame_sum eq_bytes
  parse_wsd_response response = unless_ng response (do
    check (verify_frame_sum response) checksum_mismatch
    check (leb 13 (length response)) too_short
    check (eq_bytes (mid response 3 6) (0x57 ∷ (0x53 ∷ (0x44 ∷ (0x2C ∷ (0x4F ∷ (0x4B ∷ [])))))))
        (unexpected_header (mid response 3 6)))

module _ {T : Type 0} (dev : TcpSocket T) (c : DeviceConnection) where
  unfoldable pub connect : SumSession T → Bool × SumSession T
  connect s =
      let (connected, t) =
        dev.wait_for_connected c.timeout_ms
          (dev.connect_to_host c.ip_address (c.tcp_port % 65536) s.socket) in
      let s' = record s { socket = t } in
      if dev.is_connected s.socket
      then (true, s)
      else if connected
      then (true, s')
      else (false, note (connect_failed (dev.error_string t)) s')

  unfoldable pub disconnect : SumSession T → SumSession T
  disconnect s =
      if dev.is_connected s.socket
      then record s { socket = dev.wait_for_disconnected 1000 (dev.disconnect_from_host s.socket) }
      else s

  -- `while (true)`: until the reply ends with a line end, or nothing more arrives in time.
  unfoldable pub receive : ℕ → List ℕ → Io (SumSession T) (List ℕ)
  unfolding ends_line
  receive zero response s = (stuck, s)
  receive (suc fuel) response s =
      let (ready, t) = dev.wait_for_ready_read c.timeout_ms s.socket in
      let (chunk, t') = dev.read_all t in
      let more = receive fuel (response ++ chunk) (record s { socket = t' }) in
      if not ready
      then fail read_timeout (record s { socket = t })
      else if ends_line (response ++ chunk)
      then (ok (response ++ chunk), record s { socket = t' })
      else more

  unfoldable pub send_request : ℕ → List ℕ → Io (SumSession T) (List ℕ)
  unfolding receive
  send_request fuel request s =
      let (flushed, t) = dev.wait_for_bytes_written c.timeout_ms (dev.write request s.socket) in
      let s' = record s { socket = t } in
      if flushed then receive fuel [] s' else fail write_timeout s'

  abbrev pub when_connected : {A : Type 0} → Io (SumSession T) A → Io (SumSession T) A
  when_connected call s = if dev.is_connected s.socket then call s else fail not_connected s

  module _ (text : NumberText) (fuel : ℕ) where
    unfoldable pub read_words : ℕ → ℕ → Io (SumSession T) (List ℕ)
    unfolding send_request build_rsd_frame parse_rsd_response
    read_words address count = when_connected λ s.
        next (send_request fuel (build_rsd_frame text c address count) s)
          λ response. noting note (parse_rsd_response text count response)

    unfoldable pub write_words : ℕ → List ℕ → Io (SumSession T) (Unit {0})
    unfolding send_request build_wsd_frame parse_wsd_response
    write_words address values = when_connected λ s.
        next (send_request fuel (build_wsd_frame text c address values) s)
          λ response. noting note (parse_wsd_response text response)

    unfoldable pub pc_link_sum_client : DeviceClient (SumSession T)
    unfolding connect read_words write_words
    pc_link_sum_client = record {
      connect = connect;
      is_connected = λ s. dev.is_connected s.socket;
      read_words = read_words;
      read_bits = λ address count. fail bit_read_unsupported;
      write_words = write_words;
      write_bits = λ address values. fail bit_write_unsupported;
      error_string = λ s. or_no_text s.last_error;
    }

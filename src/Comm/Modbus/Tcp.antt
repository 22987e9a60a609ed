-- ===== src/Comm/Modbus/Tcp.antt =====
-- data_collection/comm/modbus/ModbusTCPClient.cpp: the client with a socket of its own. A frame is
-- a header with the number of the transaction and the length, then the body; it has no check sum.
-- The socket is a parameter.
pub mod Frames
use swr.Base.{
  ℕ, zero, suc, ◌+◌, ◌*◌, ◌/◌, ◌%◌, String, Option, none, some, List, [], ◌∷◌, ◌++◌, Bool, true,
  false, ◌==◌, if◌then◌else◌, leb, length,
}
use swr.Model.{DeviceConnection}
use swr.Comm.Io.{
  Error, no_error_text, Result, ok, err, stuck, check, ◌>>=◌, ◌>>◌, Io, next, noting, too_short,
  connect_failed, write_failed, response_timeout,
}
use swr.Comm.Serial.{timeout_or}
use swr.Comm.Bytes.{hi_byte, lo_byte, word_bytes, pack_coils, read_word_list, read_bit_list}
use swr.Comm.Modbus.Pdu

pub record TcpSocket (T : Type 0) : Type 0 where
  pub is_connected : T → Bool
  pub connect_to_host : String → ℕ → T → T
  pub wait_for_connected : ℕ → T → Bool × T
  pub disconnect_from_host : T → T
  pub wait_for_disconnected : ℕ → T → T
  pub write : List ℕ → T → T
  pub wait_for_bytes_written : ℕ → T → Bool × T
  pub wait_for_ready_read : ℕ → T → Bool × T
  pub read_all : T → List ℕ × T
  pub error_string : T → String

-- `m_socket`, `m_lastError` and `m_transactionId`, a `quint16` that starts at 1.
pub record TcpSession (T : Type 0) : Type 0 where
  pub socket : T
  pub last_error : Option Error
  pub transaction_id : ℕ

abbrev pub note : {T : Type 0} → Error → TcpSession T → TcpSession T
note e s = record s { last_error = some e }

abbrev pub fail : {T A : Type 0} → Error → Io (TcpSession T) A
fail e s = (err e, note e s)

-- The body for one of the six function codes that the client sends. A null pointer is `none`.
unfoldable pub tcp_pdu : ℕ → ℕ → ℕ → ℕ → Option (List Bool) → Option (List ℕ) → List ℕ
unfolding Pdu.short_pdu
tcp_pdu slave function start value coils registers =
    Pdu.short_pdu slave function start value
    ++ (if function == 0x0F
        then elim coils [
          | none ↦ []
          | some values ↦ lo_byte (length (pack_coils values)) ∷ pack_coils values
        ]
        else if function == 0x10
        then elim registers [ none ↦ [] | some values ↦ lo_byte (value * 2) ∷ word_bytes values ]
        else [])

abbrev pub mbap : ℕ → ℕ → List ℕ
mbap transaction size =
    hi_byte transaction ∷ (lo_byte transaction ∷ (0 ∷ (0 ∷ (hi_byte size ∷ (lo_byte size ∷ [])))))

unfoldable pub build_tcp_request :
    {T : Type 0}
    → DeviceConnection
    → ℕ
    → ℕ
    → ℕ
    → Option (List Bool)
    → Option (List ℕ)
    → TcpSession T
    → List ℕ × TcpSession T
unfolding tcp_pdu
build_tcp_request c function start value coils registers s =
    let pdu = tcp_pdu c.slave_id function start value coils registers in
    (
      mbap s.transaction_id (length pdu) ++ pdu,
      record s { transaction_id = (s.transaction_id + 1) % 65536 },
    )

unfoldable pub verify_response : ℕ → List ℕ → ℕ → ℕ → Result (Unit {0})
unfolding Pdu.verify_body
verify_response slave response function expected =
    check (leb 9 (length response)) too_short >> Pdu.verify_body 6 slave function expected response

module _ {T : Type 0} (sock : TcpSocket T) (fuel : ℕ) (c : DeviceConnection) where
  unfoldable pub connect : TcpSession T → Bool × TcpSession T
  connect s =
      let (connected, t) =
        sock.wait_for_connected (timeout_or c 5000)
          (sock.connect_to_host c.ip_address (c.tcp_port % 65536) s.socket) in
      if sock.is_connected s.socket
      then (true, s)
      else if connected
      then (true, record s { socket = t })
      else (false, note (connect_failed (sock.error_string t)) (record s { socket = t }))

  unfoldable pub disconnect : TcpSession T → TcpSession T
  disconnect s =
      if sock.is_connected s.socket
      then record s {
        socket = sock.wait_for_disconnected 1000 (sock.disconnect_from_host s.socket);
      }
      else s

  -- `while (m_socket.waitForReadyRead(200)) response.append(m_socket.readAll());`
  unfoldable pub drain : ℕ → List ℕ → Io T (List ℕ)
  drain zero response t = (stuck, t)
  drain (suc n) response t =
      let (ready, t') = sock.wait_for_ready_read 200 t in
      let (chunk, t'') = sock.read_all t' in
      let more = drain n (response ++ chunk) t'' in if ready then more else (ok response, t')

  long_reply : Result (List ℕ) × T → TcpSession T → Result (List ℕ) × TcpSession T
  long_reply (ok response, t) s =
      if leb 9 (length response)
      then (ok response, record s { socket = t })
      else fail too_short (record s { socket = t })
  long_reply (r, t) s = (r, record s { socket = t })

  unfoldable pub send_request : List ℕ → Io (TcpSession T) (List ℕ)
  unfolding drain long_reply
  send_request request s =
      let (flushed, t) =
        sock.wait_for_bytes_written (timeout_or c 3000) (sock.write request s.socket) in
      let (ready, t') = sock.wait_for_ready_read (timeout_or c 3000) t in
      let (first, t'') = sock.read_all t' in
      if flushed
      then (if ready
          then long_reply (drain fuel first t'') s
          else fail response_timeout (record s { socket = t' }))
      else fail (write_failed (sock.error_string t)) (record s { socket = t })

  unfoldable pub exchange :
      ℕ → ℕ → ℕ → Option (List Bool) → Option (List ℕ) → ℕ → Io (TcpSession T) (List ℕ)
  unfolding build_tcp_request send_request verify_response
  exchange function start value coils registers expected s =
      let (request, s') = build_tcp_request c function start value coils registers s in
      next (send_request request s') λ response s2.
        next (noting note (verify_response c.slave_id response function expected) s2)
          λ _ s3. (ok response, s3)

  no_text : Option Error → Error
  no_text none = no_error_text
  no_text (some e) = e

  -- `if (!isConnected() && !connect())`
  unfoldable pub when_connected : {A : Type 0} → Io (TcpSession T) A → Io (TcpSession T) A
  unfolding connect no_text
  when_connected call s =
      let (connected, s') = connect s in
      if connected then call s' else (err (no_text s'.last_error), s')

  unfoldable pub read_words : ℕ → ℕ → Io (TcpSession T) (List ℕ)
  unfolding when_connected exchange
  read_words address count = when_connected λ s.
      next (exchange 0x03 address count none none (count * 2) s)
        λ response s'. (read_word_list response 9 count, s')

  unfoldable pub read_bits : ℕ → ℕ → Io (TcpSession T) (List Bool)
  unfolding when_connected exchange
  read_bits address count = when_connected λ s.
      next (exchange 0x01 address count none none ((count + 7) / 8) s)
        λ response s'. (read_bit_list response 9 0 count, s')

  done : Io (TcpSession T) (List ℕ) → Io (TcpSession T) (Unit {0})
  done call s = next (call s) λ _ s'. (ok tt, s')

  unfoldable pub write_words : ℕ → List ℕ → Io (TcpSession T) (Unit {0})
  unfolding when_connected exchange done
  write_words address (v ∷ []) = when_connected (done (exchange 0x06 address v none none 4))
  write_words address values =
      when_connected (done (exchange 0x10 address (length values) none (some values) 4))

  unfoldable pub write_bits : ℕ → List Bool → Io (TcpSession T) (Unit {0})
  unfolding when_connected exchange done
  write_bits address (v ∷ []) =
      when_connected (done (exchange 0x05 address (if v then 0xFF00 else 0x0000) none none 4))
  write_bits address values =
      when_connected (done (exchange 0x0F address (length values) (some values) none 4))

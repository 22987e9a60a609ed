-- ===== src/Tests/Exchanges.antt =====
-- Requests on a bus that plays a script.
use swr.Base.{ℕ, ◌≡◌, refl, arith, Bool, true, false, List, [], ◌∷◌, length}
use swr.Comm.Io.{ok, Ends}
use swr.Comm.Bytes.{lo_byte, word_bytes, pack_coils, pack_loop, set_bit}
use swr.Comm.Serial.{send_request}
use swr.Comm.Serial.Exchange.{send_request_lem, quiet, more}
use swr.Comm.Modbus.Pdu
use swr.Comm.Modbus.Rtu.{add_crc, read_words, read_bits}
use swr.Comm.Modbus.Rtu.Reads.{read_words_reply}
use swr.Comm.Modbus.Rtu.Safety.{reads_in_range}
use swr.Tests.Data.{bus, session, connection}

-- The reply comes in two pieces.
send_request_lem_example :
    send_request bus 5 200 connection (1 ∷ (3 ∷ [])) (session ((7 ∷ []) ∷ ((8 ∷ (9 ∷ [])) ∷ [])))
    ≡ (ok (7 ∷ (8 ∷ (9 ∷ []))), session [])
send_request_lem_example =
    send_request_lem bus 200 connection 5 (1 ∷ (3 ∷ [])) (7 ∷ []) ((8 ∷ (9 ∷ [])) ∷ [])
      (session ((7 ∷ []) ∷ ((8 ∷ (9 ∷ [])) ∷ []))) ((7 ∷ []) ∷ ((8 ∷ (9 ∷ [])) ∷ []))
      ((7 ∷ []) ∷ ((8 ∷ (9 ∷ [])) ∷ [])) ((7 ∷ []) ∷ ((8 ∷ (9 ∷ [])) ∷ [])) ((8 ∷ (9 ∷ [])) ∷ []) []
      (omega arith) refl refl refl refl (more refl refl (quiet refl))

abbrev two_words : List ℕ
two_words = 513 ∷ (7 ∷ [])

abbrev words_reply : List ℕ
words_reply = add_crc (lo_byte 1 ∷ (0x03 ∷ (4 ∷ word_bytes two_words)))

words_answered :
    send_request bus 5 200 connection
      (add_crc (Pdu.build_read_request 1 0x03 12 2))
      (session (words_reply ∷ []))
    ≡ (ok words_reply, session [])
unfolding add_crc word_bytes
words_answered =
    send_request_lem bus 200 connection 5 _ words_reply [] (session (words_reply ∷ []))
      (words_reply ∷ []) (words_reply ∷ []) (words_reply ∷ []) [] [] (omega arith) refl refl refl
      refl (quiet refl)

read_words_reply_example :
    read_words bus 5 connection 12 2 (session (words_reply ∷ [])) ≡ (ok two_words, session [])
read_words_reply_example =
    read_words_reply bus 5 connection 12 two_words (session (words_reply ∷ [])) (session []) refl
      (omega arith, (omega arith, tt)) (omega arith) words_answered

abbrev three_coils : List Bool
three_coils = true ∷ (false ∷ (true ∷ []))

abbrev bits_reply : List ℕ
bits_reply = add_crc (lo_byte 1 ∷ (0x01 ∷ (1 ∷ pack_coils three_coils)))

bits_answered :
    send_request bus 5 200 connection
      (add_crc (Pdu.build_read_request 1 0x01 4 3))
      (session (bits_reply ∷ []))
    ≡ (ok bits_reply, session [])
unfolding add_crc pack_coils pack_loop set_bit
bits_answered =
    send_request_lem bus 200 connection 5 _ bits_reply [] (session (bits_reply ∷ []))
      (bits_reply ∷ []) (bits_reply ∷ []) (bits_reply ∷ []) [] [] (omega arith) refl refl refl refl
      (quiet refl)

-- A reply that is cut off.
reads_in_range_example :
    Ends
      (λ ws. length ws ≡ 2)
      (read_words bus 5 connection 12 2 (session ((1 ∷ (3 ∷ (4 ∷ []))) ∷ []))).0
    × Ends
        (λ bs. length bs ≡ 2)
        (read_bits bus 5 connection 12 2 (session ((1 ∷ (3 ∷ (4 ∷ []))) ∷ []))).0
reads_in_range_example = reads_in_range bus 5 connection 12 2 (session ((1 ∷ (3 ∷ (4 ∷ []))) ∷ []))

-- ===== src/Comm/Modbus/Rtu/Reads.antt =====
-- What the reads of the RTU client return, for every reply of the bus.
use swr.Base.{ℕ, ◌+◌, ◌*◌, ◌/◌, ◌<◌, ◌≡◌, refl, ap, arith, List, ◌∷◌, Bool, true, length, All}
use swr.Model.{DeviceConnection}
use swr.Comm.Io.{Result, ok}
use swr.Comm.Serial.{SerialBus, Session, send_request}
use swr.Comm.Bytes.{IsWord, lo_byte, word_bytes, read_word_list, read_bit_list, pack_coils}
use swr.Comm.Bytes.Words.{length-word_bytes, read_word_list-word_bytes, word_bytes-IsByte}
use swr.Comm.Bytes.Coils.{length-pack_coils, pack_coils-IsByte, read_bit_list-pack_coils}
use swr.Comm.Modbus.Pdu
use swr.Comm.Modbus.Rtu.{add_crc, verify_response, request, read_words, read_bits}
use swr.Comm.Modbus.Rtu.Frames.{verify_accepts}

reply_words :
    (slave function count : ℕ) (ws : List ℕ)
    → All IsWord ws
    → read_word_list (add_crc (slave ∷ (function ∷ (count ∷ word_bytes ws)))) 3 (length ws) ≡ ok ws
unfolding add_crc
reply_words slave function count ws h = read_word_list-word_bytes ws _ _ 3 h refl

reply_bits :
    (slave function count : ℕ) (vs : List Bool)
    → read_bit_list (add_crc (slave ∷ (function ∷ (count ∷ pack_coils vs)))) 3 0 (length vs) ≡ ok vs
unfolding add_crc
reply_bits slave function count vs = read_bit_list-pack_coils vs _ _ 3 refl

module _ {B : Type 0} (dev : SerialBus B) (fuel : ℕ) (c : DeviceConnection) where
  -- A request that the device answers with an accepted reply.
  request_answered :
      (pdu response : List ℕ) (function expected : ℕ) (s s' : Session B)
      → send_request dev fuel 200 c (add_crc pdu) s ≡ (ok response, s')
      → verify_response c.slave_id response function expected ≡ ok tt
      → request dev fuel c pdu function expected s ≡ (ok response, s')
  unfolding request
  request_answered pdu response function expected s s' e v = rw (e, v) refl

  -- On an open bus, if a read request is answered by a frame that carries the words `ws`, fewer
  -- than 128, `readWords` returns `ws`.
  pub read_words_reply :
      (address : ℕ) (ws : List ℕ) (s s' : Session B)
      → dev.is_open s.bus ≡ true
      → All IsWord ws
      → length ws * 2 < 256
      → send_request dev fuel 200 c
          (add_crc (Pdu.build_read_request c.slave_id 0x03 address (length ws)))
          s
        ≡ (ok (add_crc (lo_byte c.slave_id ∷ (0x03 ∷ ((length ws * 2) ∷ word_bytes ws)))), s')
      → read_words dev fuel c address (length ws) s ≡ (ok ws, s')
  unfolding read_words
  read_words_reply address ws s s' o h lt e =
      rw
        (
          o,
          request_answered _ _ 0x03 (length ws * 2) s s' e (
              verify_accepts c.slave_id 0x03 (length ws * 2) ((length ws * 2) ∷ word_bytes ws)
                (omega arith) (omega arith, word_bytes-IsByte ws)
                (refl, omega (arith, length-word_bytes ws))),
        )
        (ap (λ (r : Result (List ℕ)). (r, s')) (reply_words (lo_byte c.slave_id) 0x03 _ ws h))

  -- On an open bus, if a read request is answered by a frame that carries the coils `vs`, packed
  -- in fewer than 256 bytes, `readBits` returns `vs`.
  pub read_bits_reply :
      (address : ℕ) (vs : List Bool) (s s' : Session B)
      → dev.is_open s.bus ≡ true
      → (length vs + 7) / 8 < 256
      → send_request dev fuel 200 c
          (add_crc (Pdu.build_read_request c.slave_id 0x01 address (length vs)))
          s
        ≡ (ok (add_crc (lo_byte c.slave_id ∷ (0x01 ∷ (((length vs + 7) / 8) ∷ pack_coils vs)))), s')
      → read_bits dev fuel c address (length vs) s ≡ (ok vs, s')
  unfolding read_bits
  read_bits_reply address vs s s' o lt e =
      rw
        (
          o,
          request_answered _ _ 0x01 ((length vs + 7) / 8) s s' e (
              verify_accepts c.slave_id 0x01 ((length vs + 7) / 8)
                (((length vs + 7) / 8) ∷ pack_coils vs) (omega arith) (lt, pack_coils-IsByte vs)
                (refl, omega (arith, length-pack_coils vs))),
        )
        (ap (λ (r : Result (List Bool)). (r, s')) (reply_bits (lo_byte c.slave_id) 0x01 _ vs))

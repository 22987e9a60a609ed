-- ===== src/Comm/Modbus/Rtu/Safety.antt =====
-- The RTU client indexes no reply out of range, whatever bytes the bus delivers.
use swr.Base.{
  Bool-cases, inl, inr, ℕ, ◌+◌, ◌-◌, ◌*◌, ◌/◌, ◌≤◌, ◌≡◌, ◌≢◌, refl, ap, arith, List, [], ◌∷◌, true,
  length, length-append, length-take, split_last_two,
}
use mathlib.Core.Path.{subst}
use swr.Model.{DeviceConnection}
use swr.Comm.Io.{ok, fault, Ends, next-Ends, noting-Ends, ok-Ends, ne_fault-Ends, total-Ends}
use swr.Comm.Serial.{SerialBus, Session, note}
use swr.Comm.Serial.Exchange.{send_request-ne-fault}
use swr.Comm.Bytes.{read_word_list, read_bit_list}
use swr.Comm.Bytes.Words.{read_word_list_total}
use swr.Comm.Bytes.Coils.{read_bit_list_total}
use swr.Comm.Modbus.Pdu
use swr.Comm.Modbus.Pdu.Verify.{verify_body-ne-fault}
use swr.Comm.Modbus.Rtu.{
  add_crc, verify_response, request, read_words, read_bits, read_words_open, read_bits_open,
}
use swr.Comm.Modbus.Rtu.Frames.{verify_parts}

verify-ne-fault :
    (slave function expected : ℕ) (response : List ℕ)
    → verify_response slave response function expected ≢ fault
verify-ne-fault slave function expected [] e = unfold verify_response in cc e
verify-ne-fault slave function expected (a ∷ []) e = unfold verify_response in cc e
verify-ne-fault slave function expected (a ∷ (b ∷ [])) e = unfold verify_response in cc e
verify-ne-fault slave function expected (a ∷ (b ∷ (d ∷ []))) e = unfold verify_response in cc e
verify-ne-fault slave function expected (a ∷ (b ∷ (d ∷ (f ∷ [])))) e =
    unfold verify_response in cc e
verify-ne-fault slave function expected (a ∷ (b ∷ (d ∷ (f ∷ (g ∷ gs))))) e =
    let (frame, low, high, same) = split_last_two (a ∷ (b ∷ (d ∷ (f ∷ (g ∷ gs))))) (omega arith) in
    let long : 3 ≤ length frame =
      omega (arith, ap length same, length-append frame (low ∷ (high ∷ []))) in
    let e' = subst (λ r. verify_response slave r function expected ≡ fault) same e in
    ground (
      arith,
      verify_parts slave function expected low high frame long,
      verify_body-ne-fault slave function expected frame long,
    )

read_long :
    (slave function expected : ℕ) (response : List ℕ)
    → Pdu.is_read function ≡ true
    → verify_response slave response function expected ≡ ok tt
    → 3 + expected ≤ length response
unfolding verify_response
read_long slave function expected response r e =
    ground (arith, length-take (length response - 2) response)

module _ {B : Type 0} (dev : SerialBus B) (fuel : ℕ) (c : DeviceConnection) where
  -- What `request` hands on is long enough for a read to index.
  request-Ends :
      (pdu : List ℕ) (function expected : ℕ) (s : Session B)
      → Pdu.is_read function ≡ true
      → Ends
          (λ response. 3 + expected ≤ length response)
          (request dev fuel c pdu function expected s).0
  unfolding request
  request-Ends pdu function expected s r =
      next-Ends (λ _. Unit {0}) _ _ _
        (ne_fault-Ends _ (send_request-ne-fault dev 200 c fuel (add_crc pdu) s))
        λ response s' _.
          next-Ends (λ _. 3 + expected ≤ length response) _ _ _
            (noting-Ends _ note (verify_response c.slave_id response function expected) s' (
              ok-Ends _ _ (verify-ne-fault c.slave_id function expected response)
                λ _ e. read_long c.slave_id function expected response r e))
            λ _ _ h. h

  words_open-Ends :
      (address count : ℕ) (s : Session B)
      → Ends (λ ws. length ws ≡ count) (read_words_open dev fuel c address count s).0
  unfolding read_words_open
  words_open-Ends address count s =
      next-Ends (λ response. 3 + count * 2 ≤ length response) (λ ws. length ws ≡ count) _ _
        (request-Ends (Pdu.build_read_request c.slave_id 0x03 address count) 0x03 (count * 2) s
          refl)
        λ response s' h.
          let (ws, e, n) = read_word_list_total response 3 count h in
          total-Ends (λ l. length l ≡ count) (read_word_list response 3 count) ws e n

  bits_open-Ends :
      (address count : ℕ) (s : Session B)
      → Ends (λ bs. length bs ≡ count) (read_bits_open dev fuel c address count s).0
  unfolding read_bits_open
  bits_open-Ends address count s =
      next-Ends (λ response. 3 + (count + 7) / 8 ≤ length response) (λ bs. length bs ≡ count) _ _
        (request-Ends (Pdu.build_read_request c.slave_id 0x01 address count) 0x01 ((count + 7) / 8)
          s refl)
        λ response s' h.
          let (bs, e, n) = read_bit_list_total response 3 count h in
          total-Ends (λ l. length l ≡ count) (read_bit_list response 3 0 count) bs e n

  -- Whatever bytes the bus delivers, neither read indexes a reply out of range, and a read that
  -- succeeds returns as many words or coils as were asked for.
  pub reads_in_range :
      (address count : ℕ) (s : Session B)
      → Ends (λ ws. length ws ≡ count) (read_words dev fuel c address count s).0
        × Ends (λ bs. length bs ≡ count) (read_bits dev fuel c address count s).0
  unfolding read_words read_bits
  reads_in_range address count s = elim (Bool-cases (dev.is_open s.bus)) [
    | inl o ↦ (
      rw (o, read_words) (words_open-Ends address count s),
      rw (o, read_bits) (bits_open-Ends address count s),
    )
    | inr o ↦ (rw (o, read_words) tt, rw (o, read_bits) tt)
  ]

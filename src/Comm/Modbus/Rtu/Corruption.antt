-- ===== src/Comm/Modbus/Rtu/Corruption.antt =====
-- One corrupted byte of a reply is always noticed, wherever it stands.
use mathlib.Core.Path.{subst}
use mathlib.Core.List.{append_assoc}
use swr.Base.{
  ℕ, ◌*◌, ◌≤◌, ◌<◌, ◌≡◌, ◌≢◌, sym, ap, ◌∙◌, arith, List, [], ◌∷◌, ◌++◌, ◌==◌, bit_or, length,
  length-append, split_last, split_last_two, All, All-append_inv,
}
use swr.Base.Or.{bit_or_disjoint}
use swr.Comm.Io.{ok, check, ◌>>◌, crc_mismatch}
use swr.Comm.Bytes.{IsByte}
use swr.Comm.Modbus.Crc.{crc16}
use swr.Comm.Modbus.Crc.Detect.{crc16_detects_byte}
use swr.Comm.Modbus.Pdu.{verify_body}
use swr.Comm.Modbus.Rtu.{verify_response}
use swr.Comm.Modbus.Rtu.Frames.{verify_parts, long_enough}

module _ (slave function expected : ℕ) where
  accepted_crc :
      (frame : List ℕ) (low high : ℕ)
      → verify_response slave (frame ++ (low ∷ (high ∷ []))) function expected ≡ ok tt
      → crc16 frame ≡ bit_or (high * 256) low
  accepted_crc frame low high e = ground (arith, tests)
    where
      long : 3 ≤ length frame
      long =
          omega (
            arith,
            long_enough slave function expected _ e,
            length-append frame (low ∷ (high ∷ [])),
          )

      tests :
          (check (crc16 frame == bit_or (high * 256) low) crc_mismatch
            >> verify_body 0 slave function expected frame)
          ≡ ok tt
      tests = sym (verify_parts slave function expected low high frame long) ∙ e

  -- In the check sum's high byte, in its low byte, and before it.
  high_byte :
      (frame : List ℕ) (low x y : ℕ)
      → low < 256
      → verify_response slave (frame ++ (low ∷ (x ∷ []))) function expected ≡ ok tt
      → verify_response slave (frame ++ (low ∷ (y ∷ []))) function expected ≡ ok tt
      → x ≡ y
  high_byte frame low x y h ex ey = omega (
    arith,
    accepted_crc frame low x ex,
    accepted_crc frame low y ey,
    bit_or_disjoint 8 x low h,
    bit_or_disjoint 8 y low h,
  )

  low_byte :
      (frame : List ℕ) (high x y : ℕ)
      → x < 256
      → y < 256
      → verify_response slave (frame ++ (x ∷ (high ∷ []))) function expected ≡ ok tt
      → verify_response slave (frame ++ (y ∷ (high ∷ []))) function expected ≡ ok tt
      → x ≡ y
  low_byte frame high x y hx hy ex ey = omega (
    arith,
    accepted_crc frame x high ex,
    accepted_crc frame y high ey,
    bit_or_disjoint 8 high x hx,
    bit_or_disjoint 8 high y hy,
  )

  -- The two replies as frames before the same two bytes.
  regroup :
      (front back : List ℕ) (x low high : ℕ)
      → front ++ (x ∷ (back ++ (low ∷ (high ∷ [])))) ≡ front ++ (x ∷ back) ++ (low ∷ (high ∷ []))
  regroup front back x low high = sym (append_assoc front (x ∷ back) (low ∷ (high ∷ [])))

  body_byte :
      (front back : List ℕ) (x y low high : ℕ)
      → All IsByte front
      → All IsByte back
      → x < 256
      → y < 256
      → x ≢ y
      → verify_response slave (front ++ (x ∷ back) ++ (low ∷ (high ∷ []))) function expected ≡ ok tt
      → verify_response slave (front ++ (y ∷ back) ++ (low ∷ (high ∷ []))) function expected ≢ ok tt
  body_byte front back x y low high hf hb hx hy ne ex ey =
      crc16_detects_byte front back x y hf hb hx hy ne (
        accepted_crc (front ++ (x ∷ back)) low high ex
        ∙ sym (accepted_crc (front ++ (y ∷ back)) low high ey))

  last_byte :
      (front : List ℕ) (x y : ℕ)
      → All IsByte front
      → 1 ≤ length front
      → x ≢ y
      → verify_response slave (front ++ (x ∷ [])) function expected ≡ ok tt
      → verify_response slave (front ++ (y ∷ [])) function expected ≢ ok tt
  last_byte front x y hf le ne ex ey =
      let (frame, low, e) = split_last front le in
      let shape = λ (z : ℕ). ap (λ f. f ++ (z ∷ [])) e ∙ append_assoc frame (low ∷ []) (z ∷ []) in
      let own = (All-append_inv IsByte frame (low ∷ []) (subst (All IsByte) e hf)).1.0 in
      let at_x = subst (λ r. verify_response slave r function expected ≡ ok tt) (shape x) ex in
      let at_y = subst (λ r. verify_response slave r function expected ≡ ok tt) (shape y) ey in
      ne (high_byte frame low x y own at_x at_y)

  -- If a reply of bytes is accepted, no reply of bytes that differs from it in exactly one byte
  -- is.
  pub corrupted_byte :
      (front back : List ℕ) (x y : ℕ)
      → All IsByte front
      → All IsByte back
      → IsByte x
      → IsByte y
      → x ≢ y
      → verify_response slave (front ++ (x ∷ back)) function expected ≡ ok tt
      → verify_response slave (front ++ (y ∷ back)) function expected ≢ ok tt
  corrupted_byte front [] x y hf hb hx hy ne ex ey =
      last_byte front x y hf
        (omega (arith, long_enough slave function expected _ ex, length-append front (x ∷ []))) ne
        ex ey
  corrupted_byte front (z ∷ []) x y hf hb hx hy ne ex ey = ne (low_byte front z x y hx hy ex ey)
  corrupted_byte front (z ∷ (z' ∷ zs)) x y hf hb hx hy ne ex ey =
      let (back, low, high, e) = split_last_two (z ∷ (z' ∷ zs)) (omega arith) in
      let shape = λ (w : ℕ). ap (λ b. front ++ (w ∷ b)) e ∙ regroup front back w low high in
      let own = (All-append_inv IsByte back (low ∷ (high ∷ [])) (subst (All IsByte) e hb)).0 in
      let at_x = subst (λ r. verify_response slave r function expected ≡ ok tt) (shape x) ex in
      let at_y = subst (λ r. verify_response slave r function expected ≡ ok tt) (shape y) ey in
      body_byte front back x y low high hf own hx hy ne at_x at_y

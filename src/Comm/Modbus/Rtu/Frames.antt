-- ===== src/Comm/Modbus/Rtu/Frames.antt =====
-- The frames that `verifyResponse` of the RTU client accepts.
use swr.Base.{
  ℕ, ◌+◌, ◌-◌, ◌*◌, ◌≤◌, ◌<◌, ◌≡◌, sym, ap, ◌∙◌, arith, List, [], ◌∷◌, ◌++◌, some, ◌==◌, bit_or,
  length, length-append, get_elem?, get_elem?-append_right, take, take-append, All, split_last_two,
  All-append_inv,
}
use mathlib.Core.Path.{subst, ap₂}
use swr.Base.Or.{bit_or_disjoint}
use swr.Comm.Io.{ok, check, ◌>>◌, crc_mismatch}
use swr.Comm.Bytes.{IsByte, hi_byte, lo_byte}
use swr.Comm.Bytes.Words.{join_bytes}
use swr.Comm.Modbus.Crc.{crc16}
use swr.Comm.Modbus.Crc.Detect.{crc16-lt}
use swr.Comm.Modbus.Pdu.{verify_body}
use swr.Comm.Modbus.Pdu.Verify.{Carries, verify_body_accepts, verify_body_sound}
use swr.Comm.Modbus.Rtu.{add_crc, verify_response}

-- The tests of `verify_response` on a reply whose last two bytes are known.
pub verify_parts :
    (slave function expected low high : ℕ) (frame : List ℕ)
    → 3 ≤ length frame
    → verify_response slave (frame ++ (low ∷ (high ∷ []))) function expected ≡ (
        check (crc16 frame == bit_or (high * 256) low) crc_mismatch
        >> verify_body 0 slave function expected frame)
unfolding verify_response
verify_parts slave function expected low high frame h =
    ground (arith, length-append frame (low ∷ (high ∷ [])), at_low, at_high, payload)
  where
    response : List ℕ
    response = frame ++ (low ∷ (high ∷ []))

    two_less : length response - 2 ≡ length frame
    two_less = omega (arith, length-append frame (low ∷ (high ∷ [])))

    at_low : get_elem? response (length response - 2) ≡ some low
    at_low =
        ap (get_elem? response) {x = length response - 2} {y = length frame + 0}
          (omega (arith, two_less))
        ∙ get_elem?-append_right frame (low ∷ (high ∷ [])) 0

    at_high : get_elem? response (length response - 1) ≡ some high
    at_high =
        ap (get_elem? response) {x = length response - 1} {y = length frame + 1}
          (omega (arith, length-append frame (low ∷ (high ∷ []))))
        ∙ get_elem?-append_right frame (low ∷ (high ∷ [])) 1

    payload : take (length response - 2) response ≡ frame
    payload = ap (λ n. take n response) two_less ∙ take-append frame (low ∷ (high ∷ []))

crc_joined :
    (frame : List ℕ)
    → All IsByte frame
    → bit_or (hi_byte (crc16 frame) * 256) (lo_byte (crc16 frame)) ≡ crc16 frame
crc_joined frame h = join_bytes (crc16 frame) (crc16-lt frame h)

-- A frame of bytes of the addressed slave with the awaited function code, below 128, as much data
-- as that function answers and the check sum of its bytes is accepted.
pub verify_accepts :
    (slave function expected : ℕ) (rest : List ℕ)
    → function < 128
    → All IsByte rest
    → Carries function expected rest
    → verify_response slave (add_crc (lo_byte slave ∷ (function ∷ rest))) function expected ≡ ok tt
unfolding add_crc
verify_accepts slave function expected [] h b f = absurd f
verify_accepts slave function expected (x ∷ values) h b f =
    let frame = lo_byte slave ∷ (function ∷ (x ∷ values)) in
    verify_parts slave function expected (lo_byte (crc16 frame)) (hi_byte (crc16 frame)) frame
      (omega arith)
    ∙ ground (
      arith,
      crc_joined frame (omega arith, (omega arith, b)),
      verify_body_accepts slave function expected (x ∷ values) h f,
    )

pub long_enough :
    (slave function expected : ℕ) (response : List ℕ)
    → verify_response slave response function expected ≡ ok tt
    → 5 ≤ length response
unfolding verify_response
long_enough slave function expected response e = ground arith

same_bytes :
    (low high crc : ℕ)
    → low < 256
    → high < 256
    → crc ≡ bit_or (high * 256) low
    → (lo_byte crc ≡ low) × (hi_byte crc ≡ high)
same_bytes low high crc hl hh e =
    (omega (arith, bit_or_disjoint 8 high low hl), omega (arith, bit_or_disjoint 8 high low hl))

abbrev IsAccepted : ℕ → ℕ → ℕ → List ℕ → Type 0
IsAccepted slave function expected response =
    (rest : List ℕ) × (response ≡ add_crc (lo_byte slave ∷ (function ∷ rest)))
    × Carries function expected rest

sound_parts :
    (slave function expected low high : ℕ) (frame : List ℕ)
    → All IsByte (frame ++ (low ∷ (high ∷ [])))
    → verify_response slave (frame ++ (low ∷ (high ∷ []))) function expected ≡ ok tt
    → IsAccepted slave function expected (frame ++ (low ∷ (high ∷ [])))
unfolding add_crc
sound_parts slave function expected low high frame b e = (
  sound.0,
  ap₂ (λ x y. frame ++ (x ∷ (y ∷ []))) (sym own.0) (sym own.1) ∙ ap add_crc sound.1,
  sound.2,
)
  where
    long : 3 ≤ length frame
    long =
        omega
          (arith, long_enough slave function expected _ e, length-append frame (low ∷ (high ∷ [])))

    tests :
        (check (crc16 frame == bit_or (high * 256) low) crc_mismatch
          >> verify_body 0 slave function expected frame)
        ≡ ok tt
    tests = sym (verify_parts slave function expected low high frame long) ∙ e

    bytes : All IsByte frame × All IsByte (low ∷ (high ∷ []))
    bytes = All-append_inv IsByte frame (low ∷ (high ∷ [])) b

    own : (lo_byte (crc16 frame) ≡ low) × (hi_byte (crc16 frame) ≡ high)
    own = same_bytes low high (crc16 frame) bytes.1.0 bytes.1.1.0 (ground (arith, tests))

    sound :
        (rest : List ℕ) × (frame ≡ lo_byte slave ∷ (function ∷ rest))
        × Carries function expected rest
    sound = verify_body_sound slave function expected frame long (ground (arith, tests))

-- Every reply of bytes that `verifyResponse` accepts consists of the addressed slave, the awaited
-- function code, as much data as that function answers, and the check sum of these bytes.
pub verify_sound :
    (slave function expected : ℕ) (response : List ℕ)
    → All IsByte response
    → verify_response slave response function expected ≡ ok tt
    → (rest : List ℕ) × (response ≡ add_crc (lo_byte slave ∷ (function ∷ rest)))
      × Carries function expected rest
verify_sound slave function expected response b e =
    let (frame, low, high, same) =
      split_last_two response (omega (arith, long_enough slave function expected response e)) in
    subst (IsAccepted slave function expected) (sym same) (
      sound_parts slave function expected low high frame (subst (All IsByte) same b)
        (ap (λ r. verify_response slave r function expected) (sym same) ∙ e))

-- ===== src/Comm/Modbus/Crc/Detect.antt =====
-- A corrupted byte changes the check sum, whatever stands before and behind it.
use swr.Base.{
  ℕ, zero, suc, ◌/◌, ◌<◌, bit_xor, ◌≡◌, ◌≢◌, refl, sym, ◌∙◌, arith, List, [], ◌∷◌, ◌++◌, All,
}
use swr.Base.Xor.{bit_xor_inj, bit_xor-lt, bit_xor_top, bit_xor_comm}
use swr.Comm.Bytes.{IsByte}
use swr.Comm.Modbus.Crc.{crc_bit, crc_bits, crc_loop, crc16}

crc_bit-lt : (c : ℕ) → c < 65536 → crc_bit c < 65536
unfolding crc_bit
crc_bit-lt c h = ground (arith, bit_xor-lt 16 (c / 2) 0xA001 (omega arith) (omega arith))

-- The polynomial sets the top bit, so the result tells which bit fell out.
crc_bit_inj : (c d : ℕ) → c < 65536 → d < 65536 → crc_bit c ≡ crc_bit d → c ≡ d
unfolding crc_bit
crc_bit_inj c d hc hd e = ground (
  arith,
  bit_xor_top 15 (c / 2) 0xA001 (omega arith) (omega arith),
  bit_xor_top 15 (d / 2) 0xA001 (omega arith) (omega arith),
  bit_xor_inj (c / 2) (d / 2) 0xA001,
)

crc_bits-lt : (n c : ℕ) → c < 65536 → crc_bits n c < 65536
unfolding crc_bits
crc_bits-lt zero c h = h
crc_bits-lt (suc n) c h = crc_bits-lt n (crc_bit c) (crc_bit-lt c h)

crc_bits_inj : (n c d : ℕ) → c < 65536 → d < 65536 → crc_bits n c ≡ crc_bits n d → c ≡ d
unfolding crc_bits
crc_bits_inj zero c d hc hd e = e
crc_bits_inj (suc n) c d hc hd e =
    crc_bit_inj c d hc hd
      (crc_bits_inj n (crc_bit c) (crc_bit d) (crc_bit-lt c hc) (crc_bit-lt d hd) e)

xor_byte-lt : (c b : ℕ) → c < 65536 → b < 256 → bit_xor c b < 65536
xor_byte-lt c b hc hb = bit_xor-lt 16 c b hc (omega arith)

pub crc_loop-lt : (c : ℕ) (bytes : List ℕ) → c < 65536 → All IsByte bytes → crc_loop c bytes < 65536
unfolding crc_loop
crc_loop-lt c [] h hs = h
crc_loop-lt c (b ∷ bs) h hs =
    crc_loop-lt (crc_bits 8 (bit_xor c b)) bs (crc_bits-lt 8 _ (xor_byte-lt c b h hs.0)) hs.1

crc_loop_inj :
    (c d : ℕ) (bytes : List ℕ)
    → c < 65536
    → d < 65536
    → All IsByte bytes
    → crc_loop c bytes ≡ crc_loop d bytes
    → c ≡ d
unfolding crc_loop
crc_loop_inj c d [] hc hd hs e = e
crc_loop_inj c d (b ∷ bs) hc hd hs e =
    let xc = xor_byte-lt c b hc hs.0 in
    let xd = xor_byte-lt d b hd hs.0 in
    bit_xor_inj c d b (
      crc_bits_inj 8 (bit_xor c b) (bit_xor d b) xc xd (
        crc_loop_inj (crc_bits 8 (bit_xor c b)) (crc_bits 8 (bit_xor d b)) bs (crc_bits-lt 8 _ xc)
          (crc_bits-lt 8 _ xd) hs.1 e))

crc_loop-append : (c : ℕ) (xs ys : List ℕ) → crc_loop c (xs ++ ys) ≡ crc_loop (crc_loop c xs) ys
unfolding crc_loop
crc_loop-append c [] ys = refl
crc_loop-append c (x ∷ xs) ys = crc_loop-append (crc_bits 8 (bit_xor c x)) xs ys

byte_inj :
    (c x y : ℕ) (bs : List ℕ)
    → c < 65536
    → IsByte x
    → IsByte y
    → All IsByte bs
    → crc_loop c (x ∷ bs) ≡ crc_loop c (y ∷ bs)
    → x ≡ y
unfolding crc_loop
byte_inj c x y bs hc hx hy hs e =
    let xx = xor_byte-lt c x hc hx in
    let xy = xor_byte-lt c y hc hy in
    bit_xor_inj x y c (
      bit_xor_comm x c
      ∙ crc_bits_inj 8 (bit_xor c x) (bit_xor c y) xx xy
          (crc_loop_inj _ _ bs (crc_bits-lt 8 _ xx) (crc_bits-lt 8 _ xy) hs e)
      ∙ bit_xor_comm c y)

-- The check sum is a 16-bit word.
pub crc16-lt : (bytes : List ℕ) → All IsByte bytes → crc16 bytes < 65536
unfolding crc16
crc16-lt bytes h = crc_loop-lt 0xFFFF bytes (omega arith) h

-- Two byte strings that differ in exactly one byte have different CRC-16 check sums.
pub crc16_detects_byte :
    (front back : List ℕ) (x y : ℕ)
    → All IsByte front
    → All IsByte back
    → IsByte x
    → IsByte y
    → x ≢ y
    → crc16 (front ++ (x ∷ back)) ≢ crc16 (front ++ (y ∷ back))
unfolding crc16
crc16_detects_byte front back x y hf hb hx hy ne e = ne (
    byte_inj (crc_loop 0xFFFF front) x y back (crc_loop-lt 0xFFFF front (omega arith) hf) hx hy hb
      (sym (crc_loop-append 0xFFFF front (x ∷ back)) ∙ e ∙ crc_loop-append 0xFFFF front (y ∷ back)))

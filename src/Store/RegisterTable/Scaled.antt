-- ===== src/Store/RegisterTable/Scaled.antt =====
-- The integer that a register's words stand for.
use swr.Base.{
  ℕ, zero, suc, ◌+◌, ◌-◌, ◌*◌, ◌^◌, ◌≤◌, ◌<◌, ◌≡◌, refl, ap, ◌∙◌, arith, Bool, List, [], ◌∷◌,
  if◌then◌else◌, length, All,
}
use swr.Base.Int.{pos}
use swr.Base.Or.{bit_or_disjoint}
use native.Mathlib.Nat.{pow-suc}
use swr.Comm.Bytes.{IsWord}
use swr.Store.RegisterTable.{combine_word, combine, signed_of, sign_extend, raw_integer}

-- The words as the digits of one number, the most significant first.
abbrev pub value_from : ℕ → List ℕ → ℕ
value_from acc [] = acc
value_from acc (w ∷ ws) = value_from (acc * 65536 + w) ws

combine_word_lem : (c w : ℕ) → c < 2 ^ 48 → IsWord w → combine_word c w ≡ c * 65536 + w
unfolding combine_word
combine_word_lem c w hc hw = ground (arith, bit_or_disjoint 16 c w hw)

fits_48 : (k acc : ℕ) → k ≤ 3 → acc < 65536 ^ k → acc < 2 ^ 48
fits_48 zero acc h f = omega arith
fits_48 (suc zero) acc h f = omega arith
fits_48 (suc (suc zero)) acc h f = omega arith
fits_48 (suc (suc (suc zero))) acc h f = omega arith
fits_48 (suc (suc (suc (suc k)))) acc h f = absurd (omega arith)

next_word : (k acc w : ℕ) → acc < 65536 ^ k → w < 65536 → acc * 65536 + w < 65536 ^ suc k
next_word k acc w h hw = omega (arith, pow-suc 65536 k)

-- A number of four words at most fits the 64-bit accumulator.
combine_value :
    (ws : List ℕ) (k acc : ℕ)
    → All IsWord ws
    → acc < 65536 ^ k
    → k + length ws ≤ 4
    → combine acc ws ≡ value_from acc ws
unfolding combine
combine_value [] k acc h ha hk = refl
combine_value (w ∷ ws) k acc (hw, hs) ha hk =
    ap (λ a. combine a ws) (combine_word_lem acc w (fits_48 k acc (omega arith) ha) hw)
    ∙ combine_value ws (suc k) (acc * 65536 + w) hs (next_word k acc w ha hw) (omega arith)

value_from-lt :
    (ws : List ℕ) (k acc : ℕ)
    → All IsWord ws
    → acc < 65536 ^ k
    → value_from acc ws < 65536 ^ (k + length ws)
value_from-lt [] k acc h ha = let e : k + 0 ≡ k = omega arith in rw e ha
value_from-lt (w ∷ ws) k acc (hw, hs) ha =
    let e : k + suc (length ws) ≡ suc k + length ws = omega arith in
    rw e (value_from-lt ws (suc k) (acc * 65536 + w) hs (next_word k acc w ha hw))

sign_extend_lem :
    (n v : ℕ)
    → 2 ≤ n
    → n ≤ 4
    → v < 65536 ^ n
    → signed_of 64 (sign_extend (n * 16) v) ≡ signed_of (n * 16) v
unfolding sign_extend
sign_extend_lem zero v h k f = absurd (omega arith)
sign_extend_lem (suc zero) v h k f = absurd (omega arith)
sign_extend_lem (suc (suc zero)) v h k f = ground (arith, bit_or_disjoint 32 (2 ^ 32 - 1) v)
sign_extend_lem (suc (suc (suc zero))) v h k f = ground (arith, bit_or_disjoint 48 (2 ^ 16 - 1) v)
sign_extend_lem (suc (suc (suc (suc zero)))) v h k f = ground (arith, bit_or_disjoint 64 0 v)
sign_extend_lem (suc (suc (suc (suc (suc n))))) v h k f = absurd (omega arith)

value_fits : (ws : List ℕ) → All IsWord ws → value_from 0 ws < 65536 ^ length ws
value_fits ws h =
    let e : 0 + length ws ≡ length ws = omega arith in
    rw e at (value_from-lt ws 0 0 h (omega arith))

-- One to four 16-bit words are read as one number, the first word the most significant, in two's
-- complement of all their bits if the register is signed.
pub raw_integer_value :
    (w : ℕ) (ws : List ℕ) (is_signed : Bool)
    → All IsWord (w ∷ ws)
    → length ws ≤ 3
    → raw_integer is_signed (w ∷ ws) ≡ (
        if is_signed
        then signed_of (length (w ∷ ws) * 16) (value_from 0 (w ∷ ws))
        else pos (value_from 0 (w ∷ ws)))
unfolding raw_integer
raw_integer_value w [] is_signed h n = ground arith
raw_integer_value w (w' ∷ ws) is_signed h n =
    let all = w ∷ (w' ∷ ws) in
    let e = combine_value all 0 0 h (omega arith) (omega arith) in
    ground (
      arith,
      e,
      sign_extend_lem (length all) (value_from 0 all) (omega arith) (omega arith)
          (value_fits all h),
    )

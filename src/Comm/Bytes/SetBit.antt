-- ===== src/Comm/Bytes/SetBit.antt =====
-- One bit of packed bytes: `packed[i / 8] |= 1 << (i % 8)` sets bit `i` and no other.
use swr.Base.{
  ℕ, ◌/◌, ◌%◌, ◌^◌, ◌<◌, bit_or, ◌≡◌, refl, arith, Bool, true, ◌&&◌, List, ◌==◌, ==_iff, ltb,
  ltb→lt, &&-eq-true, if◌then◌else◌, length, get_or, length-set, get_or-set, All, All-set,
  All-get_or,
}
use swr.Base.Table.{passes_below, passes_below-lt}
use swr.Comm.Bytes.{IsByte, set_bit}

-- Bit `k` of a packed list.
abbrev pub bit : List ℕ → ℕ → ℕ
bit packed k = get_or packed (k / 8) 0 / 2 ^ (k % 8) % 2

-- Setting one bit of a byte, over all bytes and bits.
abbrev set_one : ℕ → ℕ → ℕ → Bool
set_one x k j =
    bit_or x (2 ^ k) / 2 ^ j % 2 == (if k == j then 1 else x / 2 ^ j % 2)
    && ltb (bit_or x (2 ^ k)) 256

-- One bit set, read at every place.
abbrev set_one_row : ℕ → ℕ → Bool
set_one_row x k = passes_below (set_one x k) 8

set_one_table : passes_below (λ x. passes_below (set_one_row x) 8) 256 ≡ true
unfolding passes_below
set_one_table = refl

set_one_lem : (x k j : ℕ) → x < 256 → k < 8 → j < 8 → set_one x k j ≡ true
set_one_lem x k j hx hk hj = passes_below-lt (set_one x k) 8 j hj (
    passes_below-lt (set_one_row x) 8 k hk
      (passes_below-lt (λ x. passes_below (set_one_row x) 8) 256 x hx set_one_table))

set_one_bit :
    (x k j : ℕ)
    → x < 256
    → k < 8
    → j < 8
    → (bit_or x (2 ^ k) / 2 ^ j % 2 ≡ (if k == j then 1 else x / 2 ^ j % 2))
      × (bit_or x (2 ^ k) < 256)
set_one_bit x k j hx hk hj =
    let (e, lt) = &&-eq-true _ _ (set_one_lem x k j hx hk hj) in ((==_iff _ _).0 e, ltb→lt _ _ lt)

pub bit-set_bit :
    (packed : List ℕ) (i k : ℕ)
    → All IsByte packed
    → i / 8 < length packed
    → bit (set_bit packed i) k ≡ (if i == k then 1 else bit packed k)
unfolding set_bit
bit-set_bit packed i k h lt =
    let x = get_or packed (i / 8) 0 in
    ground (
      arith,
      get_or-set packed (i / 8) (k / 8) (bit_or x (2 ^ (i % 8))) 0 lt,
      set_one_bit x (i % 8) (k % 8) (All-get_or IsByte packed (i / 8) 0 h (omega arith))
          (omega arith) (omega arith),
    )

pub set_bit_bytes : (packed : List ℕ) (i : ℕ) → All IsByte packed → All IsByte (set_bit packed i)
unfolding set_bit
set_bit_bytes packed i h =
    let x = get_or packed (i / 8) 0 in
    All-set IsByte packed (i / 8) _ h
      (set_one_bit x (i % 8) 0 (All-get_or IsByte packed (i / 8) 0 h (omega arith)) (omega arith)
        (omega arith)).1

pub set_bit_length : (packed : List ℕ) (i : ℕ) → length (set_bit packed i) ≡ length packed
unfolding set_bit
set_bit_length packed i = length-set packed (i / 8) _

-- ===== src/Comm/Bytes.antt =====
-- What the protocol clients do with single bytes: words in two bytes, coils in packed bytes.
-- A byte is a number below 256 and a `quint16` one below 65536.
pub mod Words
pub mod SetBit
pub mod Coils
use swr.Base.{
  ℕ, zero, suc, ◌+◌, ◌*◌, ◌/◌, ◌%◌, ◌^◌, ◌<◌, bit_or, Bool, List, [], ◌∷◌, ◌++◌, ◌==◌,
  if◌then◌else◌, length, get_or, set, replicate,
}
use swr.Comm.Io.{Result, ok, at, ◌>>=◌}

abbrev pub IsByte : ℕ → Type 0
IsByte b = b < 256

abbrev pub IsWord : ℕ → Type 0
IsWord w = w < 65536

-- `static_cast<char>((x >> 8) & 0xFF)` and `static_cast<char>(x & 0xFF)`.
abbrev pub hi_byte : ℕ → ℕ
hi_byte x = x / 256 % 256

abbrev pub lo_byte : ℕ → ℕ
lo_byte x = x % 256

-- The bytes of each value, high byte first.
unfoldable pub word_bytes : List ℕ → List ℕ
word_bytes [] = []
word_bytes (v ∷ vs) = hi_byte v ∷ (lo_byte v ∷ word_bytes vs)

-- The words of a reply from index `offset` on: `(hi << 8) | lo`.
unfoldable pub read_word_list : List ℕ → ℕ → ℕ → Result (List ℕ)
read_word_list bytes offset zero = ok []
read_word_list bytes offset (suc n) = do
  hi ← at bytes offset
  lo ← at bytes (offset + 1)
  rest ← read_word_list bytes (offset + 2) n
  ok (bit_or (hi * 256) lo ∷ rest)

-- Bits `i` to `i + n - 1` of the coils that start at index `offset`: `(value >> (i % 8)) & 0x01`.
unfoldable pub read_bit_list : List ℕ → ℕ → ℕ → ℕ → Result (List Bool)
read_bit_list bytes offset i zero = ok []
read_bit_list bytes offset i (suc n) = do
  value ← at bytes (offset + i / 8)
  rest ← read_bit_list bytes offset (i + 1) n
  ok ((value / 2 ^ (i % 8) % 2 == 1) ∷ rest)

-- `packed[i / 8] |= static_cast<char>(1 << (i % 8))`.
unfoldable pub set_bit : List ℕ → ℕ → List ℕ
set_bit packed i = set packed (i / 8) (bit_or (get_or packed (i / 8) 0) (2 ^ (i % 8)))

unfoldable pub pack_loop : List Bool → ℕ → List ℕ → List ℕ
pack_loop [] i packed = packed
pack_loop (v ∷ vs) i packed = pack_loop vs (i + 1) (if v then set_bit packed i else packed)

unfoldable pub pack_coils : List Bool → List ℕ
pack_coils values = pack_loop values 0 (replicate ((length values + 7) / 8) 0)

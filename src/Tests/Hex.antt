-- ===== src/Tests/Hex.antt =====
-- Hexadecimal digits, as an instance of the conversions that the ASCII client is given.
use swr.Base.{
  ℕ, ◌+◌, ◌*◌, ◌-◌, ◌/◌, ◌%◌, ◌<◌, ◌≡◌, inl, inr, Bool-cases, refl, ap, arith, List, [], ◌∷◌, ◌++◌,
  ltb, ltb→lt, if◌then◌else◌, length, All,
}
use mathlib.Core.Path.{ap₂}
use swr.Comm.Io.{ok}
use swr.Comm.Bytes.{IsByte}
use swr.Comm.Modbus.Ascii.{HexCodec, build_ascii_frame, parse_ascii_frame}
use swr.Comm.Modbus.Ascii.Frames.{IsHexDigit, HexLaws, parse-build}
use swr.Tests.Data.{all_bytes_lem}

abbrev digit : ℕ → ℕ
digit n = if ltb n 10 then 48 + n else 55 + n

abbrev undigit : ℕ → ℕ
undigit d = if ltb d 58 then d - 48 else d - 55

abbrev to_hex : List ℕ → List ℕ
to_hex [] = []
to_hex (b ∷ bs) = digit (b / 16) ∷ (digit (b % 16) ∷ to_hex bs)

abbrev from_hex : List ℕ → List ℕ
from_hex [] = []
from_hex (x ∷ []) = []
from_hex (x ∷ (y ∷ xs)) = (undigit x * 16 + undigit y) ∷ from_hex xs

abbrev hex : HexCodec
hex = record { to_hex_upper = to_hex; two_digits = λ b. to_hex (b ∷ []); from_hex = from_hex }

digit-IsHexDigit : (n : ℕ) → n < 16 → IsHexDigit (digit n)
digit-IsHexDigit n h = elim (Bool-cases (ltb n 10)) [
  | inl e ↦ rw e (inl (omega arith, omega (arith, ltb→lt n 10 e)))
  | inr e ↦ rw e (inr (ground (arith, e), omega arith))
]

undigit-digit : (n : ℕ) → n < 16 → undigit (digit n) ≡ n
undigit-digit n h = ground arith

digits : (bytes : List ℕ) → All IsByte bytes → All IsHexDigit (to_hex bytes)
digits [] h = tt
digits (b ∷ bs) h = (
  digit-IsHexDigit (b / 16) (omega (arith, h.0)),
  (digit-IsHexDigit (b % 16) (omega arith), digits bs h.1),
)

length-to_hex : (bytes : List ℕ) → All IsByte bytes → length (to_hex bytes) ≡ length bytes * 2
length-to_hex [] h = refl
length-to_hex (b ∷ bs) h = omega (arith, length-to_hex bs h.1)

from-to :
    (bytes : List ℕ) (b : ℕ)
    → All IsByte bytes
    → IsByte b
    → from_hex (to_hex bytes ++ to_hex (b ∷ [])) ≡ bytes ++ (b ∷ [])
from-to [] b h k = ap (λ x. x ∷ []) (byte b k)
  where
    byte : (x : ℕ) → IsByte x → undigit (digit (x / 16)) * 16 + undigit (digit (x % 16)) ≡ x
    byte x l =
        omega (arith, undigit-digit (x / 16) (omega arith), undigit-digit (x % 16) (omega arith))
from-to (x ∷ bytes) b h k = ap₂ ◌∷◌ (byte x h.0) (from-to bytes b h.1 k)
  where
    byte : (x : ℕ) → IsByte x → undigit (digit (x / 16)) * 16 + undigit (digit (x % 16)) ≡ x
    byte x l =
        omega (arith, undigit-digit (x / 16) (omega arith), undigit-digit (x % 16) (omega arith))

hex-HexLaws : HexLaws hex
hex-HexLaws = record {
  digits = digits;
  length_digits = length-to_hex;
  two = λ b h. digits (b ∷ []) (h, tt);
  length_two = λ b h. length-to_hex (b ∷ []) (h, tt);
  round_trip = from-to;
}

parse-build_example :
    parse_ascii_frame hex (build_ascii_frame hex (1 ∷ (3 ∷ (2 ∷ (0 ∷ (171 ∷ []))))))
    ≡ ok (1 ∷ (3 ∷ (2 ∷ (0 ∷ (171 ∷ [])))))
parse-build_example =
    parse-build hex hex-HexLaws (1 ∷ (3 ∷ (2 ∷ (0 ∷ (171 ∷ [])))))
      (all_bytes_lem (1 ∷ (3 ∷ (2 ∷ (0 ∷ (171 ∷ []))))) refl) (omega arith)

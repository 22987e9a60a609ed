-- ===== src/Comm/Modbus/Ascii/Frames.antt =====
-- The ASCII client's text frames: what the client builds it can parse, and its check sum notices
-- every single corrupted byte.
use mathlib.Core.List.{append_assoc}
use swr.Base.{
  ℕ, suc, ◌+◌, ◌-◌, ◌*◌, ◌%◌, ◌≤◌, ◌<◌, ◌≡◌, ◌≢◌, ◌⊎◌, refl, sym, ap, ◌∙◌, arith, some, List, [],
  ◌∷◌, ◌++◌, length, length-append, take, take-append, get_elem?, get_elem?-append_right, All,
  All-append,
}
use swr.Comm.Io.{ok}
use swr.Comm.Bytes.{IsByte}
use swr.Comm.Modbus.Ascii.{
  HexCodec, byte_sum, lrc, build_ascii_frame, index_of_line_end, one_later, check_raw,
  parse_ascii_frame,
}

abbrev pub IsHexDigit : ℕ → Type 0
IsHexDigit d = ((48 ≤ d) × (d ≤ 57)) ⊎ ((65 ≤ d) × (d ≤ 70))

-- What Qt documents of the conversions: two digits per byte, and `fromHex` undoes them.
pub record HexLaws (hex : HexCodec) : Type 0 where
  pub digits : (bytes : List ℕ) → All IsByte bytes → All IsHexDigit (hex.to_hex_upper bytes)
  pub length_digits :
      (bytes : List ℕ) → All IsByte bytes → length (hex.to_hex_upper bytes) ≡ length bytes * 2
  pub two : (b : ℕ) → IsByte b → All IsHexDigit (hex.two_digits b)
  pub length_two : (b : ℕ) → IsByte b → length (hex.two_digits b) ≡ 2
  pub round_trip :
      (bytes : List ℕ) (b : ℕ)
      → All IsByte bytes
      → IsByte b
      → hex.from_hex (hex.to_hex_upper bytes ++ hex.two_digits b) ≡ bytes ++ (b ∷ [])

pub lrc-lt : (bytes : List ℕ) → lrc bytes < 256
unfolding lrc
lrc-lt bytes = omega arith

line_end_behind :
    (text : List ℕ)
    → All IsHexDigit text
    → index_of_line_end (text ++ (0x0D ∷ (0x0A ∷ []))) ≡ some (length text)
unfolding index_of_line_end
line_end_behind [] h = refl
line_end_behind (x ∷ []) h = ground (arith, h.0)
line_end_behind (x ∷ (y ∷ text)) h = ground (arith, h.0, line_end_behind (y ∷ text) h.1)

line_end_behind_colon :
    (text : List ℕ)
    → All IsHexDigit text
    → index_of_line_end (0x3A ∷ (text ++ (0x0D ∷ (0x0A ∷ [])))) ≡ some (suc (length text))
line_end_behind_colon [] h = unfold index_of_line_end in refl
line_end_behind_colon (x ∷ text) h =
    unfold index_of_line_end in ap one_later (line_end_behind (x ∷ text) h)

check_raw_own : (pdu : List ℕ) → 2 ≤ length pdu → check_raw (pdu ++ (lrc pdu ∷ [])) ≡ ok pdu
unfolding check_raw
check_raw_own pdu long = ground (arith, length-append pdu (lrc pdu ∷ []), last, front)
  where
    one_less : length (pdu ++ (lrc pdu ∷ [])) - 1 ≡ length pdu
    one_less = omega (arith, length-append pdu (lrc pdu ∷ []))

    last : get_elem? (pdu ++ (lrc pdu ∷ [])) (length (pdu ++ (lrc pdu ∷ [])) - 1) ≡ some (lrc pdu)
    last =
        ap (get_elem? (pdu ++ (lrc pdu ∷ []))) {x = length (pdu ++ (lrc pdu ∷ [])) - 1}
          {y = length pdu + 0} (omega (arith, one_less))
        ∙ get_elem?-append_right pdu (lrc pdu ∷ []) 0

    front : take (length (pdu ++ (lrc pdu ∷ [])) - 1) (pdu ++ (lrc pdu ∷ [])) ≡ pdu
    front = ap (λ n. take n (pdu ++ (lrc pdu ∷ []))) one_less ∙ take-append pdu (lrc pdu ∷ [])

-- A body of at least two bytes, framed as text, is parsed back, given that the conversions to and
-- from hexadecimal digits do what Qt documents.
pub parse-build :
    (hex : HexCodec) (laws : HexLaws hex) (pdu : List ℕ)
    → All IsByte pdu
    → 2 ≤ length pdu
    → parse_ascii_frame hex (build_ascii_frame hex pdu) ≡ ok pdu
unfolding parse_ascii_frame build_ascii_frame
parse-build hex laws pdu h long = ground (
  arith,
  found,
  payload,
  even,
  laws.round_trip pdu (lrc pdu) h (lrc-lt pdu),
  check_raw_own pdu long,
)
  where
    text : List ℕ
    text = hex.to_hex_upper pdu ++ hex.two_digits (lrc pdu)

    text-IsHex : All IsHexDigit text
    text-IsHex = All-append IsHexDigit _ _ (laws.digits pdu h) (laws.two (lrc pdu) (lrc-lt pdu))

    even : length text % 2 ≡ 0
    even = omega (
      arith,
      length-append (hex.to_hex_upper pdu) (hex.two_digits (lrc pdu)),
      laws.length_digits pdu h,
      laws.length_two (lrc pdu) (lrc-lt pdu),
    )

    regroup :
        hex.to_hex_upper pdu ++ (hex.two_digits (lrc pdu) ++ (0x0D ∷ (0x0A ∷ [])))
        ≡ text ++ (0x0D ∷ (0x0A ∷ []))
    regroup = sym (append_assoc (hex.to_hex_upper pdu) (hex.two_digits (lrc pdu)) _)

    found :
        index_of_line_end
          (0x3A ∷ (hex.to_hex_upper pdu ++ (hex.two_digits (lrc pdu) ++ (0x0D ∷ (0x0A ∷ [])))))
        ≡ some (suc (length text))
    found = ap (λ t. index_of_line_end (0x3A ∷ t)) regroup ∙ line_end_behind_colon text text-IsHex

    payload :
        take
          (length text)
          (hex.to_hex_upper pdu ++ (hex.two_digits (lrc pdu) ++ (0x0D ∷ (0x0A ∷ []))))
        ≡ text
    payload = ap (take (length text)) regroup ∙ take-append text (0x0D ∷ (0x0A ∷ []))

total : List ℕ → ℕ
total [] = 0
total (x ∷ xs) = x + total xs

byte_sum-total : (bytes : List ℕ) (a : ℕ) → byte_sum bytes (a % 256) ≡ (a + total bytes) % 256
unfolding byte_sum total
byte_sum-total [] a = omega arith
byte_sum-total (x ∷ xs) a =
    ap (byte_sum xs) {x = (a % 256 + x) % 256} {y = (a + x) % 256} (omega arith)
    ∙ (byte_sum-total xs (a + x) ∙ omega arith)

total-append : (front back : List ℕ) → total (front ++ back) ≡ total front + total back
unfolding total
total-append [] back = omega arith
total-append (x ∷ front) back = omega (arith, total-append front back)

-- Two bodies that differ in exactly one byte have different LRC check sums.
pub lrc_detects_byte :
    (front back : List ℕ) (x y : ℕ)
    → IsByte x
    → IsByte y
    → x ≢ y
    → lrc (front ++ (x ∷ back)) ≢ lrc (front ++ (y ∷ back))
unfolding lrc total
lrc_detects_byte front back x y hx hy ne e = ne (
    omega (
      arith,
      e,
      byte_sum-total (front ++ (x ∷ back)) 0,
      byte_sum-total (front ++ (y ∷ back)) 0,
      total-append front (x ∷ back),
      total-append front (y ∷ back),
    ))

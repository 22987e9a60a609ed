-- ===== src/Comm/PcLink.antt =====
-- data_collection/comm/pclink: what the two clients for Samwon PLCs share. Qt's conversions of
-- numbers to and from text are a parameter; a text is the list of its character codes.
pub mod Serial
pub mod Sum
pub mod Replies
use swr.Base.Int.{ℤ}
use swr.Base.{
  ℕ, zero, suc, ◌+◌, Bool, true, false, ◌&&◌, Option, List, [], ◌∷◌, ◌++◌, ◌==◌, ◌<◌, ◌≡◌, some,
  length, take, drop,
}

-- `hex w n` and `dec w n` are `QStringLiteral("%1").arg(n, w, base, '0')`, in upper case;
-- `parse_hex` is `toUShort(&ok, 16)` and `parse_dec` is `toInt(nullptr, 10)`.
pub record NumberText : Type 0 where
  pub hex : ℕ → ℕ → List ℕ
  pub dec : ℕ → ℕ → List ℕ
  pub parse_hex : List ℕ → Option ℕ
  pub parse_dec : List ℕ → ℤ
  pub to_upper : List ℕ → List ℕ

unfoldable pub eq_bytes : List ℕ → List ℕ → Bool
eq_bytes [] [] = true
eq_bytes [] (y ∷ ys) = false
eq_bytes (x ∷ xs) [] = false
eq_bytes (x ∷ xs) (y ∷ ys) = x == y && eq_bytes xs ys

-- `QByteArray::mid`.
abbrev pub mid : List ℕ → ℕ → ℕ → List ℕ
mid bytes offset n = take n (drop offset bytes)

abbrev pub hex_words : NumberText → List ℕ → List ℕ
hex_words text [] = []
hex_words text (w ∷ ws) = text.hex 4 w ++ hex_words text ws

-- What the clients rely on: 2 digits for a byte and 4 for a word, which are read back.
pub record NumberLaws (text : NumberText) : Type 0 where
  pub two : (n : ℕ) → n < 256 → length (text.hex 2 n) ≡ 2
  pub four : (n : ℕ) → n < 65536 → length (text.hex 4 n) ≡ 4
  pub parsed : (n : ℕ) → n < 65536 → text.parse_hex (text.hex 4 n) ≡ some n
  pub upper : (n : ℕ) → n < 256 → text.to_upper (text.hex 2 n) ≡ text.hex 2 n

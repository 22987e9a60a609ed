-- ===== src/Trend.antt =====
-- TrendHandler/TrendFileWriter.h: the layout of a trend file, and what its users need of QFile,
-- which is a parameter. A struct is written as its bytes, the low byte of a number first.
pub mod Writer
pub mod Reader
pub mod Recorder
pub mod Chunks
pub mod Layout
pub mod Appends
pub mod Samples
pub mod Opened
use swr.Base.{
  ℕ, ◌+◌, ◌*◌, ◌/◌, ◌%◌, ◌≤◌, ◌≡◌, Bool, true, List, [], ◌∷◌, ◌++◌, length, take, drop, replicate,
}
use swr.Base.Int.{ℤ, pos}

abbrev pub header_size : ℕ
header_size = 512

abbrev pub block_size : ℕ
block_size = 1024

abbrev pub block_header_size : ℕ
block_header_size = 8

abbrev pub record_size : ℕ
record_size = 32

abbrev pub records_per_block : ℕ
records_per_block = 31

abbrev pub block_pad_size : ℕ
block_pad_size = 24

abbrev pub max_file_size : ℕ
max_file_size = 4294967296

abbrev pub le16 : ℕ → List ℕ
le16 n = n % 256 ∷ (n / 256 % 256 ∷ [])

abbrev pub le32 : ℕ → List ℕ
le32 n = n % 256 ∷ (n / 256 % 256 ∷ (n / 65536 % 256 ∷ (n / 16777216 % 256 ∷ [])))

unfoldable pub words_le : List ℕ → List ℕ
words_le [] = []
words_le (w ∷ ws) = le16 w ++ words_le ws

-- The default channel has the upper limit 65535 and zeros elsewhere.
pub record ChannelInfo : Type 0 where
  pub chtag : List ℕ
  pub inrh : ℕ
  pub inrl : ℕ
  pub dotpos : ℕ
  pub is_signed : ℕ
  pub unit : List ℕ

abbrev pub no_channel : ChannelInfo
no_channel = record {
  chtag = replicate 16 0;
  inrh = 65535;
  inrl = 0;
  dotpos = 0;
  is_signed = 0;
  unit = replicate 4 0;
}

unfoldable pub channel_bytes : ChannelInfo → List ℕ
channel_bytes ch =
    ch.chtag
    ++ (le16 ch.inrh
        ++ (le16 ch.inrl ++ (ch.dotpos ∷ (ch.is_signed ∷ (ch.unit ++ (0 ∷ (0 ∷ [])))))))

pub record WriterConfig : Type 0 where
  pub ch_cnt : ℕ
  pub freq : ℕ
  pub zcode : ℕ
  pub fver : ℕ
  pub channels : List ChannelInfo

-- The parts of a `QDateTime`.
pub record StartTime : Type 0 where
  pub year : ℕ
  pub month : ℕ
  pub day : ℕ
  pub hour : ℕ
  pub minute : ℕ
  pub second : ℕ

abbrev pub stime : StartTime → List ℕ
stime t = t.year % 100 ∷ (t.month ∷ (t.day ∷ (t.hour ∷ (t.minute ∷ (t.second ∷ [])))))

-- `S`, `W`, then 0x30 and the version 1.0.
unfoldable pub fixed_header_bytes : WriterConfig → StartTime → List ℕ
fixed_header_bytes config t =
    (83 ∷ (87 ∷ (48 ∷ (1 ∷ (0 ∷ (config.ch_cnt ∷ []))))))
    ++ (stime t ++ (le16 config.freq ++ (config.zcode ∷ (config.fver ∷ replicate 48 0))))

abbrev pub block_header_bytes : ℕ → ℕ → List ℕ
block_header_bytes index count = le32 index ++ (le16 count ++ (0 ∷ (0 ∷ [])))

pub data TrendError : Type 0 where
  make_path_failed open_failed header_failed channel_failed block_header_failed : TrendError
  file_not_open capacity_exceeded file_error : TrendError
  header_too_short invalid_magic no_records file_too_short header_read_failed zero_freq : TrendError

-- The directory and the file at the path. `write` returns how many bytes it wrote, or -1.
pub record File (F : Type 0) : Type 0 where
  pub make_path : F → Bool × F
  pub open_write : F → Bool × F
  pub open_read : F → Bool × F
  pub is_open : F → Bool
  pub seek : ℕ → F → Bool × F
  pub write : List ℕ → F → ℤ × F
  pub read : ℕ → F → List ℕ × F
  pub size : F → ℕ
  pub flush : F → F
  pub close : F → F

-- The bytes from `p` on, replaced.
abbrev pub overwrite : ℕ → List ℕ → List ℕ → List ℕ
overwrite p bytes content = take p content ++ (bytes ++ drop (p + length bytes) content)

-- What the code relies on where no call fails: `At f content p` says that the file of `f` is open,
-- holds the bytes and is at position `p`.
pub record Storage {F : Type 0} (dev : File F) (At : F → List ℕ → ℕ → Type 0) : Type 0 where
  pub opened : (f : F) (c : List ℕ) (p : ℕ) → At f c p → dev.is_open f ≡ true
  pub sized : (f : F) (c : List ℕ) (p : ℕ) → At f c p → dev.size f ≡ length c
  pub sought :
      (f : F) (c : List ℕ) (p q : ℕ)
      → q ≤ length c
      → At f c p
      → (f' : F) × (dev.seek q f ≡ (true, f')) × At f' c q
  pub written :
      (f : F) (c : List ℕ) (p : ℕ) (bytes : List ℕ)
      → p ≤ length c
      → At f c p
      → (f' : F) × (dev.write bytes f ≡ (pos (length bytes), f'))
        × At f' (overwrite p bytes c) (p + length bytes)
  pub got :
      (f : F) (c : List ℕ) (p n : ℕ)
      → At f c p
      → (f' : F) × (dev.read n f ≡ (take n (drop p c), f'))
        × At f' c (p + length (take n (drop p c)))
  pub flushed : (f : F) (c : List ℕ) (p : ℕ) → At f c p → At (dev.flush f) c p

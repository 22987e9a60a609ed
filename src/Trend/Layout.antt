-- ===== src/Trend/Layout.antt =====
-- The bytes of a trend file by its records, and where the blocks and the records lie.
pub mod Places
use mathlib.Core.List.{append_assoc}
use mathlib.Core.Path.{subst}
use swr.Base.{
  ℕ, zero, suc, ◌+◌, ◌-◌, ◌*◌, ◌/◌, ◌%◌, ◌≤◌, ◌<◌, ◌≡◌, ◌⊎◌, inl, inr, refl, sym, ap, ◌∙◌, arith,
  Option, none, some, List, [], ◌∷◌, ◌++◌, length, length-append, length-replicate, get_or,
  get_elem?, get_elem?-get_or, get_elem?-drop, get_elem?-append_left, take, drop, replicate, All,
}
use swr.Trend.{block_header_bytes}
use swr.Trend.Reader.{data_cnt_of}
use swr.Trend.Chunks.{
  concat, Sized, length-concat, take_prefix, drop_prefix, drop_plus, drop-concat, drop-concat_end,
}

-- A record is its 32 bytes, a full block its 31 records.
abbrev pub Record : Type 0
Record = List ℕ

abbrev pub block_image : ℕ → List Record → List ℕ
block_image i recs = block_header_bytes i 31 ++ (concat recs ++ replicate 24 0)

abbrev pub block_images : ℕ → List (List Record) → List (List ℕ)
block_images i [] = []
block_images i (b ∷ bs) = block_image i b ∷ block_images (i + 1) bs

-- The full blocks, then the block that is being filled.
abbrev pub file_image : List ℕ → List (List Record) → List Record → List ℕ
file_image header blocks current =
    header
    ++ (concat (block_images 0 blocks)
        ++ (block_header_bytes (length blocks) (length current) ++ concat current))

abbrev pub IsBlock : List Record → Type 0
IsBlock recs = (length recs ≡ 31) × All (Sized 32) recs

abbrev pub IsFile : List ℕ → List (List Record) → List Record → Type 0
IsFile header blocks current =
    (length header ≡ 512) × All IsBlock blocks × (length current ≤ 30) × All (Sized 32) current

pub data_cnt_read : (k n : ℕ) → n < 65536 → data_cnt_of (block_header_bytes k n) ≡ n
data_cnt_read k n h = omega (arith, h)

length-block_image : (i : ℕ) (b : List Record) → IsBlock b → length (block_image i b) ≡ 1024
length-block_image i b h = omega (
  arith,
  length-append (concat b) (replicate 24 0),
  length-concat 32 b h.1,
  length-replicate {A = ℕ} 24 0,
  h.0,
)

pub block_images-Sized :
    (i : ℕ) (bs : List (List Record)) → All IsBlock bs → All (Sized 1024) (block_images i bs)
block_images-Sized i [] h = tt
block_images-Sized i (b ∷ bs) h = (length-block_image i b h.0, block_images-Sized (i + 1) bs h.1)

pub length-block_images : (i : ℕ) (bs : List (List Record)) → length (block_images i bs) ≡ length bs
length-block_images i [] = refl
length-block_images i (b ∷ bs) = ap suc (length-block_images (i + 1) bs)

get_or-block_images :
    (i k : ℕ) (bs : List (List Record))
    → k < length bs
    → get_or (block_images i bs) k [] ≡ block_image (i + k) (get_or bs k [])
get_or-block_images i k [] h = absurd (omega (arith, h))
get_or-block_images i zero (b ∷ bs) h =
    let z : i ≡ i + 0 = omega arith in ap (λ j. block_image j b) z
get_or-block_images i (suc k) (b ∷ bs) h =
    let s : i + 1 + k ≡ i + suc k = omega arith in
    get_or-block_images (i + 1) k bs (omega (arith, h)) ∙ ap (λ j. block_image j (get_or bs k [])) s

pub length-file_image :
    (header : List ℕ) (blocks : List (List Record)) (current : List Record)
    → IsFile header blocks current
    → length (file_image header blocks current) ≡ 520 + length blocks * 1024 + length current * 32
length-file_image header blocks current h =
    let last = block_header_bytes (length blocks) (length current) ++ concat current in
    omega (
      arith,
      length-append header (concat (block_images 0 blocks) ++ last),
      length-append (concat (block_images 0 blocks)) last,
      length-concat 1024 (block_images 0 blocks) (block_images-Sized 0 blocks h.1),
      length-block_images 0 blocks,
      length-concat 32 current h.3,
      h.0,
    )

-- The records of block `k`, the last of which may be partly filled.
abbrev pub block_of : List (List Record) → List Record → ℕ → List Record
block_of [] current zero = current
block_of [] current (suc k) = []
block_of (b ∷ bs) current zero = b
block_of (b ∷ bs) current (suc k) = block_of bs current k

block_of-lt :
    (blocks : List (List Record)) (current : List Record) (k : ℕ)
    → k < length blocks
    → block_of blocks current k ≡ get_or blocks k []
block_of-lt [] current k h = absurd (omega (arith, h))
block_of-lt (b ∷ bs) current zero h = refl
block_of-lt (b ∷ bs) current (suc k) h = block_of-lt bs current k (omega (arith, h))

block_of-end :
    (blocks : List (List Record)) (current : List Record)
    → block_of blocks current (length blocks) ≡ current
block_of-end [] current = refl
block_of-end (b ∷ bs) current = block_of-end bs current

get_or-IsBlock :
    (blocks : List (List Record)) (k : ℕ)
    → All IsBlock blocks
    → k < length blocks
    → IsBlock (get_or blocks k [])
get_or-IsBlock [] k h lt = absurd (omega (arith, lt))
get_or-IsBlock (b ∷ bs) zero h lt = h.0
get_or-IsBlock (b ∷ bs) (suc k) h lt = get_or-IsBlock bs k h.1 (omega (arith, lt))

-- Every block has at most 31 records of 32 bytes; all but the last have 31.
pub block_of-Sized :
    (header : List ℕ) (blocks : List (List Record)) (current : List Record) (k : ℕ)
    → IsFile header blocks current
    → k ≤ length blocks
    → All (Sized 32) (block_of blocks current k) × (length (block_of blocks current k) ≤ 31)
block_of-Sized header [] current zero h le = (h.3, omega (arith, h.2))
block_of-Sized header [] current (suc k) h le = absurd (omega (arith, le))
block_of-Sized header (b ∷ bs) current zero h le = (h.1.0.1, omega (arith, h.1.0.0))
block_of-Sized header (b ∷ bs) current (suc k) h le =
    block_of-Sized header bs current k (h.0, h.1.1, h.2, h.3) (omega (arith, le))

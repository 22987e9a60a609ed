-- ===== src/Trend/Samples/Reads.antt =====
-- Reads of block headers and records.
use swr.Base.{
  ℕ, zero, suc, ◌+◌, ◌*◌, ◌≤◌, ◌<◌, ◌≡◌, refl, ap, ◌∙◌, arith, Bool, List, [], ◌∷◌, length, inl,
  inr, Bool-cases, ltb, ltb→lt, get_or, take, drop, All,
}
use swr.Trend.{block_header_bytes, File, Storage}
use swr.Trend.Chunks.{Sized}
use swr.Trend.Layout.{
  Record, file_image, IsBlock, IsFile, length-file_image, block_of, block_of-Sized, data_cnt_read,
}
use swr.Trend.Layout.Places.{header_there, record_there}
use swr.Trend.Reader.{read_at, data_cnt_of}

pub get_or-Sized :
    (recs : List Record) (j : ℕ)
    → All (Sized 32) recs
    → j < length recs
    → length (get_or recs j []) ≡ 32
get_or-Sized [] j s lt = absurd (omega (arith, lt))
get_or-Sized (r ∷ rs) zero s lt = s.0
get_or-Sized (r ∷ rs) (suc j) s lt = get_or-Sized rs j s.1 (omega (arith, lt))

pub block_count :
    (blocks : List (List Record)) (current : List Record) (k : ℕ)
    → All IsBlock blocks
    → k < length blocks
    → length (block_of blocks current k) ≡ 31
block_count [] current k h lt = absurd (omega (arith, lt))
block_count (b ∷ bs) current zero h lt = h.0.0
block_count (b ∷ bs) current (suc k) h lt = block_count bs current k h.1 (omega (arith, lt))

pub block_count_end :
    (blocks : List (List Record)) (current : List Record)
    → length (block_of blocks current (length blocks)) ≡ length current
block_count_end [] current = refl
block_count_end (b ∷ bs) current = block_count_end bs current

module _ {F : Type 0} (dev : File F) (At : F → List ℕ → ℕ → Type 0) (law : Storage dev At)
    (header : List ℕ) (blocks : List (List Record)) (current : List Record)
    (h : IsFile header blocks current) where
  abbrev pub image : List ℕ
  image = file_image header blocks current

  abbrev pub recs : ℕ → List Record
  recs k = block_of blocks current k

  -- The file open for reading, at any position.
  abbrev pub Reading : F → Type 0
  Reading f = (p : ℕ) × At f image p

  read_bytes :
      (q n : ℕ) (f : F)
      → Reading f
      → q ≤ length image
      → (f' : F) × (read_at dev q n f ≡ (take n (drop q image), f')) × Reading f'
  read_bytes q n f (p, a) le =
      let (f1, e1, a1) = law.sought f image p q le a in
      let (f2, e2, a2) = law.got f1 image q n a1 in
      (f2, ap (λ (s : Bool × F). dev.read n s.1) e1 ∙ e2, (_, a2))

  -- A record of a block lies within the file.
  pub inside :
      (k j : ℕ)
      → k ≤ length blocks
      → j < length (recs k)
      → 512 + k * 1024 + 8 + j * 32 + 32 ≤ length image
  inside k j le lt = elim (Bool-cases (ltb k (length blocks))) [
    | inl small ↦ ground (
      arith,
      small,
      lt,
      block_count blocks current k h.1 (ltb→lt k (length blocks) small),
      length-file_image header blocks current h,
    )
    | inr large ↦
        let e : k ≡ length blocks = ground (arith, large, le) in
        let count : length (recs k) ≡ length current =
          ap (λ i. length (block_of blocks current i)) e ∙ block_count_end blocks current in
        omega (arith, e, lt, count, length-file_image header blocks current h)
  ]

  pub header_inside : (k : ℕ) → k ≤ length blocks → 512 + k * 1024 + 8 ≤ length image
  header_inside k le = omega (arith, le, length-file_image header blocks current h)

  pub read_head :
      (k : ℕ) (f : F)
      → Reading f
      → k ≤ length blocks
      → (f' : F) × (read_at dev (512 + k * 1024) 8 f ≡ (block_header_bytes k (length (recs k)), f'))
        × Reading f'
  read_head k f r le =
      let (f', e, r') = read_bytes (512 + k * 1024) 8 f r (omega (arith, header_inside k le)) in
      (f', e ∙ ap (λ b. (b, f')) (header_there header blocks current h k le), r')

  pub read_rec :
      (k j : ℕ) (f : F)
      → Reading f
      → k ≤ length blocks
      → j < length (recs k)
      → (f' : F) × (read_at dev (512 + k * 1024 + 8 + j * 32) 32 f ≡ (get_or (recs k) j [], f'))
        × Reading f'
  read_rec k j f r le lt =
      let (f', e, r') =
        read_bytes (512 + k * 1024 + 8 + j * 32) 32 f r (omega (arith, inside k j le lt)) in
      (f', e ∙ ap (λ b. (b, f')) (record_there header blocks current h k j le lt), r')

  pub counted :
      (k : ℕ)
      → k ≤ length blocks
      → data_cnt_of (block_header_bytes k (length (recs k))) ≡ length (recs k)
  counted k le =
      data_cnt_read k (length (recs k))
        (omega (arith, (block_of-Sized header blocks current k h le).1))

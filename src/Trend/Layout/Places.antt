-- ===== src/Trend/Layout/Places.antt =====
-- What a read at the offset of a block or of a record gets.
use mathlib.Core.List.{append_assoc, append-nil}
use mathlib.Core.Path.{subst}
use swr.Base.{
  ℕ, zero, suc, ◌+◌, ◌*◌, ◌≤◌, ◌<◌, ◌≡◌, inl, inr, refl, sym, ap, ◌∙◌, arith, List, [], ◌∷◌, ◌++◌,
  length, ltb, ltb→lt, Bool-cases, get_or, take, drop, drop-drop, replicate, All,
}
use swr.Trend.{block_header_bytes}
use swr.Trend.Chunks.{concat, Sized, take_prefix, drop_plus, drop-concat, drop-concat_end}
use swr.Trend.Layout.{
  Record, block_image, block_images, file_image, IsFile, block_images-Sized, length-block_images,
  get_or-block_images, block_of, block_of-lt, block_of-end, get_or-IsBlock, block_of-Sized,
}

module _ (header : List ℕ) (blocks : List (List Record)) (current : List Record)
    (h : IsFile header blocks current) where
  last_bytes : List ℕ
  last_bytes = block_header_bytes (length blocks) (length current) ++ concat current

  -- A block's bytes begin at its offset.
  Begins : ℕ → Type 0
  Begins k =
      (rest : List ℕ) × (drop (512 + k * 1024) (file_image header blocks current)
        ≡ block_header_bytes k (length (block_of blocks current k))
          ++ (concat (block_of blocks current k) ++ rest))

  full-Begins : (k : ℕ) → k < length blocks → Begins k
  unfolding Begins last_bytes
  full-Begins k lt =
      let images = block_images 0 blocks in
      let lt' : k < length images = omega (arith, lt, length-block_images 0 blocks) in
      let (rest, e) = drop-concat 1024 k images last_bytes (block_images-Sized 0 blocks h.1) lt' in
      let b = get_or blocks k [] in
      let own : block_of blocks current k ≡ b = block_of-lt blocks current k lt in
      let full : length b ≡ 31 = (get_or-IsBlock blocks k h.1 lt).0 in
      let z : 0 + k ≡ k = omega arith in
      (
        replicate 24 0 ++ rest,
        drop_plus 512 (k * 1024) header (concat images ++ last_bytes) h.0
            ∙ (e
                ∙ (ap (λ q. q ++ rest)
                      (get_or-block_images 0 k blocks lt ∙ ap (λ j. block_image j b) z)
                    ∙ (block_parts k b rest
                        ∙ subst
                            (λ n.
                              block_header_bytes k 31 ++ (concat b ++ (replicate 24 0 ++ rest))
                              ≡ block_header_bytes k n ++ (concat b ++ (replicate 24 0 ++ rest)))
                            (sym full) refl
                        ∙ ap
                            (λ q.
                              block_header_bytes k (length q)
                              ++ (concat q ++ (replicate 24 0 ++ rest)))
                            (sym own)))),
      )
    where
      block_parts :
          (k : ℕ) (b : List Record) (rest : List ℕ)
          → block_image k b ++ rest
            ≡ block_header_bytes k 31 ++ (concat b ++ (replicate 24 0 ++ rest))
      block_parts k b rest =
          ap (◌++◌ (block_header_bytes k 31)) (append_assoc (concat b) (replicate 24 0) rest)

  last-Begins : Begins (length blocks)
  unfolding Begins last_bytes
  last-Begins =
      let images = block_images 0 blocks in
      let own = block_of-end blocks current in
      (
        [],
        drop_plus 512 (length blocks * 1024) header (concat images ++ last_bytes) h.0
            ∙ (drop-concat_end 1024 (length blocks * 1024) images last_bytes
                  (block_images-Sized 0 blocks h.1) (omega (arith, length-block_images 0 blocks))
                ∙ (ap (◌++◌ (block_header_bytes (length blocks) (length current)))
                      (sym (append-nil (concat current)))
                    ∙ ap (λ q. block_header_bytes (length blocks) (length q) ++ (concat q ++ []))
                        (sym own))),
      )

  every-Begins : (k : ℕ) → k ≤ length blocks → Begins k
  every-Begins k le = elim (Bool-cases (ltb k (length blocks))) [
    | inl lt ↦ full-Begins k (ltb→lt k (length blocks) lt)
    | inr ge ↦ let e : length blocks ≡ k = ground (arith, ge, le) in subst Begins e last-Begins
  ]

  pub header_there :
      (k : ℕ)
      → k ≤ length blocks
      → take 8 (drop (512 + k * 1024) (file_image header blocks current))
        ≡ block_header_bytes k (length (block_of blocks current k))
  unfolding Begins
  header_there k le =
      let (rest, e) = every-Begins k le in
      let own = block_of blocks current k in
      ap (take 8) e ∙ take_prefix 8 (block_header_bytes k (length own)) (concat own ++ rest) refl

  pub record_there :
      (k j : ℕ)
      → k ≤ length blocks
      → j < length (block_of blocks current k)
      → take 32 (drop (512 + k * 1024 + 8 + j * 32) (file_image header blocks current))
        ≡ get_or (block_of blocks current k) j []
  unfolding Begins
  record_there k j le lt =
      let own = block_of blocks current k in
      let image = file_image header blocks current in
      let (rest, e) = every-Begins k le in
      let sizes = (block_of-Sized header blocks current k h le).0 in
      let (rest', e') = drop-concat 32 j own rest sizes lt in
      let place : 512 + k * 1024 + 8 + j * 32 ≡ 512 + k * 1024 + (8 + j * 32) = omega arith in
      ap (λ n. take 32 (drop n image)) place
      ∙ (ap (take 32) (drop-drop image (512 + k * 1024) (8 + j * 32) _ refl)
          ∙ (ap (λ q. take 32 (drop (8 + j * 32) q)) e
              ∙ (ap (take 32) (
                    drop_plus 8 (j * 32) (block_header_bytes k (length own)) (concat own ++ rest)
                      refl)
                  ∙ (ap (take 32) e'
                      ∙ take_prefix 32 (get_or own j []) rest' (get_or-Sized own j sizes lt)))))
    where
      get_or-Sized :
          (recs : List Record) (j : ℕ)
          → All (Sized 32) recs
          → j < length recs
          → length (get_or recs j []) ≡ 32
      get_or-Sized [] j s lt = absurd (omega (arith, lt))
      get_or-Sized (r ∷ rs) zero s lt = s.0
      get_or-Sized (r ∷ rs) (suc j) s lt = get_or-Sized rs j s.1 (omega (arith, lt))

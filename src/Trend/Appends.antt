-- ===== src/Trend/Appends.antt =====
-- What `appendRecord` makes of a trend file when no call of the file fails.
pub mod Steps
pub mod Recorded
use mathlib.Core.List.{append_assoc, append-nil}
use mathlib.Core.Path.{subst}
use swr.Base.{
  ℕ, zero, suc, ◌+◌, ◌-◌, ◌*◌, ◌/◌, ◌%◌, ◌^◌, ◌≤◌, ◌<◌, ◌≡◌, refl, sym, ap, ◌∙◌, arith, Bool, true,
  false, not, Option, none, some, List, [], ◌∷◌, ◌++◌, length, length-append, length-replicate, ltb,
  ◌==◌, if◌then◌else◌, inl, inr, Bool-cases, ==_iff, take, drop, take-append, drop-append,
  replicate, All, All-append,
}
use swr.Base.Int.{pos, eq_ℤ}
use swr.Store.Hash.{eq_ℤ_self}
use swr.Trend.{
  max_file_size, le16, words_le, block_header_bytes, TrendError, file_error, block_header_failed,
  File, Storage, overwrite,
}
use swr.Trend.Chunks.{concat, concat-append, Sized, length-concat, drop_plus, drop_prefix}
use swr.Trend.Layout.{
  Record, block_image, block_images, file_image, IsBlock, IsFile, length-file_image,
  block_images-Sized, length-block_images,
}
use swr.Trend.Writer.{
  Writer, write_all, put_at, after_header, after_pad, after_count, after_record, append_record,
  block_offset, worst_case,
}

pub overwrite_end : (p : ℕ) (bytes c : List ℕ) → p ≡ length c → overwrite p bytes c ≡ c ++ bytes
overwrite_end p bytes c e =
    subst (λ q. overwrite q bytes c ≡ c ++ bytes) (sym e)
      (ap (λ t. t ++ (bytes ++ drop (length c + length bytes) c)) (take_length c)
        ∙ ap (λ d. c ++ (bytes ++ d)) (drop_past c (length bytes))
        ∙ ap (◌++◌ c) (append-nil bytes))
  where
    take_length : (c : List ℕ) → take (length c) c ≡ c
    take_length [] = refl
    take_length (x ∷ c) = ap (◌∷◌ x) (take_length c)

    drop_past : (c : List ℕ) (n : ℕ) → drop (length c + n) c ≡ []
    drop_past c n =
        ap (drop (length c + n)) (sym (append-nil c))
        ∙ (drop_plus (length c) n c [] refl ∙ drop_none n)
      where
        drop_none : (n : ℕ) → drop {A = ℕ} n [] ≡ []
        drop_none zero = refl
        drop_none (suc n) = refl

overwrite_inside :
    (p q : ℕ) (bytes pre c : List ℕ)
    → p ≡ length pre + q
    → overwrite p bytes (pre ++ c) ≡ pre ++ overwrite q bytes c
overwrite_inside p q bytes pre c e =
    let r : length pre + q + length bytes ≡ length pre + (q + length bytes) = omega arith in
    subst (λ n. overwrite n bytes (pre ++ c) ≡ pre ++ overwrite q bytes c) (sym e)
      (ap (λ t. t ++ (bytes ++ drop (length pre + q + length bytes) (pre ++ c))) (take_plus q pre c)
        ∙ ap (λ n. (pre ++ take q c) ++ (bytes ++ drop n (pre ++ c))) r
        ∙ ap (λ d. (pre ++ take q c) ++ (bytes ++ d))
            (drop_plus (length pre) (q + length bytes) pre c refl)
        ∙ append_assoc pre (take q c) (bytes ++ drop (q + length bytes) c))
  where
    take_plus : (q : ℕ) (pre c : List ℕ) → take (length pre + q) (pre ++ c) ≡ pre ++ take q c
    take_plus q [] c = let z : 0 + q ≡ q = omega arith in ap (λ n. take n c) z
    take_plus q (x ∷ pre) c =
        let s : suc (length pre) + q ≡ suc (length pre + q) = omega arith in
        ap (λ n. take n (x ∷ (pre ++ c))) s ∙ ap (◌∷◌ x) (take_plus q pre c)

pub block_images-append :
    (i : ℕ) (bs : List (List Record)) (b : List Record)
    → block_images i (bs ++ (b ∷ [])) ≡ block_images i bs ++ (block_image (i + length bs) b ∷ [])
block_images-append i [] b = let z : i ≡ i + 0 = omega arith in ap (λ j. block_image j b ∷ []) z
block_images-append i (c ∷ bs) b =
    let s : i + 1 + length bs ≡ i + suc (length bs) = omega arith in
    ap (◌∷◌ (block_image i c)) (
      block_images-append (i + 1) bs b
      ∙ ap (λ j. block_images (i + 1) bs ++ (block_image j b ∷ [])) s)

pub length-words_le : (ws : List ℕ) → length (words_le ws) ≡ 2 * length ws
unfolding words_le
length-words_le [] = omega arith
length-words_le (w ∷ ws) = omega (arith, length-words_le ws)

-- The full blocks and the last one, one record later.
abbrev pub next_blocks : List (List Record) → List Record → Record → List (List Record)
next_blocks blocks current r =
    if length current == 30 then blocks ++ ((current ++ (r ∷ [])) ∷ []) else blocks

abbrev pub next_current : List Record → Record → List Record
next_current current r = if length current == 30 then [] else current ++ (r ∷ [])

abbrev pub writer_at : {F : Type 0} → F → List (List Record) → List Record → Writer F
writer_at f blocks current = record {
  file = f;
  blk_index = length blocks;
  data_cnt = length current;
  record_count = 31 * length blocks + length current;
}

-- The record written and the count `n` in the header, the block's pad and the next header not yet.
abbrev pub counted_image : List ℕ → List (List Record) → List Record → Record → ℕ → List ℕ
counted_image header blocks current r n =
    header
    ++ (concat (block_images 0 blocks)
        ++ (block_header_bytes (length blocks) n ++ concat (current ++ (r ∷ []))))

-- The offset at which the block that is being filled begins.
abbrev pub last_offset : List (List Record) → ℕ
last_offset blocks = 512 + length blocks * 1024

module _ (header : List ℕ) (blocks : List (List Record)) (current : List Record) (r : Record)
    (h : IsFile header blocks current) (hr : length r ≡ 32) where
  abbrev images : List ℕ
  images = concat (block_images 0 blocks)

  images_length : length images ≡ length blocks * 1024
  images_length = omega (
    arith,
    length-concat 1024 (block_images 0 blocks) (block_images-Sized 0 blocks h.1),
    length-block_images 0 blocks,
  )

  pub counted_length :
      (n : ℕ)
      → length (counted_image header blocks current r n)
        ≡ 512 + length blocks * 1024 + 8 + (length current + 1) * 32
  counted_length n =
      let tail = block_header_bytes (length blocks) n ++ concat (current ++ (r ∷ [])) in
      omega (
        arith,
        length-append header (images ++ tail),
        length-append images tail,
        images_length,
        length-concat 32 (current ++ (r ∷ []))
            (All-append (Sized 32) current (r ∷ []) h.3 (hr, tt)),
        length-append current (r ∷ []),
        h.0,
      )

  pub record_added :
      overwrite (last_offset blocks + 8 + length current * 32) r (file_image header blocks current)
      ≡ counted_image header blocks current r (length current)
  record_added =
      let bh = block_header_bytes (length blocks) (length current) in
      overwrite_end _ r (file_image header blocks current)
        (omega (arith, length-file_image header blocks current h))
      ∙ (append_assoc header (images ++ (bh ++ concat current)) r
          ∙ ap (◌++◌ header) (
              append_assoc images (bh ++ concat current) r
              ∙ ap (λ q. images ++ (bh ++ q))
                  (ap (◌++◌ (concat current)) (sym (append-nil r))
                    ∙ sym (concat-append current (r ∷ [])))))

  pub count_raised :
      (n m : ℕ)
      → overwrite (last_offset blocks + 4) (le16 m) (counted_image header blocks current r n)
        ≡ counted_image header blocks current r m
  count_raised n m =
      let body = concat (current ++ (r ∷ [])) in
      let bh = block_header_bytes (length blocks) in
      let inner = overwrite_inside (length images + 4) 4 (le16 m) images (bh n ++ body) refl in
      overwrite_inside (last_offset blocks + 4) (length images + 4) (le16 m) header
        (images ++ (bh n ++ body)) (omega (arith, images_length, h.0))
      ∙ ap (◌++◌ header) inner

  -- After the pad and the header of the next block.
  pub closed_block :
      (n : ℕ)
      → n ≡ 31
      → (counted_image header blocks current r n ++ replicate 24 0)
          ++ block_header_bytes (length blocks + 1) 0
        ≡ file_image header (blocks ++ ((current ++ (r ∷ [])) ∷ [])) []
  closed_block n e =
      let full = current ++ (r ∷ []) in
      let pad : List ℕ = replicate 24 0 in
      let next = block_header_bytes (length blocks + 1) 0 in
      let image = block_image (length blocks) full in
      let list = block_images 0 blocks in
      let z : 0 + length blocks ≡ length blocks = omega arith in
      let k : length blocks + 1 ≡ length (blocks ++ (full ∷ [])) =
        omega (arith, length-append blocks (full ∷ [])) in
      ap (λ m. (counted_image header blocks current r m ++ pad) ++ next) e
      ∙ (regroup header images (block_header_bytes (length blocks) 31 ++ concat full) pad next
          ∙ ap (◌++◌ header) (
              ap (λ q. images ++ (q ++ next)) (sym (append-nil image))
              ∙ (sym (append_assoc images (image ++ []) next)
                  ∙ (ap (λ q. q ++ next) (sym (concat-append list (image ∷ [])))
                      ∙ (ap (λ q. concat (list ++ (q ∷ [])) ++ next)
                            (ap (λ j. block_image j full) (sym z))
                          ∙ (ap (λ q. concat q ++ next) (sym (block_images-append 0 blocks full))
                              ∙ ap
                                  (λ j.
                                    concat (block_images 0 (blocks ++ (full ∷ [])))
                                    ++ block_header_bytes j 0)
                                  k))))))
    where
      regroup : (a b c d e : List ℕ) → ((a ++ (b ++ c)) ++ d) ++ e ≡ a ++ (b ++ ((c ++ d) ++ e))
      regroup a b c d e =
          append_assoc (a ++ (b ++ c)) d e
          ∙ (append_assoc a (b ++ c) (d ++ e)
              ∙ ap (◌++◌ a) (append_assoc b c (d ++ e) ∙ ap (◌++◌ b) (sym (append_assoc c d e))))

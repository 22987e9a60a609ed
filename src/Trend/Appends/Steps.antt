-- ===== src/Trend/Appends/Steps.antt =====
-- `appendRecord` on a file that holds the image of some records.
use mathlib.Core.Path.{subst}
use swr.Base.{
  ℕ, ◌+◌, ◌*◌, ◌%◌, ◌≤◌, ◌≡◌, refl, ap, ◌∙◌, arith, true, false, Option, none, List, [], ◌∷◌, ◌++◌,
  length, length-append, ltb, ◌==◌, inl, inr, Bool-cases, replicate,
}
use swr.Base.Int.{pos}
use swr.Store.Hash.{eq_ℤ_self}
use swr.Trend.{
  max_file_size, le16, words_le, block_header_bytes, TrendError, file_error, block_header_failed,
  File, Storage, overwrite,
}
use swr.Trend.Layout.{Record, file_image, IsFile, length-file_image}
use swr.Trend.Writer.{
  Writer, write_all, put_at, after_header, after_pad, after_count, after_record, append_record,
  block_offset, worst_case,
}
use swr.Trend.Appends.{
  next_blocks, next_current, writer_at, counted_image, last_offset, length-words_le, overwrite_end,
  counted_length, record_added, count_raised, closed_block,
}

module _ {F : Type 0} (dev : File F) (At : F → List ℕ → ℕ → Type 0) (law : Storage dev At) where
  abbrev Puts : ℕ → TrendError → List ℕ → F → List ℕ → Type 0
  Puts q e bytes f c = (f' : F) × (p : ℕ) × (put_at dev q e bytes f ≡ (none, f')) × At f' c p

  puts :
      (q : ℕ) (e : TrendError) (bytes : List ℕ) (f : F) (c c' : List ℕ) (p : ℕ)
      → At f c p
      → q ≤ length c
      → overwrite q bytes c ≡ c'
      → Puts q e bytes f c'
  unfolding put_at write_all
  puts q e bytes f c c' p a le eq =
      let (f1, e1, a1) = law.sought f c p q le a in
      let (f2, e2, a2) = law.written f1 c q bytes le a1 in
      (
        f2,
        q + length bytes,
        rw (e1, e2, put_at, write_all, eq_ℤ_self (pos (length bytes))) refl,
        subst (λ z. At f2 z (q + length bytes)) eq a2,
      )

  -- The writer once the counts are raised; the file is replaced in what follows.
  abbrev counted_at : F → List (List Record) → List Record → Writer F
  counted_at f blocks current = record (writer_at f blocks current) {
    data_cnt = (length current + 1) % 65536;
    record_count = (31 * length blocks + length current + 1) % 4294967296;
  }

  abbrev Becomes :
      (Option TrendError × Writer F) → List ℕ → List (List Record) → List Record → Type 0
  Becomes result header blocks current =
      (f' : F) × (p : ℕ) × (result ≡ (none, writer_at f' blocks current))
      × At f' (file_image header blocks current) p

  abbrev make_writer : F → ℕ → ℕ → ℕ → Writer F
  make_writer f i n c = record { file = f; blk_index = i; data_cnt = n; record_count = c }

  same_writer :
      (f : F) (i i' n n' c c' : ℕ)
      → i ≡ i'
      → n ≡ n'
      → c ≡ c'
      → make_writer f i n c ≡ make_writer f i' n' c'
  same_writer f i i' n n' c c' ei en ec = rw (ei, en, ec) refl

  module _ (header : List ℕ) (blocks : List (List Record)) (current : List Record) (r : Record)
      (h : IsFile header blocks current) (hr : length r ≡ 32)
      (fits : 552 + length blocks * 1024 + length current * 32 ≤ 4294967296) where
    -- The block is not full.
    open_end :
        (f f2 : F) (p : ℕ)
        → (length current == 30) ≡ false
        → At f2 (counted_image header blocks current r ((length current + 1) % 65536)) p
        → Becomes
            (after_count dev (counted_at f blocks current) (none, f2))
            header
            blocks
            (current ++ (r ∷ []))
    unfolding after_count
    open_end f f2 p e a =
        let n : (length current + 1) % 65536 ≡ length (current ++ (r ∷ [])) =
          omega (arith, length-append current (r ∷ []), h.2) in
        let c : (31 * length blocks + length current + 1) % 4294967296
            ≡ 31 * length blocks + length (current ++ (r ∷ [])) =
          omega (arith, length-append current (r ∷ []), fits) in
        let not_full : ((length current + 1) % 65536 == 31) ≡ false = ground (arith, e, h.2) in
        (
          dev.flush f2,
          p,
          rw (not_full, after_count)
              (ap (λ w. (none, w)) (same_writer (dev.flush f2) _ _ _ _ _ _ refl n c)),
          subst (λ m. At (dev.flush f2) (counted_image header blocks current r m) p) n
              (law.flushed f2 _ p a),
        )

    -- The block is full: the pad and the header of the next one.
    full_end :
        (f f2 : F) (p : ℕ)
        → (length current == 30) ≡ true
        → At f2 (counted_image header blocks current r ((length current + 1) % 65536)) p
        → Becomes
            (after_count dev (counted_at f blocks current) (none, f2))
            header
            (blocks ++ ((current ++ (r ∷ [])) ∷ []))
            []
    unfolding after_count after_pad after_header block_offset
    full_end f f2 p e a =
        let w = counted_at f blocks current in
        let m = (length current + 1) % 65536 in
        let next = (length blocks + 1) % 4294967296 in
        let full : m ≡ 31 = ground (arith, e) in
        let is_full : (m == 31) ≡ true = ground (arith, full) in
        let c2 = counted_image header blocks current r m in
        let pad : List ℕ = replicate 24 0 in
        let len = counted_length header blocks current r h hr m in
        let at_end : last_offset blocks + 8 + 31 * 32 ≡ length c2 = ground (arith, len, e) in
        let (f3, p3, e3, a3) =
          puts (last_offset blocks + 8 + 31 * 32) file_error pad f2 c2 (c2 ++ pad) p a
            (omega (arith, at_end)) (overwrite_end _ pad c2 at_end) in
        let next_eq : next ≡ length blocks + 1 = omega (arith, fits) in
        let at_next : 512 + next * 1024 ≡ length (c2 ++ pad) =
          omega (arith, at_end, next_eq, length-append c2 pad) in
        let bytes = block_header_bytes next 0 in
        let (f4, p4, e4, a4) =
          puts (512 + next * 1024) block_header_failed bytes f3 (c2 ++ pad) ((c2 ++ pad) ++ bytes)
            p3 a3 (omega (arith, at_next)) (overwrite_end _ bytes (c2 ++ pad) at_next) in
        let last = (current ++ (r ∷ [])) ∷ [] in
        let n : next ≡ length (blocks ++ last) =
          omega (arith, next_eq, length-append blocks last) in
        let c : (31 * length blocks + length current + 1) % 4294967296
            ≡ 31 * length (blocks ++ last) + 0 =
          ground (arith, e, length-append blocks last, fits) in
        (
          dev.flush f4,
          p4,
          rw (is_full, after_count) (ap (after_pad dev w) e3 ∙ ap (after_header dev w) e4)
              ∙ ap (λ z. (none, z)) (same_writer (dev.flush f4) _ _ _ _ _ _ n refl c),
          subst (λ z. At (dev.flush f4) z p4)
              (ap (λ j. (c2 ++ pad) ++ block_header_bytes j 0) next_eq
                ∙ closed_block header blocks current r h hr m full)
              (law.flushed f4 _ p4 a4),
        )

    count_end :
        (f f2 : F) (p : ℕ)
        → At f2 (counted_image header blocks current r ((length current + 1) % 65536)) p
        → Becomes
            (after_count dev (counted_at f blocks current) (none, f2))
            header
            (next_blocks blocks current r)
            (next_current current r)
    count_end f f2 p a = elim (Bool-cases (length current == 30)) [
      | inl e ↦ rw e (full_end f f2 p e a)
      | inr e ↦ rw e (open_end f f2 p e a)
    ]

  -- The writer adds a record to the image, if the file is not full.
  pub append_record-Becomes :
      (header : List ℕ) (blocks : List (List Record)) (current : List Record) (values : List ℕ)
      (f : F) (p : ℕ)
      → IsFile header blocks current
      → length values ≡ 16
      → length (file_image header blocks current) + worst_case (writer_at f blocks current)
        ≤ max_file_size
      → At f (file_image header blocks current) p
      → Becomes
          (append_record dev values (writer_at f blocks current))
          header
          (next_blocks blocks current (words_le values))
          (next_current current (words_le values))
  unfolding append_record after_record worst_case block_offset
  append_record-Becomes header blocks current values f p h hv small a =
      let r = words_le values in
      let hr : length r ≡ 32 = omega (arith, length-words_le values, hv) in
      let len = length-file_image header blocks current h in
      let fits : 552 + length blocks * 1024 + length current * 32 ≤ 4294967296 =
        ground (arith, small, len) in
      let image = file_image header blocks current in
      let w = writer_at f blocks current in
      let n = length current in
      let not_large : ltb max_file_size (length image + worst_case w) ≡ false =
        ground (arith, small) in
      let (f1, p1, e1, a1) =
        puts (last_offset blocks + 8 + n * 32) file_error r f image _ p a (omega (arith, len))
          (record_added header blocks current r h hr) in
      let c1 = counted_image header blocks current r n in
      let (f2, p2, e2, a2) =
        puts (last_offset blocks + 4) file_error (le16 ((n + 1) % 65536)) f1 c1 _ p1 a1
          (omega (arith, counted_length header blocks current r h hr n))
          (count_raised header blocks current r h hr n ((n + 1) % 65536)) in
      let (f', p', e', a') = count_end header blocks current r h hr fits f f2 p2 a2 in
      (
        f',
        p',
        rw (law.opened f image p a, law.sized f image p a, not_large, append_record)
            (ap (after_record dev w) e1
              ∙ (ap (after_count dev (counted_at f blocks current)) e2 ∙ e')),
        a',
      )

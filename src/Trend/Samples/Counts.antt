-- ===== src/Trend/Samples/Counts.antt =====
-- The number of records by the header of the last block.
use swr.Base.{
  ℕ, ◌+◌, ◌-◌, ◌*◌, ◌/◌, ◌%◌, ◌^◌, ◌≤◌, ◌≡◌, refl, ap, ◌∙◌, arith, true, false, String, List,
  length, inr, ltb, if◌then◌else◌, take,
}
use swr.Trend.{File, Storage}
use swr.Trend.Chunks.{take_prefix}
use swr.Trend.Layout.{Record, file_image, IsFile, length-file_image}
use swr.Trend.Reader.{byte, freq_of, stime_of, Calendar, stime_to_unix, count_records, parse_header}
use swr.Trend.Samples.{records, length-records}
use swr.Trend.Samples.Reads.{Reading, read_head, counted, block_count_end, header_inside}

ltb_ge : (a b : ℕ) → b ≤ a → ltb a b ≡ false
ltb_ge a b h = ground arith

module _ {F : Type 0} (dev : File F) (At : F → List ℕ → ℕ → Type 0) (law : Storage dev At)
    (header : List ℕ) (blocks : List (List Record)) (current : List Record)
    (h : IsFile header blocks current) where
  abbrev size : ℕ
  size = length (file_image header blocks current)

  last_block : (size - 512) / 1024 ≡ length blocks
  last_block = omega (arith, length-file_image header blocks current h, h.2)

  abbrev all_records : ℕ
  all_records = length (records blocks current)

  counts :
      (f : F)
      → Reading dev At law header blocks current h f
      → (f' : F) × (count_records dev size f ≡ (all_records % 2 ^ 32, f'))
  unfolding count_records
  counts f o =
      let (f1, e1, o1) =
        read_head dev At law header blocks current h (length blocks) f o (omega arith) in
      let n =
        counted dev At law header blocks current h (length blocks) (omega arith)
        ∙ block_count_end blocks current in
      let long : ltb size 520 ≡ false =
        ltb_ge size 520 (omega (arith, length-file_image header blocks current h)) in
      let inside : ltb size (512 + length blocks * 1024 + 8) ≡ false =
        ltb_ge size _
          (header_inside dev At law header blocks current h (length blocks) (omega arith)) in
      let total : length blocks * 31 + length current ≡ all_records =
        omega (arith, length-records blocks current h.1) in
      (
        f1,
        rw (long, last_block, count_records)
            (rw (inside, e1) (rw n (ap (λ m. (m % 2 ^ 32, f1)) total))),
      )

  -- `parseHeader` of a file that holds the image of records behind a header that begins with `SW`
  -- gives, with no calls of the file failing, the number of the records (as a number of 32 bits),
  -- the size of the file, and the start time and the interval of the header; the end is the start
  -- and one interval for each record.
  pub parse_header_counts :
      (cal : Calendar) (name : String) (g g1 : F)
      → dev.open_read g ≡ (true, g1)
      → At g1 (file_image header blocks current) 0
      → byte header 0 ≡ 83
      → byte header 1 ≡ 87
      → (parse_header dev cal name g).0
        ≡ inr (record {
          filename = name;
          start_time = stime_to_unix cal (stime_of header);
          end_time =
              if ltb 0 (freq_of header)
              then (stime_to_unix cal (stime_of header) + all_records % 2 ^ 32 * freq_of header)
                % 2 ^ 32
              else stime_to_unix cal (stime_of header);
          freq = freq_of header;
          ch_count = byte header 5;
          record_count = all_records % 2 ^ 32;
          file_size = size;
        })
  unfolding parse_header
  parse_header_counts cal name g g1 eo a magic0 magic1 =
      let image = file_image header blocks current in
      let (g2, e2, a2) = law.got g1 image 0 512 a in
      let head : take 512 image ≡ header = take_prefix 512 header _ h.0 in
      let e2' = e2 ∙ ap (λ b. (b, g2)) head in
      let sized = law.sized g2 image _ a2 in
      let (g3, e3) = counts g2 (_, a2) in
      let whole : ltb (length header) 512 ≡ false =
        ltb_ge (length header) 512 (omega (arith, h.0)) in
      rw (eo, parse_header) (rw e2' (rw (whole, magic0, magic1, sized) (rw e3 refl)))

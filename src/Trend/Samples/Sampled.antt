-- ===== src/Trend/Samples/Sampled.antt =====
-- Samples by the index of the records.
use swr.Base.{
  ℕ, zero, suc, ◌+◌, ◌-◌, ◌*◌, ◌/◌, ◌%◌, ◌≤◌, ◌<◌, ◌≡◌, refl, ap, ◌∙◌, arith, Bool, true, false,
  ◌||◌, Option, none, some, List, [], ◌++◌, length, inl, inr, ◌⊎◌, Bool-cases, ltb, leb, leb→le,
  ◌==◌, if◌then◌else◌, get_or, get_elem?, get_elem?-get_or, take,
}
use swr.Trend.{TrendError, File, Storage}
use swr.Trend.Chunks.{take_prefix}
use swr.Trend.Layout.{Record, file_image, IsFile, length-file_image, block_of, block_of-Sized}
use swr.Trend.Reader.{
  Calendar, freq_of, stime_of, stime_to_unix, index_at, load_block, load_record, sample_loop,
  read_sample,
}
use swr.Trend.Samples.{records, records_at, length-records, none_past}
use swr.Trend.Samples.Reads.{
  Reading, inside, header_inside, read_head, read_rec, counted, get_or-Sized,
}

-- The records from index `ri` to index `last`, every `step`-th, up to the first that is missing.
abbrev pub sampled : List Record → ℕ → ℕ → ℕ → ℕ → List ℕ
sampled rs last step zero ri = []
sampled rs last step (suc n) ri =
    let rest = sampled rs last step n (ri + step) in
    if ltb last ri then [] else elim (get_elem? rs ri) [ none ↦ [] | some r ↦ r ++ rest ]

file_of : {A F : Type 0} {a : A} {f : F} {q : A × F} → q ≡ (a, f) → q.1 ≡ f
file_of e = ap (λ p. p.1) e

ltb_ge : (a b : ℕ) → b ≤ a → ltb a b ≡ false
ltb_ge a b h = ground arith

chosen :
    {F : Type 0} (early none_left : Bool) (f : F) (q : List ℕ × F)
    → (if◌then◌else◌ {A = (TrendError ⊎ List ℕ) × F} early
        (inr [], f)
        (if◌then◌else◌ {A = (TrendError ⊎ List ℕ) × F} none_left (inr [], f) (inr q.0, q.1))).0
      ≡ inr (if early || none_left then [] else q.0)
chosen true none_left f q = refl
chosen false true f q = refl
chosen false false f q = refl

module _ {F : Type 0} (dev : File F) (At : F → List ℕ → ℕ → Type 0) (law : Storage dev At)
    (header : List ℕ) (blocks : List (List Record)) (current : List Record)
    (h : IsFile header blocks current) where
  abbrev block_at : ℕ → List Record
  block_at k = block_of blocks current k

  abbrev Open : F → Type 0
  Open = Reading dev At law header blocks current h

  abbrev size : ℕ
  size = length (file_image header blocks current)

  -- The cursor tells the truth.
  abbrev Valid : Option ℕ → ℕ → Type 0
  Valid none count = Unit {0}
  Valid (some b) count = (b ≤ length blocks) × (count ≡ length (block_at b))

  loaded_fresh :
      (k count : ℕ) (f : F) (cursor : Option ℕ)
      → Open f
      → k ≤ length blocks
      → (elim cursor as (λ c. Bool) [ none ↦ false | some b ↦ b == k ]) ≡ false
      → (f' : F) × (load_block dev size k cursor count f ≡ (some (length (block_at k)), f'))
        × Open f'
  unfolding load_block
  loaded_fresh k count f cursor o le other =
      let (f1, e1, o1) = read_head dev At law header blocks current h k f o le in
      let size1 : ltb size (512 + k * 1024 + 8) ≡ false =
        ground (arith, header_inside dev At law header blocks current h k le) in
      let n = counted dev At law header blocks current h k le in
      (f1, rw (other, size1, load_block, e1) (ap (λ c. (some c, f1)) n), o1)

  loaded :
      (k count : ℕ) (f : F) (cursor : Option ℕ)
      → Open f
      → Valid cursor count
      → k ≤ length blocks
      → (f' : F) × (load_block dev size k cursor count f ≡ (some (length (block_at k)), f'))
        × Open f'
  unfolding load_block
  loaded k count f none o v le = loaded_fresh k count f none o le refl
  loaded k count f (some b) o v le = elim (Bool-cases (b == k)) [
    | inl same ↦
        let e : b ≡ k = ground (arith, same) in
        (
          f,
          rw (same, load_block) (ap (λ c. (some c, f)) (v.1 ∙ ap (λ i. length (block_at i)) e)),
          o,
        )
    | inr other ↦ loaded_fresh k count f (some b) o le other
  ]

  past_end :
      (k count : ℕ) (f : F) (cursor : Option ℕ)
      → Valid cursor count
      → length blocks < k
      → load_block dev size k cursor count f ≡ (none, f)
  unfolding load_block
  past_end k count f cursor v lt =
      let size1 : ltb size (512 + k * 1024 + 8) ≡ true =
        ground (arith, length-file_image header blocks current h, h.2, lt) in
      elim cursor as (λ c. Valid c count → load_block dev size k c count f ≡ (none, f)) [
        | none ↦ λ v'. rw (size1, load_block) refl
        | some b ↦ λ v'.
            let other : (b == k) ≡ false = ground (arith, v'.0, lt) in
            rw (other, size1, load_block) refl
      ]
        v

  record_loaded :
      (ri : ℕ) (f : F)
      → Open f
      → ri / 31 ≤ length blocks
      → leb (length (block_at (ri / 31))) (ri % 31) ≡ false
      → (f' : F) × (load_record dev size ri (length (block_at (ri / 31))) f
          ≡ (some (get_or (block_at (ri / 31)) (ri % 31) []), f'))
        × Open f'
  unfolding load_record
  record_loaded ri f o le some_left =
      let k = ri / 31 in
      let j = ri % 31 in
      let lt : j < length (block_at k) = ground (arith, some_left) in
      let (f1, e1, o1) = read_rec dev At law header blocks current h k j f o le lt in
      let size1 : ltb size (512 + k * 1024 + 8 + j * 32 + 32) ≡ false =
        ground (arith, inside dev At law header blocks current h k j le lt) in
      let whole : length (get_or (block_at k) j []) ≡ 32 =
        get_or-Sized (block_at k) j (block_of-Sized header blocks current k h le).0 lt in
      let full : ltb (length (get_or (block_at k) j [])) 32 ≡ false = ground (arith, whole) in
      (f1, rw (some_left, size1, load_record, e1) (rw full refl), o1)

  loop_stops :
      (last step n ri count : ℕ) (cursor : Option ℕ) (f f1 : F)
      → load_block dev size (ri / 31) cursor count f ≡ (none, f1)
      → (sample_loop dev size last step (suc n) ri cursor count f).0 ≡ []
  unfolding sample_loop
  loop_stops last step n ri count cursor f f1 e = elim (Bool-cases (ltb last ri)) [
    | inl b ↦ rw (b, sample_loop) refl
    | inr b ↦ rw (b, sample_loop, e) refl
  ]

  loop_ends :
      (last step n ri count c : ℕ) (cursor : Option ℕ) (f f1 f2 : F)
      → load_block dev size (ri / 31) cursor count f ≡ (some c, f1)
      → load_record dev size ri c f1 ≡ (none, f2)
      → (sample_loop dev size last step (suc n) ri cursor count f).0 ≡ []
  unfolding sample_loop
  loop_ends last step n ri count c cursor f f1 f2 e e' = elim (Bool-cases (ltb last ri)) [
    | inl b ↦ rw (b, sample_loop) refl
    | inr b ↦ rw (b, sample_loop, e) (rw (file_of e) (rw e' refl))
  ]

  loop_goes_on :
      (last step n ri count c : ℕ) (cursor : Option ℕ) (f f1 f2 : F) (r : Record)
      → load_block dev size (ri / 31) cursor count f ≡ (some c, f1)
      → load_record dev size ri c f1 ≡ (some r, f2)
      → ltb last ri ≡ false
      → (sample_loop dev size last step (suc n) ri cursor count f).0
        ≡ r ++ (sample_loop dev size last step n (ri + step) (some (ri / 31)) c f2).0
  unfolding sample_loop
  loop_goes_on last step n ri count c cursor f f1 f2 r e e' b =
      rw (b, sample_loop, e) (rw (file_of e) (rw e' (rw (file_of e) (rw (file_of e') refl))))

  missing : (ri : ℕ) → length blocks < ri / 31 → get_elem? (records blocks current) ri ≡ none
  missing ri lt =
      none_past (records blocks current) ri
        (omega (arith, lt, length-records blocks current h.1, h.2))

  loop_lem :
      (last step n ri count : ℕ) (cursor : Option ℕ) (f : F)
      → Open f
      → Valid cursor count
      → (sample_loop dev size last step n ri cursor count f).0
        ≡ sampled (records blocks current) last step n ri
  unfolding sample_loop load_record
  loop_lem last step zero ri count cursor f o v = refl
  loop_lem last step (suc n) ri count cursor f o v = elim (Bool-cases (ltb last ri)) [
    | inl b ↦ rw (b, sample_loop) refl
    | inr b ↦ elim (Bool-cases (leb (ri / 31) (length blocks))) [
      | inr beyond ↦
          let lt : length blocks < ri / 31 = ground (arith, beyond) in
          loop_stops last step n ri count cursor f f (past_end (ri / 31) count f cursor v lt)
          ∙ rw (b, missing ri (omega (arith, lt))) refl
      | inl within ↦
          let le = leb→le (ri / 31) (length blocks) within in
          let (f1, e1, o1) = loaded (ri / 31) count f cursor o v le in
          elim (Bool-cases (leb (length (block_at (ri / 31))) (ri % 31))) [
            | inr some_left ↦
                let (f2, e2, o2) = record_loaded ri f1 o1 le some_left in
                let r = get_or (block_at (ri / 31)) (ri % 31) [] in
                let there : get_elem? (records blocks current) ri ≡ some r =
                  records_at blocks current ri h.1 h.2
                  ∙ get_elem?-get_or (block_at (ri / 31)) (ri % 31) []
                      (ground (arith, some_left)) in
                loop_goes_on last step n ri count (length (block_at (ri / 31))) cursor f f1 f2 r e1
                  e2 b
                ∙ (ap (◌++◌ r) (
                      loop_lem last step n (ri + step) (length (block_at (ri / 31)))
                        (some (ri / 31)) f2 o2 (le, refl))
                    ∙ rw (b, there) refl)
            | inl none_left ↦
                loop_ends last step n ri count (length (block_at (ri / 31))) cursor f f1 f1 e1
                  (rw (none_left, load_record) refl)
                ∙ rw
                    (
                      b,
                      records_at blocks current ri h.1 h.2,
                      none_past (block_at (ri / 31)) (ri % 31) (ground (arith, none_left)),
                    )
                    refl
          ]
    ]
  ]

  -- `readSample` of a file that holds the image of records, with no calls of the file failing, by the
  -- indices that it computes of the two times.
  pub read_sample-sampled :
      (cal : Calendar) (from to step : ℕ) (g g1 : F)
      → dev.open_read g ≡ (true, g1)
      → At g1 (file_image header blocks current) 0
      → (freq_of header == 0) ≡ false
      → let start = stime_to_unix cal (stime_of header) in
        let freq = freq_of header in
        let first = if leb start from then index_at from start freq else 0 in
        let last = index_at to start freq in
        (read_sample dev cal from to step g).0
        ≡ inr (
            if ltb to start || ltb last first
            then []
            else sampled
                (records blocks current)
                last
                (if step == 0 then 1 else step)
                (last + 1 - first)
                first)
  unfolding read_sample
  read_sample-sampled cal from to step g g1 eo a hf =
      let image = file_image header blocks current in
      let sized = law.sized g1 image 0 a in
      let (g2, e2, a2) = law.got g1 image 0 512 a in
      let head : take 512 image ≡ header = take_prefix 512 header _ h.0 in
      let e2' = e2 ∙ ap (λ b. (b, g2)) head in
      let long : ltb size 520 ≡ false =
        ltb_ge size 520 (omega (arith, length-file_image header blocks current h)) in
      let whole : ltb (length header) 512 ≡ false =
        ltb_ge (length header) 512 (omega (arith, h.0)) in
      let start = stime_to_unix cal (stime_of header) in
      let freq = freq_of header in
      let first = if leb start from then index_at from start freq else 0 in
      let last = index_at to start freq in
      let step' = if step == 0 then 1 else step in
      rw (eo, read_sample)
        (rw (sized, long, e2')
          (rw (whole, hf)
            (chosen (ltb to start) (ltb last first) g2
                (sample_loop dev size last step' (last + 1 - first) first none 0 g2)
              ∙ ap (λ bytes. inr (if ltb to start || ltb last first then [] else bytes))
                  (loop_lem last step' (last + 1 - first) first 0 none g2 (_, a2) tt))))

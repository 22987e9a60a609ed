-- ===== src/Trend/Samples/Times.antt =====
-- Samples by the time of the records: a record stands for the time from its own to that of the next one.
use native.Mathlib.Nat.{le-div_iff_mul-le, div-lt_iff_lt-mul}
use swr.Base.{
  ℕ, ◌+◌, ◌-◌, ◌*◌, ◌/◌, ◌≤◌, ◌<◌, ◌≡◌, refl, sym, ap, ◌∙◌, arith, true, false, ◌&&◌, ◌||◌, List,
  [], inl, inr, Bool-cases, ltb, leb, leb→le, ltb→lt, ◌==◌, if◌then◌else◌,
}
use swr.Trend.{File, Storage}
use swr.Trend.Layout.{Record, file_image, IsFile}
use swr.Trend.Reader.{Calendar, freq_of, stime_of, stime_to_unix, index_at, read_sample}
use swr.Trend.Samples.{records}
use swr.Trend.Samples.Sampled.{sampled, read_sample-sampled}
use swr.Trend.Samples.Selected.{
  time_of, in_range, selected, every, sampled-every, selected_none, selected_window,
}

bounds_agree : (a b c d : ℕ) → (a < b → c ≤ d) → (c ≤ d → a < b) → ltb a b ≡ leb c d
bounds_agree a b c d f g = elim (Bool-cases (ltb a b)) [
  | inl k ↦ ground (arith, k, f (ltb→lt a b k))
  | inr k ↦ elim (Bool-cases (leb c d)) [
    | inl l ↦ ground (arith, k, g (leb→le c d l))
    | inr l ↦ k ∙ sym l
  ]
]

module _ (start freq from to : ℕ) (positive : 0 < freq) where
  abbrev first_index : ℕ
  first_index = if leb start from then index_at from start freq else 0

  after_from : (i : ℕ) → ltb from (time_of start freq (i + 1)) ≡ leb first_index i
  after_from i = elim (Bool-cases (leb start from)) [
    | inl k ↦ rw k (
        bounds_agree from (start + (i + 1) * freq) ((from - start) / freq) i
          (λ l.
            let q : (from - start) / freq < i + 1 =
              (div-lt_iff_lt-mul positive).1 (ground (arith, k, l)) in
            omega (arith, q))
          (λ l.
            let q =
              (div-lt_iff_lt-mul {k = freq} {x = from - start} {y = i + 1} positive).0
                (omega (arith, l)) in
            ground (arith, k, q)))
    | inr k ↦ rw k (ground (arith, k))
  ]

  not_after_to :
      (i : ℕ) → start ≤ to → leb (time_of start freq i) to ≡ leb i (index_at to start freq)
  not_after_to i h = elim (Bool-cases (leb i (index_at to start freq))) [
    | inl k ↦
        let q = (le-div_iff_mul-le {k = freq} {x = i} {y = to - start} positive).0 (leb→le i _ k) in
        ground (arith, k, q, h)
    | inr k ↦ elim (Bool-cases (leb (time_of start freq i) to)) [
      | inr l ↦ l ∙ sym k
      | inl l ↦
          let q =
            (le-div_iff_mul-le {k = freq} {x = i} {y = to - start} positive).1
              (ground (arith, l)) in
          ground (arith, k, q)
    ]
  ]

  in_range_window :
      start ≤ to
      → (i : ℕ)
      → in_range start freq from to i ≡ (leb first_index i && leb i (index_at to start freq))
  in_range_window h i = rw (after_from i, not_after_to i h) refl

  nothing_before : ltb to start ≡ true → (i : ℕ) → in_range start freq from to i ≡ false
  nothing_before h i = ground (arith, h)

  -- What the code selects by index.
  by_time :
      (rs : List Record) (step : ℕ)
      → 1 ≤ step
      → (if ltb to start || ltb (index_at to start freq) first_index
          then []
          else sampled rs
              (index_at to start freq)
              step
              (index_at to start freq + 1 - first_index)
              first_index)
        ≡ every step 0 (selected (in_range start freq from to) 0 rs)
  by_time rs step s = elim (Bool-cases (ltb to start)) [
    | inl k ↦ rw (k, selected_none (in_range start freq from to) 0 rs (nothing_before k)) refl
    | inr k ↦
        let last = index_at to start freq in
        let taken =
          selected_window (in_range start freq from to) first_index last
            (in_range_window (ground (arith, k))) rs in
        elim (Bool-cases (ltb last first_index)) [
          | inl l ↦
              let e : last + 1 - first_index ≡ 0 = ground (arith, l) in rw (k, l, taken, e) refl
          | inr l ↦
              rw (k, l, taken)
                (sampled-every rs last step (last + 1 - first_index) first_index (omega arith) s)
        ]
  ]

module _ {F : Type 0} (dev : File F) (At : F → List ℕ → ℕ → Type 0) (law : Storage dev At)
    (header : List ℕ) (blocks : List (List Record)) (current : List Record)
    (h : IsFile header blocks current) where
  -- `readSample` of a file that holds the image of records, with no calls of the file failing and an
  -- interval in the header that is not 0, returns every `step`-th (a step of 0 counts as 1) of the
  -- records of which the time is not after `to` and the time of the next record is after `from`, in
  -- their order. The time of a record is the start time in the header and as many intervals as
  -- records stand before it.
  pub read_sample_by_time :
      (cal : Calendar) (from to step : ℕ) (g g1 : F)
      → dev.open_read g ≡ (true, g1)
      → At g1 (file_image header blocks current) 0
      → (freq_of header == 0) ≡ false
      → (read_sample dev cal from to step g).0
        ≡ inr (
            every (if step == 0 then 1 else step) 0 (
              selected
                (in_range (stime_to_unix cal (stime_of header)) (freq_of header) from to)
                0
                (records blocks current)))
  read_sample_by_time cal from to step g g1 eo a hf =
      read_sample-sampled dev At law header blocks current h cal from to step g g1 eo a hf
      ∙ ap inr (
          by_time (stime_to_unix cal (stime_of header)) (freq_of header) from to
            (ground (arith, hf)) (records blocks current) (if step == 0 then 1 else step)
            (ground arith))

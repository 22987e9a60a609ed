-- ===== src/Trend/Appends/Recorded.antt =====
-- Records appended one after another.
use mathlib.Core.List.{append_assoc, append-nil}
use swr.Base.{
  ℕ, ◌+◌, ◌*◌, ◌≤◌, ◌≡◌, refl, sym, ap, ◌∙◌, arith, Option, none, some, List, [], ◌∷◌, ◌++◌, map,
  length, length-append, inl, inr, Bool-cases, ◌==◌, All, All-append,
}
use swr.Trend.{max_file_size, words_le, TrendError, File, Storage}
use swr.Trend.Chunks.{Sized, concat, concat-append}
use swr.Trend.Layout.{Record, file_image, IsBlock, IsFile, length-file_image}
use swr.Trend.Writer.{Writer, append_record, worst_case}
use swr.Trend.Samples.{records, length-records}
use swr.Trend.Appends.{next_blocks, next_current, writer_at, length-words_le}
use swr.Trend.Appends.Steps.{append_record-Becomes}

-- One `appendRecord` for each list of values, until one fails.
unfoldable pub append_all :
    {F : Type 0} → File F → List (List ℕ) → Writer F → Option TrendError × Writer F
append_all dev [] w = (none, w)
append_all dev (values ∷ rest) w =
    let (e, w') = append_record dev values w in
    elim e [ some x ↦ (some x, w') | none ↦ append_all dev rest w' ]

next-IsFile :
    (header : List ℕ) (blocks : List (List Record)) (current : List Record) (r : Record)
    → IsFile header blocks current
    → length r ≡ 32
    → IsFile header (next_blocks blocks current r) (next_current current r)
next-IsFile header blocks current r h hr = elim (Bool-cases (length current == 30)) [
  | inl e ↦
      let full : length (current ++ (r ∷ [])) ≡ 31 =
        ground (arith, e, length-append current (r ∷ [])) in
      let sizes = All-append (Sized 32) current (r ∷ []) h.3 (hr, tt) in
      rw e (
        h.0,
        All-append IsBlock blocks ((current ++ (r ∷ [])) ∷ []) h.1 ((full, sizes), tt),
        omega arith,
        tt,
      )
  | inr e ↦ rw e (
    h.0,
    h.1,
    ground (arith, e, h.2, length-append current (r ∷ [])),
    All-append (Sized 32) current (r ∷ []) h.3 (hr, tt),
  )
]

next-records :
    (blocks : List (List Record)) (current : List Record) (r : Record)
    → records (next_blocks blocks current r) (next_current current r)
      ≡ records blocks current ++ (r ∷ [])
next-records blocks current r = elim (Bool-cases (length current == 30)) [
  | inl e ↦
      let full = current ++ (r ∷ []) in
      rw e (
        append-nil (concat (blocks ++ (full ∷ [])))
        ∙ (concat-append blocks (full ∷ [])
            ∙ (ap (◌++◌ (concat blocks)) (append-nil full)
                ∙ sym (append_assoc (concat blocks) current (r ∷ [])))))
  | inr e ↦ rw e (sym (append_assoc (concat blocks) current (r ∷ [])))
]

worst_case_le :
    {F : Type 0} (f : F) (blocks : List (List Record)) (current : List Record)
    → worst_case (writer_at f blocks current) ≤ 64
unfolding worst_case
worst_case_le f blocks current = ground arith

module _ {F : Type 0} (dev : File F) where
  pub append_all-cons :
      (values : List ℕ) (rest : List (List ℕ)) (w w' : Writer F)
      → append_record dev values w ≡ (none, w')
      → append_all dev (values ∷ rest) w ≡ append_all dev rest w'
  unfolding append_all
  append_all-cons values rest w w' e =
      ap
        (λ (q : Option TrendError × Writer F). elim q.0 as (λ z. Option TrendError × Writer F) [
          | some x ↦ (some x, q.1)
          | none ↦ append_all dev rest q.1
        ])
        e

module _ {F : Type 0} (dev : File F) (At : F → List ℕ → ℕ → Type 0) (law : Storage dev At) where
  -- When no call of the file fails and the file stays below its largest size, records of 16
  -- values that are appended one after another are all written: the file then holds the image of
  -- the records it held before and the new ones behind them, their bytes in order, in full blocks
  -- of 31 and a last one with its count, and the writer's members say so, too.
  pub append_all_recorded :
      (header : List ℕ) (vs : List (List ℕ)) (blocks : List (List Record)) (current : List Record)
      (f : F) (p : ℕ)
      → IsFile header blocks current
      → All (Sized 16) vs
      → 584 + 34 * (31 * length blocks + length current + length vs) ≤ max_file_size
      → At f (file_image header blocks current) p
      → (f' : F) × (p' : ℕ) × (blocks' : List (List Record)) × (current' : List Record)
        × (append_all dev vs (writer_at f blocks current) ≡ (none, writer_at f' blocks' current'))
        × At f' (file_image header blocks' current') p'
        × IsFile header blocks' current'
        × (records blocks' current' ≡ records blocks current ++ map words_le vs)
  unfolding append_all
  append_all_recorded header [] blocks current f p h hv small a =
      (f, p, blocks, current, refl, a, h, sym (append-nil (records blocks current)))
  append_all_recorded header (v ∷ vs) blocks current f p h hv small a =
      let r = words_le v in
      let hr : length r ≡ 32 = omega (arith, length-words_le v, hv.0) in
      let fits : length (file_image header blocks current) + worst_case (writer_at f blocks current)
          ≤ max_file_size =
        omega (
          arith,
          small,
          length-file_image header blocks current h,
          worst_case_le f blocks current,
        ) in
      let (f1, p1, e1, a1) =
        append_record-Becomes dev At law header blocks current v f p h hv.0 fits a in
      let blocks1 = next_blocks blocks current r in
      let current1 = next_current current r in
      let h1 = next-IsFile header blocks current r h hr in
      let more = next-records blocks current r in
      let small1 : 584 + 34 * (31 * length blocks1 + length current1 + length vs) ≤ max_file_size =
        omega (
          arith,
          small,
          length-records blocks1 current1 h1.1,
          length-records blocks current h.1,
          ap length more,
          length-append (records blocks current) (r ∷ []),
        ) in
      let (f2, p2, blocks2, current2, e2, a2, h2, all) =
        append_all_recorded header vs blocks1 current1 f1 p1 h1 hv.1 small1 a1 in
      (
        f2,
        p2,
        blocks2,
        current2,
        append_all-cons dev v vs (writer_at f blocks current) (writer_at f1 blocks1 current1) e1
            ∙ e2,
        a2,
        h2,
        all
            ∙ (ap (λ q. q ++ map words_le vs) more
                ∙ append_assoc (records blocks current) (r ∷ []) (map words_le vs)),
      )

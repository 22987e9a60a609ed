-- ===== src/Trend/Samples/Latest.antt =====
-- The last record and the number of records.
use mathlib.Core.Path.{subst}
use mathlib.Core.Option.{some-injective}
use swr.Base.{
  ℕ, zero, suc, ◌+◌, ◌-◌, ◌*◌, ◌/◌, ◌%◌, ◌≤◌, ◌<◌, ◌≡◌, refl, sym, ap, ◌∙◌, arith, true, false,
  Option, none, some, List, [], ◌∷◌, ◌++◌, length, length-append, inl, inr, ◌⊎◌, ltb, ◌==◌, get_or,
  get_elem?, get_elem?-get_or, get_elem?-append_right,
}
use swr.Trend.{TrendError, File, Storage}
use swr.Trend.Layout.{Record, file_image, IsFile, length-file_image, block_of, block_of-Sized}
use swr.Trend.Reader.{latest_in, latest_below, read_latest}
use swr.Trend.Samples.{records, records_at, length-records}
use swr.Trend.Samples.Reads.{
  Reading, inside, header_inside, read_head, read_rec, counted, get_or-Sized, block_count,
  block_count_end,
}

nat_cases : (n : ℕ) → (n ≡ 0) ⊎ ((k : ℕ) × (n ≡ suc k))
nat_cases zero = inl refl
nat_cases (suc k) = inr (k, refl)

module _ {F : Type 0} (dev : File F) (At : F → List ℕ → ℕ → Type 0) (law : Storage dev At)
    (header : List ℕ) (blocks : List (List Record)) (current : List Record)
    (h : IsFile header blocks current) where
  abbrev block_at : ℕ → List Record
  block_at k = block_of blocks current k

  abbrev Open : F → Type 0
  Open = Reading dev At law header blocks current h

  abbrev size : ℕ
  size = length (file_image header blocks current)

  found_in :
      (k j : ℕ) (f : F)
      → Open f
      → k ≤ length blocks
      → length (block_at k) ≡ suc j
      → (f' : F) × (latest_in dev size k f ≡ (some (get_or (block_at k) j []), f'))
  unfolding latest_in
  found_in k j f r le n =
      let (f1, e1, r1) = read_head dev At law header blocks current h k f r le in
      let lt : j < length (block_at k) = omega (arith, n) in
      let (f2, e2, r2) = read_rec dev At law header blocks current h k j f1 r1 le lt in
      let count = counted dev At law header blocks current h k le ∙ n in
      let size1 : ltb size (512 + k * 1024 + 8) ≡ false =
        ground (arith, header_inside dev At law header blocks current h k le) in
      let size2 : ltb size (512 + k * 1024 + 8 + j * 32 + 32) ≡ false =
        ground (arith, inside dev At law header blocks current h k j le lt) in
      let sub : suc j - 1 ≡ j = omega arith in
      let some_there : (suc j == 0) ≡ false = ground arith in
      let whole : length (get_or (block_at k) j []) ≡ 32 =
        get_or-Sized (block_at k) j (block_of-Sized header blocks current k h le).0 lt in
      let full : ltb (length (get_or (block_at k) j [])) 32 ≡ false = ground (arith, whole) in
      (f2, rw (size1, latest_in, e1) (rw (count, sub) (rw (e2, some_there, size2, full) refl)))

  nothing_in :
      (k : ℕ) (f : F)
      → Open f
      → k ≤ length blocks
      → length (block_at k) ≡ 0
      → (f' : F) × (latest_in dev size k f ≡ (none, f')) × Open f'
  unfolding latest_in
  nothing_in k f r le n =
      let (f1, e1, r1) = read_head dev At law header blocks current h k f r le in
      let count = counted dev At law header blocks current h k le ∙ n in
      let size1 : ltb size (512 + k * 1024 + 8) ≡ false =
        ground (arith, header_inside dev At law header blocks current h k le) in
      (f1, rw (size1, latest_in, e1) (rw count refl), r1)

  -- The record at a place is the last one.
  the_last :
      (k j : ℕ) (front : List Record) (r : Record)
      → records blocks current ≡ front ++ (r ∷ [])
      → 31 * k + j + 1 ≡ 31 * length blocks + length current
      → j < 31
      → j < length (block_at k)
      → get_or (block_at k) j [] ≡ r
  the_last k j front r e n small lt =
      let i = 31 * k + j in
      let q : i / 31 ≡ k = omega (arith, small) in
      let m : i % 31 ≡ j = omega (arith, small) in
      let len : length front + 0 ≡ i =
        omega (
          arith,
          n,
          length-records blocks current h.1,
          ap length e,
          length-append front (r ∷ []),
        ) in
      some-injective (get_or (block_at k) j []) r (
        sym (get_elem?-get_or (block_at k) j [] lt)
        ∙ (subst (λ b. get_elem? (block_at k) j ≡ get_elem? (block_of blocks current b) j) (sym q)
              refl
            ∙ (ap (get_elem? (block_of blocks current (i / 31))) (sym m)
                ∙ (sym (records_at blocks current i h.1 h.2)
                    ∙ (ap (λ xs. get_elem? xs i) e
                        ∙ (ap (get_elem? (front ++ (r ∷ []))) (sym len)
                            ∙ get_elem?-append_right front (r ∷ []) 0))))))

  latest_found :
      (k j : ℕ) (f : F) (front : List Record) (r : Record)
      → Open f
      → records blocks current ≡ front ++ (r ∷ [])
      → k ≤ length blocks
      → length (block_at k) ≡ suc j
      → 31 * k + j + 1 ≡ 31 * length blocks + length current
      → (latest_below dev size (suc k) f).0 ≡ inr r
  unfolding latest_below
  latest_found k j f front r o e le n total =
      let (f', found) = found_in k j f o le n in
      let small : j < 31 = omega (arith, n, (block_of-Sized header blocks current k h le).1) in
      rw (found, latest_below) (ap inr (the_last k j front r e total small (omega (arith, n))))

  blocks_of_size : (size - 512) / 1024 ≡ length blocks
  blocks_of_size = omega (arith, length-file_image header blocks current h, h.2)

  goes_on :
      (n : ℕ) (f f' : F)
      → latest_in dev size n f ≡ (none, f')
      → latest_below dev size (suc n) f ≡ latest_below dev size n f'
  unfolding latest_below
  goes_on n f f' e =
      ap
        (λ (q : Option (List ℕ) × F). elim q.0 as (λ z. (TrendError ⊎ List ℕ) × F) [
          | some rec ↦ (inr rec, q.1)
          | none ↦ latest_below dev size n q.1
        ])
        e

  walk_last :
      (f : F) (front : List Record) (r : Record)
      → Open f
      → records blocks current ≡ front ++ (r ∷ [])
      → (latest_below dev size (suc (length blocks)) f).0 ≡ inr r
  unfolding latest_below
  walk_last f front r o e = elim (nat_cases (length current)) [
    | inr (j, n) ↦
        latest_found (length blocks) j f front r o e (omega arith)
          (block_count_end blocks current ∙ n) (omega (arith, n))
    | inl n ↦
        let (f1, e1, o1) =
          nothing_in (length blocks) f o (omega arith) (block_count_end blocks current ∙ n) in
        elim (nat_cases (length blocks)) [
          | inl none_full ↦ absurd (
              omega (
                arith,
                n,
                none_full,
                length-records blocks current h.1,
                ap length e,
                length-append front (r ∷ []),
              ))
          | inr (k, m) ↦
              ap (λ (q : (TrendError ⊎ List ℕ) × F). q.0) (goes_on (length blocks) f f1 e1)
              ∙ (subst (λ b. (latest_below dev size b f1).0 ≡ inr r) (sym m)
                  (latest_found k 30 f1 front r o1 e (omega (arith, m))
                    (block_count blocks current k h.1 (omega (arith, m))) (omega (arith, m, n))))
        ]
  ]

  -- `readLatest` of a file that holds the image of records, the last of which is `r`, returns `r`.
  pub read_latest_last :
      (g g1 : F) (front : List Record) (r : Record)
      → dev.open_read g ≡ (true, g1)
      → At g1 (file_image header blocks current) 0
      → records blocks current ≡ front ++ (r ∷ [])
      → (read_latest dev g).0 ≡ inr r
  unfolding read_latest
  read_latest_last g g1 front r eo a e =
      let sized = law.sized g1 (file_image header blocks current) 0 a in
      let n : length blocks + 1 ≡ suc (length blocks) = omega arith in
      rw (eo, read_latest) (rw (sized, blocks_of_size, n) (walk_last g1 front r (0, a) e))

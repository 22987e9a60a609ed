-- ===== src/Trend/Samples.antt =====
-- What the reader finds in a trend file that holds the image of some records.
pub mod Reads
pub mod Latest
pub mod Sampled
pub mod Selected
pub mod Times
pub mod Counts
use mathlib.Core.List.{append_assoc}
use mathlib.Core.Path.{subst}
use swr.Base.{
  ℕ, zero, suc, ◌+◌, ◌-◌, ◌*◌, ◌/◌, ◌%◌, ◌≤◌, ◌<◌, ◌≡◌, refl, sym, ap, ◌∙◌, arith, Option, none,
  some, List, [], ◌∷◌, ◌++◌, length, length-append, inl, inr, Bool-cases, ltb, ltb→lt, get_elem?,
  get_elem?-append_left, get_elem?-append_right, take, drop, All,
}
use swr.Trend.Chunks.{concat}
use swr.Trend.Layout.{Record, IsBlock, block_of}

-- The records of a file, in the order in which they were written.
abbrev pub records : List (List Record) → List Record → List Record
records blocks current = concat blocks ++ current

pub none_past : (xs : List Record) (i : ℕ) → length xs ≤ i → get_elem? xs i ≡ none
none_past [] i h = refl
none_past (x ∷ xs) zero h = absurd (omega (arith, h))
none_past (x ∷ xs) (suc i) h = none_past xs i (omega (arith, h))

-- A record's index gives its block and its place in the block.
pub records_at :
    (blocks : List (List Record)) (current : List Record) (ri : ℕ)
    → All IsBlock blocks
    → length current ≤ 30
    → get_elem? (records blocks current) ri
      ≡ get_elem? (block_of blocks current (ri / 31)) (ri % 31)
records_at [] current ri h n = elim (Bool-cases (ltb ri 31)) [
  | inl small ↦
      let q : ri / 31 ≡ 0 = ground (arith, small) in
      let m : ri % 31 ≡ ri = ground (arith, small) in rw (q, m) refl
  | inr large ↦
      let (k, q) = past ri (ground (arith, large)) in
      rw q (none_past current ri (ground (arith, large, n)))
]
  where
    past : (ri : ℕ) → 31 ≤ ri → (k : ℕ) × (ri / 31 ≡ suc k)
    past ri h = (ri / 31 - 1, omega (arith, h))
records_at (b ∷ bs) current ri h n = elim (Bool-cases (ltb ri 31)) [
  | inl small ↦
      let q : ri / 31 ≡ 0 = ground (arith, small) in
      let m : ri % 31 ≡ ri = ground (arith, small) in
      rw (q, m)
        (ap (λ xs. get_elem? xs ri) (append_assoc b (concat bs) current)
          ∙ get_elem?-append_left b (concat bs ++ current) ri
              (ground (arith, ltb→lt ri 31 small, h.0.0)))
  | inr large ↦
      let i = ri - 31 in
      let q : ri / 31 ≡ suc (i / 31) = ground (arith, large) in
      let m : ri % 31 ≡ i % 31 = ground (arith, large) in
      let e : ri ≡ length b + i = ground (arith, large, h.0.0) in
      rw (q, m)
        (ap (λ xs. get_elem? xs ri) (append_assoc b (concat bs) current)
          ∙ (ap (get_elem? (b ++ (concat bs ++ current))) e
              ∙ (get_elem?-append_right b (concat bs ++ current) i
                  ∙ records_at bs current i h.1 n)))
]

pub length-records :
    (blocks : List (List Record)) (current : List Record)
    → All IsBlock blocks
    → length (records blocks current) ≡ 31 * length blocks + length current
length-records [] current h = omega arith
length-records (b ∷ bs) current h =
    ap length (append_assoc b (concat bs) current)
    ∙ omega (arith, length-append b (concat bs ++ current), length-records bs current h.1, h.0.0)

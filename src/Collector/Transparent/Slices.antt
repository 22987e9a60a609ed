-- ===== src/Collector/Transparent/Slices.antt =====
-- Cutting the values of a batch into those of its registers.
use swr.Base.{
  ℕ, zero, suc, ◌+◌, ◌≤◌, ◌<◌, ◌≡◌, refl, ap, ◌∙◌, arith, false, ◌==◌, ==_iff, Bool-cases, inl, inr,
  some, List, [], ◌∷◌, length, length-set, get_elem?, take, set, All,
}
use swr.Collector.{FieldSlice, FieldResult, mid, fill_slices}
use swr.Collector.Coverage.{slice_indices, count}

-- The values of `f` from `a` on.
abbrev pub cells {ℓ} : {A : Type ℓ} → (ℕ → A) → ℕ → ℕ → List A
cells f a zero = []
cells f a (suc n) = f a ∷ cells f (a + 1) n

module _ {ℓ} {A : Type ℓ} (f : ℕ → A) where
  take-cells : (a n k : ℕ) → k ≤ n → take k (cells f a n) ≡ cells f a k
  take-cells a n zero h = refl
  take-cells a zero (suc k) h = absurd (omega arith)
  take-cells a (suc n) (suc k) h = ap (◌∷◌ (f a)) (take-cells (a + 1) n k (omega arith))

  pub mid-cells : (a n o k : ℕ) → o + k ≤ n → mid (cells f a n) o k ≡ cells f (a + o) k
  mid-cells a n zero k h =
      take-cells a n k (omega arith) ∙ ap (λ b. cells f b k) {x = a} {y = a + zero} (omega arith)
  mid-cells a zero (suc o) k h = absurd (omega arith)
  mid-cells a (suc n) (suc o) k h =
      mid-cells (a + 1) n o k (omega arith)
      ∙ ap (λ b. cells f b k) {x = a + 1 + o} {y = a + suc o} (omega arith)

get_elem?-set_same {ℓ} :
    {A : Type ℓ} (xs : List A) (i : ℕ) (v : A) → i < length xs → get_elem? (set xs i v) i ≡ some v
get_elem?-set_same [] i v h = absurd (omega arith)
get_elem?-set_same (x ∷ xs) zero v h = refl
get_elem?-set_same (x ∷ xs) (suc i) v h = get_elem?-set_same xs i v (omega arith)

get_elem?-set_other {ℓ} :
    {A : Type ℓ} (xs : List A) (i j : ℕ) (v : A)
    → (i == j) ≡ false
    → get_elem? (set xs i v) j ≡ get_elem? xs j
get_elem?-set_other [] i j v h = refl
get_elem?-set_other (x ∷ xs) zero zero v h = absurd (ground arith)
get_elem?-set_other (x ∷ xs) zero (suc j) v h = refl
get_elem?-set_other (x ∷ xs) (suc i) zero v h = refl
get_elem?-set_other (x ∷ xs) (suc i) (suc j) v h = get_elem?-set_other xs i j v (ground (arith, h))

get_elem?-some {ℓ} :
    {A : Type ℓ} (xs : List A) (i : ℕ) (v : A) → get_elem? xs i ≡ some v → i < length xs
get_elem?-some [] i v e = absurd (ground (arith, e))
get_elem?-some (x ∷ xs) zero v e = omega arith
get_elem?-some (x ∷ xs) (suc i) v e = omega (arith, get_elem?-some xs i v e)

module _ (f : FieldSlice → FieldResult) (i : ℕ) (r : FieldResult) where
  -- Every slice of the register `i` gives it `r`.
  abbrev pub Gives : List FieldSlice → Type 0
  Gives ss = All (λ s. s.field_index ≡ i → f s ≡ r) ss

  pub fill-keeps :
      (ss : List FieldSlice) (results : List FieldResult)
      → Gives ss
      → get_elem? results i ≡ some r
      → get_elem? (fill_slices f ss results) i ≡ some r
  unfolding fill_slices
  fill-keeps [] results g e = e
  fill-keeps (s ∷ ss) results g e = elim (Bool-cases (s.field_index == i)) [
    | inl same ↦
        let at_i : s.field_index ≡ i = (==_iff s.field_index i).0 same in
        fill-keeps ss (set results s.field_index (f s)) g.1 (
          ap (λ k. get_elem? (set results k (f s)) i) at_i
          ∙ (get_elem?-set_same results i (f s) (get_elem?-some results i r e)
              ∙ ap some (g.0 at_i)))
    | inr other ↦
        fill-keeps ss (set results s.field_index (f s)) g.1
          (get_elem?-set_other results s.field_index i (f s) other ∙ e)
  ]

  pub fill-sets :
      (ss : List FieldSlice) (results : List FieldResult)
      → Gives ss
      → 1 ≤ count i (slice_indices ss)
      → i < length results
      → get_elem? (fill_slices f ss results) i ≡ some r
  unfolding fill_slices
  fill-sets [] results g c h = absurd (omega arith)
  fill-sets (s ∷ ss) results g c h = elim (Bool-cases (s.field_index == i)) [
    | inl same ↦
        let at_i : s.field_index ≡ i = (==_iff s.field_index i).0 same in
        fill-keeps ss (set results s.field_index (f s)) g.1 (
          ap (λ k. get_elem? (set results k (f s)) i) at_i
          ∙ (get_elem?-set_same results i (f s) h ∙ ap some (g.0 at_i)))
    | inr other ↦
        fill-sets ss (set results s.field_index (f s)) g.1 (ground (arith, c, other))
          (omega (arith, h, length-set results s.field_index (f s)))
  ]

pub length-fill :
    (f : FieldSlice → FieldResult) (ss : List FieldSlice) (results : List FieldResult)
    → length (fill_slices f ss results) ≡ length results
unfolding fill_slices
length-fill f [] results = refl
length-fill f (s ∷ ss) results =
    length-fill f ss (set results s.field_index (f s)) ∙ length-set results s.field_index (f s)

-- ===== src/Trend/Samples/Selected.antt =====
-- Records selected by their times or by another test of their index, and every so many of them.
use swr.Base.{
  ℕ, zero, suc, ◌+◌, ◌-◌, ◌*◌, ◌≤◌, ◌<◌, ◌≡◌, refl, sym, ap, ◌∙◌, arith, Bool, true, false, ◌&&◌,
  ◌⊎◌, none, some, List, [], ◌∷◌, ◌++◌, inl, inr, Bool-cases, ltb, leb, leb→le, if◌then◌else◌,
  get_elem?, take, drop, drop-drop,
}
use swr.Trend.Layout.{Record}
use swr.Trend.Samples.Sampled.{sampled}

-- The time of the record with an index.
abbrev pub time_of : ℕ → ℕ → ℕ → ℕ
time_of start freq i = start + i * freq

-- It is not after `to`, and the next record's is after `from`.
abbrev pub in_range : ℕ → ℕ → ℕ → ℕ → ℕ → Bool
in_range start freq from to i =
    ltb from (time_of start freq (i + 1)) && leb (time_of start freq i) to

-- The records whose index, counted from `i`, passes a test.
abbrev pub selected : (ℕ → Bool) → ℕ → List Record → List Record
selected test i [] = []
selected test i (r ∷ rs) = let rest = selected test (i + 1) rs in if test i then r ∷ rest else rest

-- The bytes of every `step`-th record, behind the first `k`.
abbrev pub every : ℕ → ℕ → List Record → List ℕ
every step k [] = []
every step zero (r ∷ rs) = r ++ every step (step - 1) rs
every step (suc k) (r ∷ rs) = every step k rs

every-drop : (step k : ℕ) (rs : List Record) → every step k rs ≡ every step 0 (drop k rs)
every-drop step zero rs = refl
every-drop step (suc k) [] = refl
every-drop step (suc k) (r ∷ rs) = every-drop step k rs

take_nil : (m : ℕ) → take {A = Record} m [] ≡ []
take_nil zero = refl
take_nil (suc m) = refl

drop-take : (k m : ℕ) (rs : List Record) → drop k (take m rs) ≡ take (m - k) (drop k rs)
drop-take zero m rs = let e : m - 0 ≡ m = omega arith in rw e refl
drop-take (suc k) zero rs = let e : 0 - suc k ≡ 0 = omega arith in rw e refl
drop-take (suc k) (suc m) [] = sym (take_nil (suc m - suc k))
drop-take (suc k) (suc m) (r ∷ rs) =
    let e : suc m - suc k ≡ m - k = omega arith in rw e (drop-take k m rs)

drop-cases :
    (rs : List Record) (i : ℕ)
    → ((get_elem? rs i ≡ none) × (drop i rs ≡ []))
      ⊎ ((r : Record) × (get_elem? rs i ≡ some r) × (drop i rs ≡ r ∷ drop (suc i) rs))
drop-cases [] zero = inl (refl, refl)
drop-cases [] (suc i) = inl (refl, refl)
drop-cases (r ∷ rs) zero = inr (r, refl, refl)
drop-cases (r ∷ rs) (suc i) = drop-cases rs i

pub sampled-every :
    (rs : List Record) (last step n ri : ℕ)
    → last + 1 - ri ≤ n
    → 1 ≤ step
    → sampled rs last step n ri ≡ every step 0 (take (last + 1 - ri) (drop ri rs))
sampled-every rs last step zero ri h s = let e : last + 1 - ri ≡ 0 = omega (arith, h) in rw e refl
sampled-every rs last step (suc n) ri h s = elim (Bool-cases (ltb last ri)) [
  | inl b ↦ let e : last + 1 - ri ≡ 0 = ground (arith, b) in rw (b, e) refl
  | inr b ↦
      let e : last + 1 - ri ≡ suc (last - ri) = ground (arith, b) in
      elim (drop-cases rs ri) [
        | inl (g, d) ↦ rw (b, e, g, d) refl
        | inr (r, g, d) ↦
            let tail = drop (suc ri) rs in
            let m : last - ri - (step - 1) ≡ last + 1 - (ri + step) = omega (arith, s) in
            rw (b, e, g, d)
              (ap (◌++◌ r) (
                sampled-every rs last step n (ri + step) (omega (arith, h, s)) s
                ∙ sym (
                    every-drop step (step - 1) (take (last - ri) tail)
                    ∙ ap (every step 0) (
                        drop-take (step - 1) (last - ri) tail
                        ∙ (ap (λ k. take k (drop (step - 1) tail)) m
                            ∙ ap (take (last + 1 - (ri + step))) (
                                sym (
                                  drop-drop rs (suc ri) (step - 1) (ri + step)
                                    (omega (arith, s)))))))))
      ]
]

module _ (test : ℕ → Bool) where
  pub selected_none :
      (i : ℕ) (rs : List Record) → ((j : ℕ) → test j ≡ false) → selected test i rs ≡ []
  selected_none i [] h = refl
  selected_none i (r ∷ rs) h = rw (h i) (selected_none (i + 1) rs h)

module _ (test : ℕ → Bool) (first last : ℕ)
    (window : (i : ℕ) → test i ≡ (leb first i && leb i last)) where
  tested : (i : ℕ) → first ≤ i → i ≤ last → test i ≡ true
  tested i a b = ground (arith, window i, a, b)

  below_first : (i : ℕ) → i < first → test i ≡ false
  below_first i a = ground (arith, window i, a)

  past_last : (i : ℕ) → last < i → test i ≡ false
  past_last i a = ground (arith, window i, a)

  selected-take :
      (i : ℕ) (rs : List Record) → first ≤ i → selected test i rs ≡ take (last + 1 - i) rs
  selected-take i [] h = sym (take_nil (last + 1 - i))
  selected-take i (r ∷ rs) h = elim (Bool-cases (leb i last)) [
    | inl k ↦
        let e : last + 1 - i ≡ suc (last + 1 - (i + 1)) = ground (arith, k) in
        rw (tested i h (leb→le i last k), e)
          (ap (λ xs. r ∷ xs) (selected-take (i + 1) rs (omega (arith, h))))
    | inr k ↦
        let gone : last < i = ground (arith, k) in
        let e : last + 1 - i ≡ 0 = omega (arith, gone) in
        let e2 : last + 1 - (i + 1) ≡ 0 = omega (arith, gone) in
        rw (past_last i gone, e)
          (selected-take (i + 1) rs (omega (arith, h)) ∙ ap (λ n. take n rs) e2)
  ]

  selected-drop :
      (d i : ℕ) (rs : List Record)
      → i + d ≤ first
      → selected test i rs ≡ selected test (i + d) (drop d rs)
  selected-drop zero i rs h = let e : i + 0 ≡ i = omega arith in rw e refl
  selected-drop (suc d) i [] h = refl
  selected-drop (suc d) i (r ∷ rs) h =
      let e : i + suc d ≡ i + 1 + d = omega arith in
      rw (below_first i (omega (arith, h)), e) (selected-drop d (i + 1) rs (omega (arith, h)))

  pub selected_window :
      (rs : List Record) → selected test 0 rs ≡ take (last + 1 - first) (drop first rs)
  selected_window rs =
      let e : 0 + first ≡ first = omega arith in
      selected-drop first 0 rs (omega arith)
      ∙ (ap (λ i. selected test i (drop first rs)) e
          ∙ selected-take first (drop first rs) (omega arith))

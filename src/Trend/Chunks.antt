-- ===== src/Trend/Chunks.antt =====
-- Bytes laid out in chunks of one size.
use mathlib.Core.List.{append_assoc}
use swr.Base.{
  ℕ, zero, suc, ◌+◌, ◌*◌, ◌<◌, ◌≡◌, refl, sym, ap, ◌∙◌, arith, List, [], ◌∷◌, ◌++◌, length,
  length-append, get_or, drop, All,
}
pub use swr.Base.{take_prefix, drop_prefix, drop_plus}

abbrev pub concat {ℓ} : {A : Type ℓ} → List (List A) → List A
concat [] = []
concat (c ∷ cs) = c ++ concat cs

abbrev pub Sized {ℓ} : {A : Type ℓ} → ℕ → List A → Type 0
Sized n xs = length xs ≡ n

module _ {ℓ} {A : Type ℓ} where
  pub length-concat :
      (n : ℕ) (cs : List (List A)) → All (Sized n) cs → length (concat cs) ≡ n * length cs
  length-concat n [] h = omega arith
  length-concat n (c ∷ cs) h =
      length-append c (concat cs) ∙ omega (arith, h.0, length-concat n cs h.1)

  pub concat-append : (xs ys : List (List A)) → concat (xs ++ ys) ≡ concat xs ++ concat ys
  concat-append [] ys = refl
  concat-append (x ∷ xs) ys =
      ap (◌++◌ x) (concat-append xs ys) ∙ sym (append_assoc x (concat xs) (concat ys))

  -- The chunk `k` and what is behind it.
  pub drop-concat :
      (n k : ℕ) (cs : List (List A)) (ys : List A)
      → All (Sized n) cs
      → k < length cs
      → (rest : List A) × (drop (k * n) (concat cs ++ ys) ≡ get_or cs k [] ++ rest)
  drop-concat n k [] ys h lt = absurd (omega (arith, lt))
  drop-concat n zero (c ∷ cs) ys h lt =
      let z : zero * n ≡ 0 = omega arith in
      (concat cs ++ ys, ap (λ m. drop m (concat (c ∷ cs) ++ ys)) z ∙ append_assoc c (concat cs) ys)
  drop-concat n (suc k) (c ∷ cs) ys h lt =
      let (rest, e) = drop-concat n k cs ys h.1 (omega (arith, lt)) in
      let s : suc k * n ≡ n + k * n = omega arith in
      (
        rest,
        ap (λ m. drop m (concat (c ∷ cs) ++ ys)) s
            ∙ (ap (drop (n + k * n)) (append_assoc c (concat cs) ys)
                ∙ (drop_plus n (k * n) c (concat cs ++ ys) h.0 ∙ e)),
      )

  pub drop-concat_end :
      (n k : ℕ) (cs : List (List A)) (ys : List A)
      → All (Sized n) cs
      → k ≡ n * length cs
      → drop k (concat cs ++ ys) ≡ ys
  drop-concat_end n k cs ys h e = drop_prefix k (concat cs) ys (length-concat n cs h ∙ sym e)

-- ===== src/Store/Hash.antt =====
-- A QHash with integer keys as an association list.
use swr.Base.{Bool, true, false, Option, none, some, List, [], ◌∷◌, ◌≡◌, refl, arith, if◌then◌else◌}
use swr.Base.Int.{ℤ, eq_ℤ, eq_ℤ_iff}

abbrev pub Hash : Type 0 → Type 0
Hash V = List (ℤ × V)

module _ {V : Type 0} where
  unfoldable pub find : ℤ → Hash V → Option V
  find k [] = none
  find k ((j, v) ∷ h) = if eq_ℤ j k then some v else find k h

  -- `h[k] = v`: a new key goes to the end.
  unfoldable pub insert : ℤ → V → Hash V → Hash V
  insert k v [] = (k, v) ∷ []
  insert k v ((j, w) ∷ h) = if eq_ℤ j k then (j, v) ∷ h else (j, w) ∷ insert k v h

  unfoldable pub remove : ℤ → Hash V → Hash V
  remove k [] = []
  remove k ((j, w) ∷ h) = let rest = remove k h in if eq_ℤ j k then rest else (j, w) ∷ rest

  unfoldable pub contains : ℤ → Hash V → Bool
  unfolding find
  contains k h = elim (find k h) [ none ↦ false | some v ↦ true ]

  pub find-insert :
      (k j : ℤ) (v : V) (h : Hash V)
      → find j (insert k v h) ≡ (if eq_ℤ k j then some v else find j h)
  unfolding find insert
  find-insert k j v [] = refl
  find-insert k j v ((i, w) ∷ h) =
      ground (arith, eq_ℤ_iff k j, eq_ℤ_iff i k, eq_ℤ_iff i j, find-insert k j v h)

  pub find-remove :
      (k j : ℤ) (h : Hash V) → find j (remove k h) ≡ (if eq_ℤ k j then none else find j h)
  unfolding find remove
  find-remove k j [] = ground arith
  find-remove k j ((i, w) ∷ h) =
      ground (arith, eq_ℤ_iff k j, eq_ℤ_iff i k, eq_ℤ_iff i j, find-remove k j h)

pub eq_ℤ_self : (a : ℤ) → eq_ℤ a a ≡ true
eq_ℤ_self a = (eq_ℤ_iff a a).1 refl

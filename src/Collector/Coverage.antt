-- ===== src/Collector/Coverage.antt =====
-- Every register of the device is in exactly one slice of one batch.
use mathlib.Core.List.{append_assoc, append-nil}
use swr.Base.{
  ℕ, zero, suc, ◌+◌, ◌<◌, ◌≤◌, ◌≡◌, refl, sym, ap, ◌∙◌, arith, Bool, ◌==◌, ltb, if◌then◌else◌,
  Bool-cases, inl, inr, List, [], ◌∷◌, ◌++◌, length, get_elem?-lt, All,
}
use swr.Model.{RegisterConfig}
use swr.Collector.{
  FieldSlice, RegisterBatch, can_merge, add_field, add_fields, before, range_from, build_batches,
}

abbrev pub slice_indices : List FieldSlice → List ℕ
slice_indices [] = []
slice_indices (s ∷ ss) = s.field_index ∷ slice_indices ss

abbrev pub field_indices : List RegisterBatch → List ℕ
field_indices [] = []
field_indices (b ∷ bs) = slice_indices b.slices ++ field_indices bs

-- How often a number occurs.
abbrev pub count : ℕ → List ℕ → ℕ
count i [] = 0
count i (x ∷ xs) = let rest = count i xs in if x == i then suc rest else rest

slice_indices-append :
    (ss : List FieldSlice) (s : FieldSlice)
    → slice_indices (ss ++ (s ∷ [])) ≡ slice_indices ss ++ (s.field_index ∷ [])
slice_indices-append [] s = refl
slice_indices-append (t ∷ ss) s = ap (◌∷◌ t.field_index) (slice_indices-append ss s)

module _ {D : Type 0} where
  field_indices-add_field :
      (i : ℕ) (config : RegisterConfig D) (batches : List RegisterBatch)
      → field_indices (add_field i config batches) ≡ field_indices batches ++ (i ∷ [])
  unfolding add_field
  field_indices-add_field i config [] = refl
  field_indices-add_field i config (last ∷ []) = elim (Bool-cases (can_merge last config)) [
    | inl m ↦ rw m (
        ap (λ l. l ++ []) (slice_indices-append last.slices _)
        ∙ (append-nil _ ∙ ap (λ l. l ++ (i ∷ [])) (sym (append-nil (slice_indices last.slices)))))
    | inr m ↦ rw m (ap (λ l. l ++ (i ∷ [])) (sym (append-nil (slice_indices last.slices))))
  ]
  field_indices-add_field i config (b ∷ (b' ∷ bs)) =
      ap (λ l. slice_indices b.slices ++ l) (field_indices-add_field i config (b' ∷ bs))
      ∙ sym (append_assoc (slice_indices b.slices) (field_indices (b' ∷ bs)) (i ∷ []))

module _ {D : Type 0} (registers : List (RegisterConfig D)) where
  pub field_indices-add_fields :
      (is : List ℕ) (batches : List RegisterBatch)
      → All (λ i. i < length registers) is
      → field_indices (add_fields registers is batches) ≡ field_indices batches ++ is
  unfolding add_fields
  field_indices-add_fields [] batches h = sym (append-nil (field_indices batches))
  field_indices-add_fields (i ∷ is) batches h =
      let (config, e) = get_elem?-lt registers i h.0 in
      rw e (
        field_indices-add_fields is (add_field i config batches) h.1
        ∙ (ap (λ l. l ++ is) (field_indices-add_field i config batches)
            ∙ append_assoc (field_indices batches) (i ∷ []) is))

  count-range_from :
      (i k n : ℕ)
      → count i (range_from k n) ≡ (if ltb i k then 0 else if ltb i (k + n) then 1 else 0)
  count-range_from i k zero = ground arith
  count-range_from i k (suc n) = ground (arith, count-range_from i (k + 1) n)

  bounded : (n : ℕ) (xs : List ℕ) → ((i : ℕ) → n ≤ i → count i xs ≡ 0) → All (λ i. i < n) xs
  bounded n [] h = tt
  bounded n (x ∷ xs) h = (ground (arith, h x), bounded n xs λ i le. ground (arith, h i le))

  -- If the sort keeps how often each index occurs, every index of a register of the device is in
  -- exactly one slice of the batches, and no other index is in any.
  pub every_register_once :
      (sort : (ℕ → ℕ → Bool) → List ℕ → List ℕ) (i : ℕ)
      → ((xs : List ℕ) (j : ℕ) → count j (sort (before registers) xs) ≡ count j xs)
      → count i (field_indices (build_batches registers sort))
        ≡ (if ltb i (length registers) then 1 else 0)
  unfolding build_batches
  every_register_once sort i keeps =
      let all = range_from 0 (length registers) in
      let in_range =
        bounded (length registers) (sort (before registers) all)
          λ j le. keeps all j ∙ ground (arith, count-range_from j 0 (length registers)) in
      ap (count i) (field_indices-add_fields (sort (before registers) all) [] in_range)
      ∙ (keeps all i ∙ ground (arith, count-range_from i 0 (length registers)))

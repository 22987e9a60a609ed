-- ===== src/Collector/Batches.antt =====
-- What a batch of registers is: one read that covers its registers without a gap.
use swr.Base.{
  ℕ, zero, suc, ◌+◌, ◌≤◌, ◌≡◌, ◌⊎◌, inl, inr, refl, sym, ap, ◌∙◌, arith, Bool, true, ==_iff,
  Bool-cases, Option-cases, some, List, [], ◌∷◌, ◌++◌, length, get_elem?, All,
}
use mathlib.Core.Path.{subst}
use swr.Model.{
  RegisterType, unknown_type, coil, discrete_input, holding_register, input_register,
  RegisterConfig,
}
use swr.Collector.{
  before, range_from, FieldSlice, RegisterBatch, max_read_quantity, rank, eq_type, can_merge, merge,
  new_batch, add_field, add_fields, build_batches,
}

of_rank : ℕ → RegisterType
of_rank zero = unknown_type
of_rank (suc zero) = coil
of_rank (suc (suc zero)) = discrete_input
of_rank (suc (suc (suc zero))) = holding_register
of_rank (suc (suc (suc (suc n)))) = input_register

of_rank-rank : (t : RegisterType) → of_rank (rank t) ≡ t
unfolding of_rank
of_rank-rank unknown_type = refl
of_rank-rank coil = refl
of_rank-rank discrete_input = refl
of_rank-rank holding_register = refl
of_rank-rank input_register = refl

pub eq_type→eq : (a b : RegisterType) → eq_type a b ≡ true → a ≡ b
eq_type→eq a b e =
    sym (of_rank-rank a) ∙ (ap of_rank ((==_iff (rank a) (rank b)).0 e) ∙ of_rank-rank b)

module _ {D : Type 0} (registers : List (RegisterConfig D)) where
  -- A slice at `offset` of a batch: the register it stands for has the batch's type and the
  -- address behind the registers before it.
  abbrev pub Fits : RegisterType → ℕ → ℕ → FieldSlice → Type 0
  Fits type start offset slice =
      (config : RegisterConfig D) × (get_elem? registers slice.field_index ≡ some config)
      × (config.type ≡ type)
      × (config.local_address ≡ start + offset)
      × (slice.offset ≡ offset)
      × (slice.length ≡ config.length)

  -- The slices from `offset` on fill the batch up to `total`.
  abbrev pub Fills : RegisterType → ℕ → ℕ → ℕ → List FieldSlice → Type 0
  Fills type start total offset [] = offset ≡ total
  Fills type start total offset (slice ∷ slices) =
      Fits type start offset slice × Fills type start total (offset + slice.length) slices

  -- The batch reads its registers and nothing else, at most 64 words or coils unless it is a
  -- register of its own.
  abbrev pub IsBatch : RegisterBatch → Type 0
  IsBatch b =
      Fills b.type b.start_address b.total_length 0 b.slices
      × ((b.total_length ≤ max_read_quantity) ⊎ (length b.slices ≡ 1))

  Fills-append :
      (type : RegisterType) (start total offset : ℕ) (slices : List FieldSlice) (slice : FieldSlice)
      → Fills type start total offset slices
      → Fits type start total slice
      → Fills type start (total + slice.length) offset (slices ++ (slice ∷ []))
  Fills-append type start total offset [] slice h f =
      (subst (λ o. Fits type start o slice) (sym h) f, ap (λ o. o + slice.length) h)
  Fills-append type start total offset (s ∷ slices) slice h f =
      (h.0, Fills-append type start total (offset + s.length) slices slice h.1 f)

  new_batch-IsBatch :
      (i : ℕ) (config : RegisterConfig D)
      → get_elem? registers i ≡ some config
      → IsBatch (new_batch i config)
  new_batch-IsBatch i config e =
      (((config, e, refl, omega arith, refl, refl), omega arith), inr refl)

  merge-IsBatch :
      (last : RegisterBatch) (i : ℕ) (config : RegisterConfig D)
      → get_elem? registers i ≡ some config
      → can_merge last config ≡ true
      → IsBatch last
      → IsBatch (merge last i config)
  merge-IsBatch last i config e m h = (
    Fills-append last.type last.start_address last.total_length 0 last.slices
        (record { field_index = i; offset = last.total_length; length = config.length }) h.0
        (
          config,
          e,
          sym (eq_type→eq last.type config.type (ground (arith, m))),
          ground (arith, m),
          refl,
          refl,
        ),
    inl (ground (arith, m)),
  )

  add_field-IsBatch :
      (i : ℕ) (config : RegisterConfig D) (batches : List RegisterBatch)
      → get_elem? registers i ≡ some config
      → All IsBatch batches
      → All IsBatch (add_field i config batches)
  unfolding add_field
  add_field-IsBatch i config [] e h = (new_batch-IsBatch i config e, tt)
  add_field-IsBatch i config (last ∷ []) e h = elim (Bool-cases (can_merge last config)) [
    | inl m ↦ rw m (merge-IsBatch last i config e m h.0, tt)
    | inr m ↦ rw m (h.0, (new_batch-IsBatch i config e, tt))
  ]
  add_field-IsBatch i config (b ∷ (b' ∷ bs)) e h = (h.0, add_field-IsBatch i config (b' ∷ bs) e h.1)

  add_fields-IsBatch :
      (is : List ℕ) (batches : List RegisterBatch)
      → All IsBatch batches
      → All IsBatch (add_fields registers is batches)
  unfolding add_fields
  add_fields-IsBatch [] batches h = h
  add_fields-IsBatch (i ∷ is) batches h = elim (Option-cases (get_elem? registers i)) [
    | inl e ↦ rw e (add_fields-IsBatch is batches h)
    | inr (config, e) ↦ rw e (
        add_fields-IsBatch is (add_field i config batches) (add_field-IsBatch i config batches e h))
  ]

  -- However the indices are sorted, the slices of a batch follow each other without a gap, each
  -- with the type, the address and the length of its register, they fill the batch, and a batch of
  -- several registers reads at most 64 words or coils.
  pub build_batches-IsBatch :
      (sort : (ℕ → ℕ → Bool) → List ℕ → List ℕ) → All IsBatch (build_batches registers sort)
  unfolding build_batches
  build_batches-IsBatch sort =
      add_fields-IsBatch (sort (before registers) (range_from 0 (length registers))) [] tt

-- ===== src/Collector/Poll.antt =====
-- A whole poll of the device, beside reads of its registers one by one.
use mathlib.Core.Path.{ap₂, subst}
use mathlib.Core.Option.{some-injective}
use swr.Base.{
  ℕ, zero, suc, ◌+◌, ◌≤◌, ◌<◌, ◌≡◌, ◌⊎◌, inl, inr, refl, sym, ap, ◌∙◌, arith, Bool, Bool-cases,
  Option, none, some, List, [], ◌∷◌, ◌++◌, length, length-replicate, get_elem?, All, replicate, leb,
  leb→le,
}
use swr.Model.{ByteOrder, RegisterConfig, DeviceInfo}
use swr.Comm.Io.{Result, ok}
use swr.Comm.Client.{DeviceClient}
use swr.Exec.{
  Executor, Values, read_batch, read_field, is_connected, apply_byte_order, effective_byte_order,
  put_client,
}
use swr.Collector.{
  RegisterBatch, FieldResult, empty_result, before, build_batches, ensure_connected, fill_slices,
  fill_batch, collect_batches, connected_collect, collect_all_fields,
}
use swr.Collector.Batches.{IsBatch, build_batches-IsBatch}
use swr.Collector.Coverage.{slice_indices, field_indices, count, every_register_once}
use swr.Collector.Transparent.Slices.{fill-keeps, fill-sets, length-fill}
use swr.Collector.Transparent.{
  Memory, Answers, of_read, stored, alone, batch_fill, read_typed-stored, fill_batch-stored,
  Fills-Gives,
}

pub at_index :
    {A : Type 0} (Q : A → Type 0) (xs : List A) (i : ℕ) (x : A)
    → All Q xs
    → get_elem? xs i ≡ some x
    → Q x
at_index Q [] i x h e = absurd (ground (arith, e))
at_index Q (y ∷ ys) zero x h e = subst Q (some-injective y x e) h.0
at_index Q (y ∷ ys) (suc i) x h e = at_index Q ys i x h.1 e

count-append : (i : ℕ) (xs ys : List ℕ) → count i (xs ++ ys) ≡ count i xs + count i ys
count-append i [] ys = omega arith
count-append i (x ∷ xs) ys = ground (arith, count-append i xs ys)

module _ {S D : Type 0} (dev : DeviceClient S) (device : DeviceInfo D) (P : S → Type 0)
    (word : ℕ → ℕ) (bit : ℕ → Bool) (words_at bits_at : ℕ → ℕ → Type 0)
    (mem : Memory dev P word bit words_at bits_at) (o : ByteOrder) where
  abbrev pub AnswersRegister : RegisterConfig D → Type 0
  AnswersRegister config = Answers words_at bits_at config.type config.local_address config.length

  abbrev pub AnswersBatch : RegisterBatch → Type 0
  AnswersBatch b = Answers words_at bits_at b.type b.start_address b.total_length

  abbrev executor : S → Executor S
  executor s = record { client = some s; default_byte_order = o }

  read_alone :
      (config : RegisterConfig D) (s : S)
      → AnswersRegister config
      → P s
      → of_read (read_field dev config (executor s)).0 ≡ alone device word bit o config.type config
  unfolding read_field
  read_alone config s a p =
      let (s', e, p') =
        read_typed-stored word bit dev P words_at bits_at mem config.type config.local_address
          config.length (λ ws. apply_byte_order ws (effective_byte_order o config)) s a p in
      ap (λ r. of_read (put_client (executor s) r).0) e

  read_batch-stored :
      (b : RegisterBatch) (s : S)
      → AnswersBatch b
      → P s
      → (s' : S) × (read_batch dev b.start_address b.total_length b.type (executor s)
          ≡ (stored word bit b.type b.start_address b.total_length (λ ws. ws), executor s'))
        × P s'
  unfolding read_batch
  read_batch-stored b s a p =
      let (s', e, p') =
        read_typed-stored word bit dev P words_at bits_at mem b.type b.start_address b.total_length
          (λ ws. ws) s a p in
      (s', ap (put_client (executor s)) e, p')

  -- What the results hold once the batches `done` are read.
  abbrev Holds : List FieldResult → (ℕ → Type 0) → Type 0
  Holds results done =
      (i : ℕ) (config : RegisterConfig D)
      → get_elem? device.registers i ≡ some config
      → done i
      → get_elem? results i ≡ some (alone device word bit o config.type config)

  bounded_index :
      {A : Type 0} (xs : List A) (i : ℕ) (a : A) → get_elem? xs i ≡ some a → i < length xs
  bounded_index [] i a e = absurd (ground (arith, e))
  bounded_index (x ∷ xs) zero a e = omega arith
  bounded_index (x ∷ xs) (suc i) a e = omega (arith, bounded_index xs i a e)

  collect-step :
      (b : RegisterBatch) (bs : List RegisterBatch) (results results1 : List FieldResult) (s s1 : S)
      (r : Result Values)
      → read_batch dev b.start_address b.total_length b.type (executor s) ≡ (r, executor s1)
      → fill_batch device o b r results ≡ ok results1
      → collect_batches dev device (b ∷ bs) results (executor s)
        ≡ collect_batches dev device bs results1 (executor s1)
  unfolding collect_batches
  collect-step b bs results results1 s s1 r e1 e2 =
      rw
        (
          ap (λ (p : Result Values × Executor S). fill_batch device o b p.0 results) e1 ∙ e2,
          collect_batches,
        )
        (ap (λ (p : Result Values × Executor S). collect_batches dev device bs results1 p.1) e1)

  split_count :
      (Done : Type 0) (i : ℕ) (b : RegisterBatch) (bs : List RegisterBatch)
      → Done ⊎ (1 ≤ count i (field_indices (b ∷ bs)))
      → (Done ⊎ (1 ≤ count i (slice_indices b.slices))) ⊎ (1 ≤ count i (field_indices bs))
  split_count Done i b bs (inl d) = inl (inl d)
  split_count Done i b bs (inr c) = elim (Bool-cases (leb 1 (count i (slice_indices b.slices)))) [
    | inl here ↦ inl (inr (leb→le 1 _ here))
    | inr later ↦
        inr (ground (arith, later, c, count-append i (slice_indices b.slices) (field_indices bs)))
  ]

  collect-Holds :
      (bs : List RegisterBatch) (results : List FieldResult) (s : S) (done : ℕ → Type 0)
      → P s
      → All AnswersBatch bs
      → All (IsBatch device.registers) bs
      → length results ≡ length device.registers
      → Holds results done
      → (results' : List FieldResult) × (s' : S) × (collect_batches dev device bs results
            (executor s)
          ≡ (ok results', executor s'))
        × (length results' ≡ length device.registers)
        × Holds results' (λ i. done i ⊎ (1 ≤ count i (field_indices bs)))
  unfolding collect_batches
  collect-Holds [] results s done p a h n k = (
    results,
    s,
    refl,
    n,
    λ i config e c. elim c [
      | inl d ↦ k i config e d
      | inr none_left ↦ absurd (omega (arith, none_left))
    ],
  )
  collect-Holds (b ∷ bs) results s done p a h n k =
      let (s1, e1, p1) = read_batch-stored b s a.0 p in
      let f = batch_fill device word bit o b.type b.start_address b.total_length in
      let results1 = fill_slices f b.slices results in
      let e2 =
        fill_batch-stored device word bit o b.type b.start_address b.total_length b.slices
          results in
      let gives =
        λ (i : ℕ) (config : RegisterConfig D) (e : get_elem? device.registers i ≡ some config).
          Fills-Gives device word bit o b.type b.start_address b.total_length 0 i config b.slices e
            h.0.0 in
      let (results', s', e3, n', k') =
        collect-Holds bs results1 s1 (λ i. done i ⊎ (1 ≤ count i (slice_indices b.slices))) p1 a.1
          h.1 (length-fill f b.slices results ∙ n)
          (λ i config e c. elim c [
            | inl d ↦ fill-keeps f i _ b.slices results (gives i config e) (k i config e d)
            | inr c' ↦
                fill-sets f i _ b.slices results (gives i config e) c'
                  (omega (arith, n, bounded_index device.registers i config e))
          ]) in
      (
        results',
        s',
        collect-step b bs results results1 s s1 _ e1 e2 ∙ e3,
        n',
        λ i config e c. k' i config e (split_count (done i) i b bs c),
      )

  stays_connected : (s : S) → P s → ensure_connected dev (executor s) ≡ (ok tt, executor s)
  unfolding ensure_connected is_connected
  stays_connected s p = rw (mem.connected s p) refl

  -- What a poll of the registers one by one finds.
  abbrev pub one_by_one : S → List (RegisterConfig D) → List FieldResult
  one_by_one s [] = []
  one_by_one s (config ∷ configs) =
      of_read (read_field dev config (executor s)).0 ∷ one_by_one s configs

  same_results :
      (s : S) (configs : List (RegisterConfig D)) (results : List FieldResult)
      → length results ≡ length configs
      → ((i : ℕ) (config : RegisterConfig D)
          → get_elem? configs i ≡ some config
          → get_elem? results i ≡ some (of_read (read_field dev config (executor s)).0))
      → results ≡ one_by_one s configs
  same_results s [] [] n h = refl
  same_results s [] (r ∷ results) n h = absurd (omega (arith, n))
  same_results s (config ∷ configs) [] n h = absurd (omega (arith, n))
  same_results s (config ∷ configs) (r ∷ results) n h =
      ap₂ ◌∷◌ (ap (get_or_else r) (h 0 config refl))
        (same_results s configs results (omega (arith, n)) λ i. h (suc i))
    where
      get_or_else : FieldResult → Option FieldResult → FieldResult
      get_or_else d none = d
      get_or_else d (some x) = x

  -- When the device is connected, its values do not change while it is polled, and it answers the read of
  -- every batch and of every single register, a poll succeeds and gives every register the result that
  -- a read of this register alone gives, in the order of the registers, for every way of sorting that
  -- keeps the indices: where the batches begin and end cannot be seen.
  pub poll_as_alone :
      (sort : (ℕ → ℕ → Bool) → List ℕ → List ℕ) (s : S)
      → ((xs : List ℕ) (j : ℕ) → count j (sort (before device.registers) xs) ≡ count j xs)
      → P s
      → All AnswersRegister device.registers
      → All AnswersBatch (build_batches device.registers sort)
      → (s' : S) × (collect_all_fields dev device (build_batches device.registers sort) (executor s)
          ≡ (ok (one_by_one s device.registers), executor s'))
  unfolding collect_all_fields
  poll_as_alone sort s keeps p each batches =
      let start = replicate (length device.registers) empty_result in
      let (results, s', e, n, k) =
        collect-Holds (build_batches device.registers sort) start s (λ i. ⊥) p batches
          (build_batches-IsBatch device.registers sort)
          (length-replicate (length device.registers) empty_result) (λ i config e d. absurd d) in
      (
        s',
        ap (connected_collect dev device (build_batches device.registers sort))
              (stays_connected s p)
            ∙ (e
                ∙ ap (λ (rs : List FieldResult). (ok rs, executor s'))
                    (same_results s device.registers results n
                      (at_each sort s keeps p each results k))),
      )
    where
      at_each :
          (sort : (ℕ → ℕ → Bool) → List ℕ → List ℕ) (s : S)
          → ((xs : List ℕ) (j : ℕ) → count j (sort (before device.registers) xs) ≡ count j xs)
          → P s
          → All AnswersRegister device.registers
          → (results : List FieldResult)
          → Holds results
              (λ i. ⊥ ⊎ (1 ≤ count i (field_indices (build_batches device.registers sort))))
          → (i : ℕ) (config : RegisterConfig D) → get_elem? device.registers i ≡ some config
          → get_elem? results i ≡ some (of_read (read_field dev config (executor s)).0)
      at_each sort s keeps p each results k i config e =
          k i config e (
            inr (
              ground (
                arith,
                every_register_once device.registers sort i keeps,
                bounded_index device.registers i config e,
              )))
          ∙ ap some (
              sym
                (read_alone config s (at_index AnswersRegister device.registers i config each e) p))

-- ===== src/Collector/Transparent.antt =====
-- Reading in batches gives each register what reading it alone gives.
pub mod Slices
use swr.Base.{
  ℕ, zero, suc, ◌+◌, ◌≤◌, ◌<◌, ◌≡◌, ◌⊎◌, inl, inr, refl, sym, ap, ◌∙◌, arith, Bool, true, false,
  not, Option, none, some, List, [], ◌∷◌, ◌++◌, length, length-replicate, get_elem?, get_elem?-lt,
  All, replicate, if◌then◌else◌, ltb,
}
use mathlib.Core.Path.{subst}
use swr.Model.{
  ByteOrder, RegisterType, unknown_type, coil, discrete_input, holding_register, input_register,
  RegisterConfig, DeviceInfo,
}
use swr.Comm.Io.{Error, unsupported_register, Result, ok, err, fault, stuck}
use swr.Comm.Client.{DeviceClient}
use swr.Exec.{
  Executor, Values, words, bits, read_typed, read_batch, read_field, is_connected, connect,
  apply_byte_order, effective_byte_order, apply_field_byte_order,
}
use swr.Collector.{
  mid, FieldSlice, RegisterBatch, FieldResult, empty_result, failed_with, before, build_batches,
  ensure_connected, slice_result, fill_slices, fill_batch, collect_batches, connected_collect,
  collect_all_fields,
}
use swr.Collector.Batches.{IsBatch, Fills, build_batches-IsBatch}
use swr.Collector.Coverage.{slice_indices, field_indices, count, every_register_once}
use swr.Collector.Transparent.Slices.{Gives, cells, mid-cells, fill-keeps, fill-sets, length-fill}

-- A connected device whose words and coils stay as they are while its client keeps `P`, and which answers
-- the reads of the words and of the coils from an address on, so many at a time.
pub record Memory {S : Type 0} (dev : DeviceClient S) (P : S → Type 0) (word : ℕ → ℕ)
    (bit : ℕ → Bool) (words_at bits_at : ℕ → ℕ → Type 0) : Type 0 where
  pub connected : (s : S) → P s → dev.is_connected s ≡ true
  pub words_read :
      (s : S) (a n : ℕ)
      → words_at a n
      → P s
      → (s' : S) × (dev.read_words a n s ≡ (ok (cells word a n), s')) × P s'
  pub bits_read :
      (s : S) (a n : ℕ)
      → bits_at a n
      → P s
      → (s' : S) × (dev.read_bits a n s ≡ (ok (cells bit a n), s')) × P s'

-- The reads of a type of register that the device answers.
abbrev pub Answers : (ℕ → ℕ → Type 0) → (ℕ → ℕ → Type 0) → RegisterType → ℕ → ℕ → Type 0
Answers words_at bits_at coil a n = bits_at a n
Answers words_at bits_at discrete_input a n = bits_at a n
Answers words_at bits_at holding_register a n = words_at a n
Answers words_at bits_at input_register a n = words_at a n
Answers words_at bits_at unknown_type a n = Unit {0}

-- What a poll keeps of the outcome of a read.
abbrev pub of_read : Result Values → FieldResult
of_read (ok values) = record {
  register_values = values.register_values;
  coil_values = values.coil_values;
  is_ok = true;
  error = none;
}
of_read (err e) = failed_with e
of_read r = empty_result

module _ (word : ℕ → ℕ) (bit : ℕ → Bool) where
  -- What a read of `n` words or coils from `a` on returns.
  abbrev pub stored : RegisterType → ℕ → ℕ → (List ℕ → List ℕ) → Result Values
  stored coil a n order = ok (bits (cells bit a n))
  stored discrete_input a n order = ok (bits (cells bit a n))
  stored holding_register a n order = ok (words (order (cells word a n)))
  stored input_register a n order = ok (words (order (cells word a n)))
  stored unknown_type a n order = err (unsupported_register unknown_type)

  pub read_typed-stored :
      {S : Type 0} (dev : DeviceClient S) (P : S → Type 0) (words_at bits_at : ℕ → ℕ → Type 0)
      → Memory dev P word bit words_at bits_at
      → (t : RegisterType) (a n : ℕ) (order : List ℕ → List ℕ) (s : S)
      → Answers words_at bits_at t a n
      → P s
      → (s' : S) × (read_typed dev t a n order s ≡ (stored t a n order, s')) × P s'
  unfolding read_typed
  read_typed-stored dev P words_at bits_at mem coil a n order s h p =
      let (s', e, p') = mem.bits_read s a n h p in (s', rw e refl, p')
  read_typed-stored dev P words_at bits_at mem discrete_input a n order s h p =
      let (s', e, p') = mem.bits_read s a n h p in (s', rw e refl, p')
  read_typed-stored dev P words_at bits_at mem holding_register a n order s h p =
      let (s', e, p') = mem.words_read s a n h p in (s', rw e refl, p')
  read_typed-stored dev P words_at bits_at mem input_register a n order s h p =
      let (s', e, p') = mem.words_read s a n h p in (s', rw e refl, p')
  read_typed-stored dev P words_at bits_at mem unknown_type a n order s h p = (s, refl, p)

cut :
    {A : Type 0} (f : ℕ → A) (a n o k a' k' : ℕ)
    → a' ≡ a + o
    → k ≡ k'
    → o + k ≤ n
    → mid (cells f a n) o k ≡ cells f a' k'
cut f a n o k a' k' ea ek h =
    mid-cells f a n o k h
    ∙ (ap (λ b. cells f b k) {x = a + o} {y = a'} (sym ea) ∙ ap (cells f a') ek)

module _ {D : Type 0} (device : DeviceInfo D) (word : ℕ → ℕ) (bit : ℕ → Bool) (o : ByteOrder) where
  -- The result of reading a register alone, and what a batch makes of a slice.
  abbrev pub alone : RegisterType → RegisterConfig D → FieldResult
  alone t config = of_read (
      stored word bit t config.local_address config.length
        (λ ws. apply_byte_order ws (effective_byte_order o config)))

  abbrev pub batch_fill : RegisterType → ℕ → ℕ → FieldSlice → FieldResult
  batch_fill unknown_type a n s = failed_with (unsupported_register unknown_type)
  batch_fill coil a n s = slice_result device o coil (bits (cells bit a n)) s
  batch_fill discrete_input a n s = slice_result device o discrete_input (bits (cells bit a n)) s
  batch_fill holding_register a n s =
      slice_result device o holding_register (words (cells word a n)) s
  batch_fill input_register a n s = slice_result device o input_register (words (cells word a n)) s

  pub fill_batch-stored :
      (t : RegisterType) (a n : ℕ) (ss : List FieldSlice) (results : List FieldResult)
      → fill_batch device o
          (record { start_address = a; total_length = n; type = t; slices = ss })
          (stored word bit t a n (λ ws. ws))
          results
        ≡ ok (fill_slices (batch_fill t a n) ss results)
  unfolding fill_batch
  fill_batch-stored unknown_type a n ss results = refl
  fill_batch-stored coil a n ss results = refl
  fill_batch-stored discrete_input a n ss results = refl
  fill_batch-stored holding_register a n ss results = refl
  fill_batch-stored input_register a n ss results = refl

  batch_fill-alone :
      (t : RegisterType) (a n : ℕ) (s : FieldSlice) (config : RegisterConfig D)
      → get_elem? device.registers s.field_index ≡ some config
      → config.local_address ≡ a + s.offset
      → s.length ≡ config.length
      → s.offset + s.length ≤ n
      → batch_fill t a n s ≡ alone t config
  unfolding slice_result apply_field_byte_order
  batch_fill-alone unknown_type a n s config e ea ek h = refl
  batch_fill-alone coil a n s config e ea ek h =
      ap (λ v. of_read (ok (bits v))) (cut bit a n s.offset s.length _ _ ea ek h)
  batch_fill-alone discrete_input a n s config e ea ek h =
      ap (λ v. of_read (ok (bits v))) (cut bit a n s.offset s.length _ _ ea ek h)
  batch_fill-alone holding_register a n s config e ea ek h = rw e (
      ap (λ v. of_read (ok (words (apply_byte_order v (effective_byte_order o config)))))
        (cut word a n s.offset s.length _ _ ea ek h))
  batch_fill-alone input_register a n s config e ea ek h = rw e (
      ap (λ v. of_read (ok (words (apply_byte_order v (effective_byte_order o config)))))
        (cut word a n s.offset s.length _ _ ea ek h))

  Fills-le :
      (t : RegisterType) (a n offset : ℕ) (ss : List FieldSlice)
      → Fills device.registers t a n offset ss
      → offset ≤ n
  Fills-le t a n offset [] h = omega (arith, h)
  Fills-le t a n offset (s ∷ ss) h = omega (arith, Fills-le t a n (offset + s.length) ss h.1)

  pub Fills-Gives :
      (t : RegisterType) (a n offset i : ℕ) (config : RegisterConfig D) (ss : List FieldSlice)
      → get_elem? device.registers i ≡ some config
      → Fills device.registers t a n offset ss
      → Gives (batch_fill t a n) i (alone config.type config) ss
  Fills-Gives t a n offset i config [] e h = tt
  Fills-Gives t a n offset i config (s ∷ ss) e h =
      let (config', e', et, ea, eo, ek) = h.0 in
      (
        λ at_i.
            let same : config' ≡ config =
              ap (λ o. elim o [ none ↦ config | some c ↦ c ])
                (sym e' ∙ (ap (get_elem? device.registers) at_i ∙ e)) in
            batch_fill-alone t a n s config' e' (omega (arith, ea, eo)) ek
              (omega (arith, eo, Fills-le t a n (offset + s.length) ss h.1))
            ∙ (ap (λ t'. alone t' config') (sym et) ∙ ap (λ c. alone c.type c) same),
        Fills-Gives t a n (offset + s.length) i config ss e h.1,
      )

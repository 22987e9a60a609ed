-- ===== src/Trend/Recorder/Polled.antt =====
-- What a tick of the timer records of a register that was polled before.
use mathlib.Core.Option.{some-injective}
use swr.Base.{
  ℕ, zero, suc, ◌+◌, ◌*◌, ◌%◌, ◌≤◌, ◌<◌, ◌≡◌, refl, ap, ◌∙◌, arith, String, Bool, true, false, some,
  List, [], ◌∷◌, ◌++◌, length, get_or, get_elem?, if◌then◌else◌,
}
use swr.Base.Int.{ℤ, is_neg}
use swr.Model.{
  RegisterType, unknown_type, coil, discrete_input, holding_register, input_register,
  RegisterConfig, Doubles,
}
use swr.Store.Hash.{Hash}
use swr.Store.RegisterTable.{RegisterState, state, read_entry, update_state}
use swr.Store.RegisterTable.States.{entry_of, update_own}
use swr.Trend.{max_file_size, words_le, File, Storage}
use swr.Trend.Layout.{Record, file_image, IsFile}
use swr.Trend.Reader.{word}
use swr.Trend.Appends.{writer_at}
use swr.Trend.Samples.{records}
use swr.Trend.Recorder.{TrendFileRecorder, channel_word, values_of, on_timer}
use swr.Trend.Recorder.Ticks.{ticks_recorded, length-values_of}

-- What a read of a register is worth as one word: nothing where it failed.
abbrev pub polled_word : RegisterType → Bool → List ℕ → List Bool → ℕ
polled_word t false ws bs = 0
polled_word coil true ws bs = if get_or bs 0 false then 1 else 0
polled_word discrete_input true ws bs = if get_or bs 0 false then 1 else 0
polled_word holding_register true ws bs = get_or ws 0 0
polled_word input_register true ws bs = get_or ws 0 0
polled_word unknown_type true ws bs = get_or ws 0 0

word-words_le :
    (vs : List ℕ) (k : ℕ) → k < length vs → word (words_le vs) (2 * k) ≡ get_or vs k 0 % 65536
unfolding words_le
word-words_le [] k h = absurd (omega (arith, h))
word-words_le (v ∷ vs) zero h = omega arith
word-words_le (v ∷ vs) (suc k) h =
    let e : 2 * suc k ≡ suc (suc (2 * k)) = omega arith in
    let e2 : suc (suc (2 * k)) + 1 ≡ suc (suc (2 * k + 1)) = omega arith in
    rw (e, e2) (word-words_le vs k (omega (arith, h)))

module _ {D : Type 0} (d : Doubles D) where
  values-at :
      (n k : ℕ) (ids : List ℤ) (id : ℤ) (table : Hash (RegisterState D))
      → k < n
      → get_elem? ids k ≡ some id
      → get_or (values_of d n ids table) k 0 ≡ channel_word d (state d id table)
  unfolding values_of
  values-at zero k ids id table l e = absurd (omega (arith, l))
  values-at (suc n) k [] id table l e = absurd (ground (arith, e))
  values-at (suc n) zero (x ∷ ids) id table l e =
      ap (λ j. channel_word d (state d j table)) (some-injective x id e)
  values-at (suc n) (suc k) (x ∷ ids) id table l e = values-at n k ids id table (omega (arith, l)) e

  word_of_type :
      (t : RegisterType) (now : ℕ) (config : RegisterConfig D) (ws : List ℕ) (bs : List Bool)
      (success : Bool) (message : String) (interval : ℕ) (old : RegisterState D)
      → config.type ≡ t
      → channel_word d (entry_of d now config ws bs success message interval old)
        ≡ polled_word t success ws bs
  unfolding channel_word read_entry
  word_of_type t now config ws bs false message interval old e = refl
  word_of_type coil now config ws [] true message interval old e = rw e refl
  word_of_type coil now config ws (b ∷ bs) true message interval old e = rw e refl
  word_of_type discrete_input now config ws [] true message interval old e = rw e refl
  word_of_type discrete_input now config ws (b ∷ bs) true message interval old e = rw e refl
  word_of_type holding_register now config [] bs true message interval old e = rw e refl
  word_of_type holding_register now config (w ∷ ws) bs true message interval old e = rw e refl
  word_of_type input_register now config [] bs true message interval old e = rw e refl
  word_of_type input_register now config (w ∷ ws) bs true message interval old e = rw e refl
  word_of_type unknown_type now config [] bs true message interval old e = rw e refl
  word_of_type unknown_type now config (w ∷ ws) bs true message interval old e = rw e refl

module _ {F D : Type 0} (dev : File F) (d : Doubles D) where
  -- A register with a unified address, of which the id is that of one of the recorder's 16 channels, is
  -- polled, and then the timer fires, while the recorder records into a file that holds the image of
  -- records, no call of the file fails and the file is below its largest size: one record is
  -- added, with the first word that was read, or 1 or 0 for the first coil, at the place of this
  -- channel, and with 0 there if the read failed or gave nothing, whatever was read before.
  pub poll_recorded :
      (At : F → List ℕ → ℕ → Type 0) (law : Storage dev At) (header : List ℕ)
      (blocks : List (List Record)) (current : List Record) (f : F) (p : ℕ)
      (r : TrendFileRecorder F) (k now : ℕ) (config : RegisterConfig D) (ws : List ℕ)
      (bs : List Bool) (success : Bool) (message : String) (interval : ℕ)
      (table : Hash (RegisterState D))
      → IsFile header blocks current
      → 584 + 34 * (31 * length blocks + length current + 1) ≤ max_file_size
      → At f (file_image header blocks current) p
      → r.writer ≡ writer_at f blocks current
      → is_neg config.unified_address ≡ false
      → k < 16
      → get_elem? r.channel_ids k ≡ some config.unified_address
      → let polled = update_state d now config ws bs success message interval table in
        (f2 : F) × (p2 : ℕ) × (blocks2 : List (List Record)) × (current2 : List Record)
        × (added : Record) × (on_timer dev d polled r
            ≡ record r { writer = writer_at f2 blocks2 current2 })
        × At f2 (file_image header blocks2 current2) p2
        × (records blocks2 current2 ≡ records blocks current ++ (added ∷ []))
        × (word added (2 * k) ≡ polled_word config.type success ws bs % 65536)
  poll_recorded At law header blocks current f p r k now config ws bs success message interval table
        h small a e address l channel =
      let polled = update_state d now config ws bs success message interval table in
      let vs = values_of d 16 r.channel_ids polled in
      let (f2, p2, blocks2, current2, ticked, a2, h2, all) =
        ticks_recorded dev d At law header (polled ∷ []) blocks current f p r h small a e in
      (
        f2,
        p2,
        blocks2,
        current2,
        words_le vs,
        ticked,
        a2,
        all,
        word-words_le vs k (omega (arith, l, length-values_of d 16 r.channel_ids polled))
            ∙ ap (λ v. v % 65536)
                (values-at d 16 k r.channel_ids config.unified_address polled l channel
                  ∙ (ap (channel_word d)
                        (update_own d now config ws bs success message interval table address)
                      ∙ word_of_type d config.type now config ws bs success message interval
                          (state d config.unified_address table) refl)),
      )

-- ===== src/Store/RegisterTable.antt =====
-- data_collection/store/RegisterTable.cpp: the last state of every register by unified address.
-- The clock is an argument of `update_state`; the mutex makes every method one step.
pub mod Scaled
pub mod States
use mathlib.Core.List.{foldl}
use swr.Base.{
  ℕ, ◌+◌, ◌-◌, ◌*◌, ◌/◌, ◌%◌, ◌^◌, bit_or, String, Bool, true, false, not, ◌&&◌, ◌||◌, Option, none,
  some, List, [], ◌∷◌, map, ◌==◌, ltb, if◌then◌else◌, length,
}
use swr.Base.Int.{ℤ, pos, negsuc, is_neg}
use swr.Model.{
  RegisterType, unknown_type, coil, discrete_input, holding_register, input_register,
  RegisterConfig, Doubles, default_config,
}
use swr.Store.Hash.{Hash, find, insert}

pub record RegisterState (D : Type 0) : Type 0 where
  pub config : RegisterConfig D
  pub raw_registers : List ℕ
  pub raw_coils : List Bool
  pub scaled_value : D
  pub out_of_range : Bool
  pub last_updated : Option ℕ
  pub is_valid : Bool
  pub error_message : String
  pub polling_interval_ms : ℕ

-- `(combined << 16) | word` on a quint64.
unfoldable pub combine_word : ℕ → ℕ → ℕ
combine_word combined word = bit_or (combined * 65536 % 2 ^ 64) word

unfoldable pub combine : ℕ → List ℕ → ℕ
unfolding combine_word
combine combined [] = combined
combine combined (w ∷ ws) = combine (combine_word combined w) ws

-- The integer of a two's complement pattern of `w` bits.
abbrev pub signed_of : ℕ → ℕ → ℤ
signed_of w x = if ltb x (2 ^ (w - 1)) then pos x else negsuc (2 ^ w - 1 - x)

-- The sign extension to 64 bits of a number of `bits` bits. The source shifts by `bits - 1`, which
-- is defined up to 64 bits, that is up to four words.
unfoldable pub sign_extend : ℕ → ℕ → ℕ
sign_extend bits combined =
    let sign_bit = 2 ^ (bits - 1) in
    let mask = 2 ^ 64 - 1 - (sign_bit * 2 % 2 ^ 64 + 2 ^ 64 - 1) % 2 ^ 64 in
    if combined / sign_bit % 2 == 1 then bit_or mask combined else combined

-- The raw integer of the registers.
unfoldable pub raw_integer : Bool → List ℕ → ℤ
unfolding combine sign_extend
raw_integer is_signed [] = pos 0
raw_integer is_signed (w ∷ []) = if is_signed then signed_of 16 w else pos w
raw_integer is_signed (w ∷ ws) =
    let combined = combine 0 (w ∷ ws) in
    if is_signed then signed_of 64 (sign_extend (length (w ∷ ws) * 16) combined) else pos combined

unfoldable pub count_true : List Bool → ℕ
count_true [] = 0
count_true (b ∷ bs) = if b then count_true bs + 1 else count_true bs

module _ {D : Type 0} (d : Doubles D) where
  unfoldable pub coils_value : D → List Bool → D
  coils_value scale [] = d.zero
  coils_value scale (b ∷ []) = if b then d.mul d.one scale else d.zero
  coils_value scale bs = d.mul (d.of_ℤ (pos (count_true bs))) scale

  unfoldable pub registers_value : Bool → D → List ℕ → D
  unfolding raw_integer
  registers_value is_signed scale [] = d.zero
  registers_value is_signed scale ws = d.mul (d.of_ℤ (raw_integer is_signed ws)) scale

  unfoldable pub compute_scaled_value : RegisterState D → D
  unfolding coils_value registers_value
  compute_scaled_value entry = elim entry.config.type [
    | coil ↦ coils_value entry.config.scale entry.raw_coils
    | discrete_input ↦ coils_value entry.config.scale entry.raw_coils
    | holding_register ↦
        registers_value entry.config.is_signed entry.config.scale entry.raw_registers
    | input_register ↦ registers_value entry.config.is_signed entry.config.scale entry.raw_registers
    | unknown_type ↦ d.zero
  ]

  unfoldable pub clamp_value : D → D → D → D
  clamp_value value low high =
      if d.lt value low then low else if d.lt high value then high else value

  -- `RegisterState{}`, which `value()` gives for a key that is not there.
  unfoldable pub default_state : RegisterState D
  default_state = record {
    config = default_config d;
    raw_registers = [];
    raw_coils = [];
    scaled_value = d.zero;
    out_of_range = false;
    last_updated = none;
    is_valid = true;
    error_message = "";
    polling_interval_ms = 1000;
  }

  unfoldable pub state : ℤ → Hash (RegisterState D) → RegisterState D
  unfolding default_state
  state id states = elim (find id states) [ none ↦ default_state | some s ↦ s ]

  -- The entry after a poll that read the values at time `now`, in the order of the assignments.
  unfoldable pub read_entry : ℕ → List ℕ → List Bool → RegisterState D → RegisterState D
  unfolding compute_scaled_value clamp_value
  read_entry now registers coils entry =
      let read = record entry {
        last_updated = some now;
        raw_registers = registers;
        raw_coils = coils;
        out_of_range =
            d.lt entry.scaled_value entry.config.min_value
            || d.lt entry.config.max_value entry.scaled_value;
      } in
      record read {
        scaled_value =
            clamp_value (compute_scaled_value read) entry.config.min_value entry.config.max_value;
      }

  unfoldable pub update_state :
      ℕ
      → RegisterConfig D
      → List ℕ
      → List Bool
      → Bool
      → String
      → ℕ
      → Hash (RegisterState D)
      → Hash (RegisterState D)
  unfolding state read_entry
  update_state now config registers coils success message interval states =
      let entry = record (state config.unified_address states) {
        config = config;
        polling_interval_ms = interval;
        is_valid = success;
        error_message = message;
      } in
      if is_neg config.unified_address
      then states
      else insert config.unified_address
          (if success then read_entry now registers coils entry else entry) states

unfoldable pub clear : {D : Type 0} → Hash (RegisterState D) → Hash (RegisterState D)
clear states = []

unfoldable pub states : {D : Type 0} → Hash (RegisterState D) → List (RegisterState D)
states {D} table = map (λ (p : ℤ × RegisterState D). p.1) table

-- ===== src/Exec.antt =====
-- data_collection/comm/RegisterExecutor.cpp: reads and writes of registers through the client of
-- one device, with the order of the words.
pub mod Guards
pub mod Order
use mathlib.Core.List.{reverse}
use swr.Base.{
  ℕ, Bool, true, false, not, List, [], ◌∷◌, Option, none, some, ◌==◌, leb, ◌||◌, if◌then◌else◌,
  length,
}
use swr.Model.{
  ByteOrder, default_order, big_endian, little_endian, RegisterType, unknown_type, coil,
  discrete_input, holding_register, input_register, RegisterConfig,
}
use swr.Comm.Io.{
  Error, no_client, unsupported_register, unsupported_target, register_read_only,
  bit_count_mismatch, word_count_mismatch, Result, ok, err, fault, stuck, Io, next,
}
use swr.Comm.Client.{DeviceClient}

-- `m_client`, which may be null, and `m_defaultByteOrder`.
pub record Executor (S : Type 0) : Type 0 where
  pub client : Option S
  pub default_byte_order : ByteOrder

-- The two out-parameters of a read; the callers pass them empty.
pub record Values : Type 0 where
  pub register_values : List ℕ
  pub coil_values : List Bool

abbrev pub words : List ℕ → Values
words ws = record { register_values = ws; coil_values = [] }

abbrev pub bits : List Bool → Values
bits bs = record { register_values = []; coil_values = bs }

-- The words from the last to the first, unless there is one or the order is big endian.
unfoldable pub apply_byte_order : List ℕ → ByteOrder → List ℕ
apply_byte_order values big_endian = values
apply_byte_order values order = if leb (length values) 1 then values else reverse values

unfoldable pub effective_byte_order : {D : Type 0} → ByteOrder → RegisterConfig D → ByteOrder
effective_byte_order default' config = elim config.byte_order [
  | default_order ↦ default'
  | big_endian ↦ big_endian
  | little_endian ↦ little_endian
]

unfoldable pub apply_field_byte_order :
    {D : Type 0} → ByteOrder → List ℕ → RegisterConfig D → List ℕ
unfolding apply_byte_order effective_byte_order
apply_field_byte_order default' values config =
    apply_byte_order values (effective_byte_order default' config)

abbrev pub put_client : {S A : Type 0} → Executor S → Result A × S → Result A × Executor S
put_client x (r, s) = (r, record x { client = some s })

-- A call of the client, if there is one.
abbrev pub on_client : {S A : Type 0} → Io S A → Io (Executor S) A
on_client call x = elim x.client [ none ↦ (err no_client, x) | some s ↦ put_client x (call s) ]

abbrev pub map_result : {A B : Type 0} → (A → B) → Result A → Result B
map_result f (ok a) = ok (f a)
map_result f (err e) = err e
map_result f fault = fault
map_result f stuck = stuck

abbrev pub map_io : {S A B : Type 0} → (A → B) → Io S A → Io S B
map_io f m s = let (r, s') = m s in (map_result f r, s')

module _ {S : Type 0} (dev : DeviceClient S) where
  connect_result : Bool × S → Result (Unit {0}) × S
  connect_result (true, s) = (ok tt, s)
  connect_result (false, s) = (err (dev.error_string s), s)

  unfoldable pub connect : Io (Executor S) (Unit {0})
  unfolding connect_result
  connect = on_client λ s. connect_result (dev.connect s)

  unfoldable pub is_connected : Executor S → Bool
  is_connected x = elim x.client [ none ↦ false | some s ↦ dev.is_connected s ]

  -- `switch (type)` of `readField` and `readBatch`, behind the test for a client.
  unfoldable pub read_typed : RegisterType → ℕ → ℕ → (List ℕ → List ℕ) → Io S Values
  read_typed coil address count order s = map_io bits (dev.read_bits address count) s
  read_typed discrete_input address count order s = map_io bits (dev.read_bits address count) s
  read_typed holding_register address count order s =
      map_io (λ ws. words (order ws)) (dev.read_words address count) s
  read_typed input_register address count order s =
      map_io (λ ws. words (order ws)) (dev.read_words address count) s
  read_typed unknown_type address count order s = (err (unsupported_register unknown_type), s)

  unfoldable pub read_field : {D : Type 0} → RegisterConfig D → Io (Executor S) Values
  unfolding read_typed apply_byte_order effective_byte_order
  read_field config x =
      on_client
        (read_typed config.type config.local_address config.length
          (λ ws. apply_byte_order ws (effective_byte_order x.default_byte_order config)))
        x

  unfoldable pub read_batch : ℕ → ℕ → RegisterType → Io (Executor S) Values
  unfolding read_typed
  read_batch start total type = on_client (read_typed type start total (λ ws. ws))

  write_typed :
      {D : Type 0}
      → RegisterType
      → ByteOrder
      → RegisterConfig D
      → List ℕ
      → List Bool
      → Io S (Unit {0})
  unfolding apply_byte_order
  write_typed coil order config register_values coil_values s =
      if length coil_values == config.length
      then dev.write_bits config.local_address coil_values s
      else (err (bit_count_mismatch config.tag_name), s)
  write_typed holding_register order config register_values coil_values s =
      if length register_values == config.length
      then dev.write_words config.local_address (apply_byte_order register_values order) s
      else (err (word_count_mismatch config.tag_name), s)
  write_typed type order config register_values coil_values s = (err (unsupported_target type), s)

  unfoldable pub write_field :
      {D : Type 0} → RegisterConfig D → List ℕ → List Bool → Io (Executor S) (Unit {0})
  unfolding write_typed effective_byte_order
  write_field config register_values coil_values x =
      on_client
        (λ s.
          if config.read_only
          then (err (register_read_only config.tag_name), s)
          else write_typed config.type (effective_byte_order x.default_byte_order config) config
              register_values coil_values s)
        x

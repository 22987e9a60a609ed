-- ===== src/Server.antt =====
-- modbus_server/ModbusTcpServer.cpp: the server that shows the register table to Modbus masters and
-- turns their writes into pending writes. Qt's server, which calls the two functions, and its
-- connections are not part of the model.
pub mod Reads
pub mod Writes
pub mod Lost
pub mod Block
use swr.Base.{
  ℕ, zero, suc, ◌+◌, ◌%◌, Bool, true, false, not, ◌||◌, Option, none, some, List, [], ◌∷◌, ltb,
  if◌then◌else◌,
}
use swr.Base.Int.{ℤ, pos, negsuc, is_neg}
use swr.Model.{
  RegisterType, unknown_type, coil, discrete_input, holding_register, input_register,
  RegisterConfig, DeviceInfo, WriteRequest, Doubles, default_config,
}
use swr.Store.Hash.{Hash}
use swr.Store.RegisterTable.{RegisterState, state}
use swr.Store.DeviceList.{DeviceList, get_all, find_by_unified_address, is_enabled, enqueue_write}

-- `QModbusDataUnit`: the first address and the values.
pub record DataUnit : Type 0 where
  pub start_address : ℕ
  pub values : List ℕ

-- `if (reg.unifiedAddress > maxId) maxId = reg.unifiedAddress;`
abbrev pub larger : ℕ → ℤ → ℕ
larger max_id (pos a) = if ltb max_id a then a else max_id
larger max_id (negsuc a) = max_id

abbrev pub coil_word : List Bool → ℕ
coil_word [] = 0
coil_word (b ∷ bs) = if b then 1 else 0

abbrev pub first_word : List ℕ → ℕ
first_word [] = 0
first_word (w ∷ ws) = w

module _ {D : Type 0} where
  unfoldable pub max_of_registers : ℕ → List (RegisterConfig D) → ℕ
  max_of_registers max_id [] = max_id
  max_of_registers max_id (reg ∷ regs) = max_of_registers (larger max_id reg.unified_address) regs

  unfoldable pub max_of_devices : ℕ → List (DeviceInfo D) → ℕ
  unfolding max_of_registers
  max_of_devices max_id [] = max_id
  max_of_devices max_id (device ∷ ds) = max_of_devices (max_of_registers max_id device.registers) ds

  -- `static_cast<quint16>(maxId + 1)`: how many holding registers `start` gives to Qt's server,
  -- which refuses the addresses from there on.
  unfoldable pub block_size : DeviceList D → ℕ
  unfolding max_of_devices get_all
  block_size l = (max_of_devices 100 (get_all l) + 1) % 65536

  abbrev pub word_of_type : RegisterType → RegisterState D → ℕ
  word_of_type coil s = coil_word s.raw_coils
  word_of_type discrete_input s = coil_word s.raw_coils
  word_of_type type s = first_word s.raw_registers

  -- `readFn`, and the loop of `readData` over `count` addresses.
  unfoldable pub read_fn : Doubles D → Hash (RegisterState D) → ℕ → ℕ
  unfolding state
  read_fn d states address =
      let s = state d (pos address) states in
      if is_neg s.config.unified_address then 0 else word_of_type s.config.type s

  unfoldable pub read_data : Doubles D → Hash (RegisterState D) → ℕ → ℕ → List ℕ
  unfolding read_fn
  read_data d states address zero = []
  read_data d states address (suc n) = read_fn d states address ∷ read_data d states (address + 1) n

  -- The first loop of `forwardWrite`: the registers that are written, or `none` where one of them
  -- is read-only or its device is disabled.
  unfoldable pub target : Doubles D → DeviceList D → ℕ → Option (RegisterConfig D)
  target d l address = elim (find_by_unified_address (pos address) l) [
    | none ↦ some (default_config d)
    | some config ↦
        if config.read_only || not (is_enabled config.device_id l) then none else some config
  ]

  unfoldable pub targets : Doubles D → DeviceList D → ℕ → List ℕ → Option (List (RegisterConfig D))
  unfolding target
  targets d l address [] = some []
  targets d l address (value ∷ values) =
      let rest = targets d l (address + 1) values in
      elim (target d l address) [
        | none ↦ none
        | some config ↦ elim rest [ none ↦ none | some configs ↦ some (config ∷ configs) ]
      ]

  -- A pending write of one word. `retryCount` starts at 3.
  abbrev pub forwarded : RegisterConfig D → ℕ → WriteRequest D
  forwarded config value = record {
    config = config;
    raw_values = value ∷ [];
    coil_values = [];
    retry_count = 3;
  }

  -- The second loop, with the signals `writeRequested` that it emits; the two lists are as long.
  unfoldable pub enqueue_targets :
      List (RegisterConfig D) → List ℕ → DeviceList D → DeviceList D × List (ℤ × ℕ)
  enqueue_targets [] values l = (l, [])
  enqueue_targets (config ∷ configs) [] l = (l, [])
  enqueue_targets (config ∷ configs) (value ∷ values) l =
      let skipped = enqueue_targets configs values l in
      let queued =
        enqueue_targets configs values
          (enqueue_write config.device_id (forwarded config value) l) in
      if is_neg config.unified_address
      then skipped
      else (queued.0, (config.unified_address, value) ∷ queued.1)

  -- What Qt's server is answered, the device list and the signals.
  unfoldable pub forward_write :
      Doubles D → DataUnit → DeviceList D → Bool × (DeviceList D × List (ℤ × ℕ))
  unfolding targets enqueue_targets
  forward_write d unit l = elim (targets d l unit.start_address unit.values) [
    | none ↦ (false, (l, []))
    | some configs ↦ (true, enqueue_targets configs unit.values l)
  ]

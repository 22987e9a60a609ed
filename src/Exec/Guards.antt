-- ===== src/Exec/Guards.antt =====
-- What a write refuses before it reaches the device.
use swr.Base.{ℕ, ◌≡◌, refl, arith, List, Bool, false, Bool-cases, inl, inr, some, length}
use swr.Model.{RegisterType, coil, holding_register, RegisterConfig, ByteOrder}
use swr.Comm.Io.{
  Error, bit_count_mismatch, word_count_mismatch, unsupported_target, register_read_only, err,
}
use swr.Comm.Client.{DeviceClient}
use swr.Exec.{write_field, write_typed, effective_byte_order}

abbrev pub TakesType : RegisterType → ℕ → List ℕ → List Bool → Type 0
TakesType coil n ws bs = length bs ≡ n
TakesType holding_register n ws bs = length ws ≡ n
TakesType t n ws bs = ⊥

-- A register that takes these values: not read-only, a coil with as many bits as it is long or a
-- holding register with as many words.
abbrev pub Takes : {D : Type 0} → RegisterConfig D → List ℕ → List Bool → Type 0
Takes config ws bs = (config.read_only ≡ false) × TakesType config.type config.length ws bs

write_typed_refused :
    {S D : Type 0} (dev : DeviceClient S) (type : RegisterType) (order : ByteOrder)
    (config : RegisterConfig D) (ws : List ℕ) (bs : List Bool) (s : S)
    → ¬ TakesType type config.length ws bs
    → (e : Error) × (write_typed dev type order config ws bs s ≡ (err e, s))
unfolding write_field
write_typed_refused dev coil order config ws bs s no_take =
    (bit_count_mismatch config.tag_name, ground arith)
write_typed_refused dev holding_register order config ws bs s no_take =
    (word_count_mismatch config.tag_name, ground arith)
write_typed_refused dev type order config ws bs s no_take = (unsupported_target type, refl)

-- A write is refused with an error, and neither the device nor the executor changes, unless the
-- register is not read-only and is a coil with as many bits as it is long or a holding register
-- with as many words.
pub write_field_refused :
    {S D : Type 0} (dev : DeviceClient S) (config : RegisterConfig D) (ws : List ℕ) (bs : List Bool)
    (s : S) (o : ByteOrder)
    → ¬ Takes config ws bs
    → (e : Error) × (write_field dev config ws bs
          (record { client = some s; default_byte_order = o })
        ≡ (err e, record { client = some s; default_byte_order = o }))
unfolding write_field
write_field_refused dev config ws bs s o no_take = elim (Bool-cases config.read_only) [
  | inl locked ↦ (register_read_only config.tag_name, ground arith)
  | inr open' ↦
      let (e, same) =
        write_typed_refused dev config.type (effective_byte_order o config) config ws bs s
          (λ h. no_take (open', h)) in
      (e, ground (arith, same))
]

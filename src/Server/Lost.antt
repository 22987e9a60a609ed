-- ===== src/Server/Lost.antt =====
-- Which writes of a Modbus master the device ever sees.
use swr.Base.{ℕ, ◌≤◌, ◌≡◌, ◌≢◌, ◌⊎◌, inl, inr, refl, sym, arith, true, false, [], ◌∷◌, some}
use swr.Base.Int.{pos}
use swr.Model.{
  ByteOrder, RegisterType, unknown_type, coil, discrete_input, holding_register, input_register,
  RegisterConfig, Doubles,
}
use swr.Comm.Io.{Error, err}
use swr.Comm.Client.{DeviceClient}
use swr.Exec.{write_field}
use swr.Exec.Guards.{TakesType, write_field_refused}
use swr.Store.DeviceList.{DeviceList, find_by_unified_address, is_enabled, enqueue_write}
use swr.Store.DeviceList.Queue.{enqueue_all}
use swr.Server.{forwarded, forward_write}
use swr.Server.Writes.{forward_write_lem}

not_taken :
    (type : RegisterType) (n value : ℕ)
    → 1 ≤ n
    → (type ≢ holding_register) ⊎ (n ≢ 1)
    → ¬ TakesType type n (value ∷ []) []
not_taken unknown_type n value h odd t = t
not_taken coil n value h odd t = omega (arith, t)
not_taken discrete_input n value h odd t = t
not_taken holding_register n value h (inl ne) t = ne refl
not_taken holding_register n value h (inr ne) t = ne (sym t)
not_taken input_register n value h odd t = t

-- A master's write of one value to a register that is not read-only and whose device is enabled
-- is answered as done and enqueued. If the register has a length of at least one and is anything
-- else than a holding register of one word, such as a coil, then `writeField` refuses the
-- enqueued request, and neither the device nor the executor changes, whatever the device is.
pub single_write_lost :
    {D S : Type 0} (d : Doubles D) (l : DeviceList D) (config : RegisterConfig D)
    (address value : ℕ) (dev : DeviceClient S) (s : S) (o : ByteOrder)
    → find_by_unified_address (pos address) l ≡ some config
    → config.read_only ≡ false
    → is_enabled config.device_id l ≡ true
    → 1 ≤ config.length
    → (config.type ≢ holding_register) ⊎ (config.length ≢ 1)
    → (forward_write d (record { start_address = address; values = value ∷ [] }) l ≡ (
      true,
      (enqueue_write config.device_id (forwarded config value) l, (pos address, value) ∷ []),
    ))
      × (let req = forwarded config value in
          (e : Error) × (write_field dev req.config req.raw_values req.coil_values
              (record { client = some s; default_byte_order = o })
            ≡ (err e, record { client = some s; default_byte_order = o })))
single_write_lost d l config address value dev s o f writable enabled long odd = (
  unfold enqueue_all in
      ground (
        arith,
        f,
        writable,
        enabled,
        forward_write_lem d (record { start_address = address; values = value ∷ [] }) l,
      ),
  write_field_refused dev config (value ∷ []) [] s o
      λ t. not_taken config.type config.length value long odd t.1,
)

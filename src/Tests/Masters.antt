-- ===== src/Tests/Masters.antt =====
-- What Modbus masters read and write.
use swr.Base.{ℕ, ◌≤◌, ◌<◌, ◌≡◌, ◌≢◌, inl, refl, arith, true, false, some, [], ◌∷◌, if◌then◌else◌}
use swr.Base.Int.{pos}
use swr.Model.{coil, holding_register, big_endian}
use swr.Comm.Io.{Error, err}
use swr.Exec.{write_field}
use swr.Store.Hash.{find}
use swr.Store.DeviceList.{
  DeviceList, enqueue_write, get_all, find_by_unified_address, search_devices, first_register,
  is_enabled,
}
use swr.Store.DeviceList.Queue.{enqueue_all}
use swr.Store.RegisterTable.{update_state}
use swr.Server.{
  DataUnit, forwarded, forward_write, read_fn, block_size, max_of_devices, max_of_registers,
}
use swr.Server.Reads.{read_fn-update_state}
use swr.Server.Writes.{any_blocked, requests, signals, forward_write_lem}
use swr.Server.Block.{found-lt-block_size}
use swr.Server.Lost.{single_write_lost}
use swr.Tests.Data.{whole, temperature, pump, station, memory}

abbrev plant : DeviceList ℕ
plant = record { devices = (pos 1, station) ∷ []; writes = [] }

abbrev unit : DataUnit
unit = record { start_address = 5; values = 20 ∷ (1 ∷ (9 ∷ (8 ∷ []))) }

forward_write_lem_example : forward_write whole unit plant ≡ (
    if any_blocked plant 5 (20 ∷ (1 ∷ (9 ∷ (8 ∷ [])))) then (false, (plant, [])) else (
      true,
      (
        enqueue_all (requests plant 5 (20 ∷ (1 ∷ (9 ∷ (8 ∷ []))))) plant,
        signals plant 5 (20 ∷ (1 ∷ (9 ∷ (8 ∷ [])))),
      ),
    ))
forward_write_lem_example = forward_write_lem whole unit plant

pump_found : find_by_unified_address (pos 6) plant ≡ some pump
unfolding find_by_unified_address search_devices first_register
pump_found = refl

station_enabled : is_enabled (pos 1) plant ≡ true
unfolding is_enabled find
station_enabled = refl

coil_ne_holding : coil ≢ holding_register
coil_ne_holding e = ground (arith, e)

single_write_lost_example :
    (forward_write whole (record { start_address = 6; values = 1 ∷ [] }) plant
      ≡ (true, (enqueue_write (pos 1) (forwarded pump 1) plant, (pos 6, 1) ∷ [])))
    × ((e : Error) × (write_field memory pump
            (1 ∷ [])
            []
            (record { client = some 0; default_byte_order = big_endian })
          ≡ (err e, record { client = some 0; default_byte_order = big_endian })))
single_write_lost_example =
    single_write_lost whole plant pump 6 1 memory 0 big_endian pump_found refl station_enabled
      (omega arith) (inl coil_ne_holding)

read_fn-update_state_example :
    (read_fn whole (update_state whole 9 temperature (20 ∷ (7 ∷ [])) [] true "" 1000 []) 5 ≡ 20)
    × (read_fn whole (update_state whole 9 temperature (20 ∷ (7 ∷ [])) [] true "" 1000 []) 6
        ≡ read_fn whole [] 6)
read_fn-update_state_example =
    read_fn-update_state whole 9 1000 5 6 temperature (20 ∷ (7 ∷ [])) [] "" [] refl (omega arith)

small_block : max_of_devices 100 (get_all plant) ≤ 65534
unfolding max_of_devices max_of_registers get_all
small_block = omega arith

found-lt-block_size_example : 6 < block_size plant
found-lt-block_size_example = found-lt-block_size plant 6 pump small_block pump_found

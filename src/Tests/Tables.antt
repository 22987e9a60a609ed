-- ===== src/Tests/Tables.antt =====
-- The register table and the device list.
use swr.Base.{ℕ, ◌≡◌, refl, true, false, List, [], ◌∷◌}
use swr.Base.Int.{ℤ, pos}
use swr.Model.{WriteRequest}
use swr.Store.DeviceList.{DeviceList, add, update, remove_device, update_status}
use swr.Store.DeviceList.Lookup.{
  Implements, view, add_view, update_view, remove_view, status_view, operations-Implements,
}
use swr.Store.RegisterTable.{state, update_state}
use swr.Store.RegisterTable.States.{out_of_range_never_set}
use swr.Tests.Data.{whole, whole_irreflexive, temperature, pump, station, status}

-- 40000 lies above the limit of 100.
out_of_range_never_set_example :
    (state whole (pos 5) (
      update_state whole 9 temperature
        (0 ∷ (40000 ∷ []))
        []
        true
        ""
        1000
        (update_state whole 8 temperature (0 ∷ (50 ∷ [])) [] true "" 1000 []))).out_of_range
    ≡ false
out_of_range_never_set_example =
    out_of_range_never_set whole 8 9 temperature (0 ∷ (50 ∷ [])) (0 ∷ (40000 ∷ [])) [] [] "" "" 1000
      1000 [] whole_irreflexive refl refl

abbrev request : WriteRequest ℕ
request = record { config = pump; raw_values = 1 ∷ []; coil_values = []; retry_count = 3 }

abbrev one_device : DeviceList ℕ
one_device = record { devices = (pos 1, station) ∷ []; writes = [] }

operations-Implements_example :
    Implements one_device (add station one_device) (add_view station (view one_device))
    × Implements one_device (update station one_device) (update_view station (view one_device))
    × Implements one_device
        (remove_device (pos 1) one_device)
        (remove_view (pos 1) (view one_device))
    × Implements one_device
        (update_status (pos 1) status one_device)
        (status_view (pos 1) status (view one_device))
operations-Implements_example = operations-Implements station (pos 1) status one_device

abbrev mixed : List (ℤ × WriteRequest ℕ)
mixed = (pos 1, request) ∷ ((pos 2, request) ∷ ((pos 1, request) ∷ []))

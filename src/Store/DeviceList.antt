-- ===== src/Store/DeviceList.antt =====
-- data_collection/store/DeviceList.cpp: the devices by id, and the queue of pending writes of each
-- device. The mutex makes every method one step.
pub mod Queue
pub mod Lookup
use swr.Base.{Bool, true, false, not, Option, none, some, List, [], ◌∷◌, ◌++◌, map, if◌then◌else◌}
use swr.Base.Int.{ℤ, is_neg, eq_ℤ}
use swr.Model.{RegisterConfig, DeviceInfo, WriteRequest, Status, Doubles, default_config}
use swr.Store.Hash.{Hash, find, insert, remove, contains}

pub record DeviceList (D : Type 0) : Type 0 where
  pub devices : Hash (DeviceInfo D)
  pub writes : Hash (List (WriteRequest D))

-- The exceptions, with the id that their text quotes.
pub data Thrown : Type 0 where
  id_not_found id_invalid id_exists : ℤ → Thrown

pub data Outcome (A : Type 0) : Type 0 where
  returned : A → Outcome A
  thrown : Thrown → Outcome A

module _ {D : Type 0} where
  reset_devices : List (DeviceInfo D) → Hash (DeviceInfo D) → Hash (DeviceInfo D)
  reset_devices [] h = h
  reset_devices (d ∷ ds) h = reset_devices ds (insert d.id d h)

  unfoldable pub reset : List (DeviceInfo D) → DeviceList D → DeviceList D
  unfolding reset_devices
  reset devices l = record { devices = reset_devices devices []; writes = [] }

  unfoldable pub update_status : ℤ → Status → DeviceList D → Outcome (DeviceList D)
  update_status id status l = elim (find id l.devices) [
    | none ↦ thrown (id_not_found id)
    | some d ↦ returned (record l { devices = insert id (record d { status = status }) l.devices })
  ]

  unfoldable pub add : DeviceInfo D → DeviceList D → Outcome (DeviceList D)
  add device l =
      if is_neg device.id
      then thrown (id_invalid device.id)
      else if contains device.id l.devices
      then thrown (id_exists device.id)
      else returned (record l { devices = insert device.id device l.devices })

  unfoldable pub update : DeviceInfo D → DeviceList D → Outcome (DeviceList D)
  update device l =
      if is_neg device.id
      then thrown (id_invalid device.id)
      else if contains device.id l.devices
      then returned (record l { devices = insert device.id device l.devices })
      else thrown (id_not_found device.id)

  -- The pending writes of the device stay.
  unfoldable pub remove_device : ℤ → DeviceList D → Outcome (DeviceList D)
  remove_device id l =
      if contains id l.devices
      then returned (record l { devices = remove id l.devices })
      else thrown (id_not_found id)

  unfoldable pub get : ℤ → DeviceList D → Outcome (DeviceInfo D)
  get id l = elim (find id l.devices) [ none ↦ thrown (id_not_found id) | some d ↦ returned d ]

  unfoldable pub get_all : DeviceList D → List (DeviceInfo D)
  get_all l = map (λ (p : ℤ × DeviceInfo D). p.1) l.devices

  -- The first register that passes the test, in the order of the devices and their registers.
  unfoldable pub first_register :
      (RegisterConfig D → Bool) → List (RegisterConfig D) → Option (RegisterConfig D)
  first_register test [] = none
  first_register test (f ∷ fs) = if test f then some f else first_register test fs

  unfoldable pub search_devices :
      (RegisterConfig D → Bool) → Hash (DeviceInfo D) → Option (RegisterConfig D)
  unfolding first_register
  search_devices test [] = none
  search_devices test ((id, device) ∷ h) = elim (first_register test device.registers) [
    | some f ↦ some f
    | none ↦ search_devices test h
  ]

  -- `found` and the value: `none` is `found = false`.
  unfoldable pub find_by_register_id : ℤ → DeviceList D → Option (RegisterConfig D)
  unfolding search_devices
  find_by_register_id id l = search_devices (λ f. eq_ℤ f.id id) l.devices

  unfoldable pub find_by_unified_address : ℤ → DeviceList D → Option (RegisterConfig D)
  unfolding search_devices
  find_by_unified_address address l = search_devices (λ f. eq_ℤ f.unified_address address) l.devices

  -- An unknown id counts as enabled.
  unfoldable pub is_enabled : ℤ → DeviceList D → Bool
  is_enabled id l = elim (find id l.devices) [ none ↦ true | some d ↦ d.enabled ]

  abbrev pub or_empty : Option (List (WriteRequest D)) → List (WriteRequest D)
  or_empty none = []
  or_empty (some q) = q

  unfoldable pub enqueue_write : ℤ → WriteRequest D → DeviceList D → DeviceList D
  enqueue_write id req l = record l {
    writes = insert id (or_empty (find id l.writes) ++ (req ∷ [])) l.writes;
  }

  unfoldable pub take_writes : ℤ → DeviceList D → List (WriteRequest D) × DeviceList D
  take_writes id l = (or_empty (find id l.writes), record l { writes = remove id l.writes })

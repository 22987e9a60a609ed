-- ===== src/Polling/Manager.antt =====
-- data_collection/polling/PollingManager.cpp: which devices are polled, and by which worker. The
-- workers themselves run in threads of their own; here they are the devices they are given.
use mathlib.Core.Path.{subst}
use swr.Base.{
  sym, ap, ◌∙◌, inl, inr, List-cases, ℕ, ◌+◌, ◌≡◌, refl, arith, Bool, true, false, not, ◌&&◌,
  Option, none, some, List, [], ◌∷◌, ◌++◌, if◌then◌else◌, All,
}
use swr.Base.Int.{ℤ, eq_ℤ}
use swr.Model.{DeviceInfo, serial, tcp}
use swr.Store.Hash.{Hash}
use swr.Store.DeviceList.{DeviceList, get_all}
use swr.Store.RegisterTable.{RegisterState, clear}

pub record PollingManager (D : Type 0) : Type 0 where
  pub running : Bool
  pub serial_worker : Option (List (DeviceInfo D))
  pub tcp_workers : List (DeviceInfo D)

module _ {D : Type 0} where
  abbrev pub is_serial : DeviceInfo D → Bool
  is_serial device = elim device.connection.type [ serial ↦ true | tcp ↦ false ]

  -- The enabled devices, serial or not.
  unfoldable pub select : Bool → List (DeviceInfo D) → List (DeviceInfo D)
  select wanted [] = []
  select wanted (device ∷ devices) =
      let rest = select wanted devices in
      if not device.enabled
      then rest
      else if is_serial device
      then (if wanted then device ∷ rest else rest)
      else if wanted
      then rest
      else device ∷ rest

  -- `start`: `false` with "Polling is already running.", or the table cleared and the workers.
  unfoldable pub start :
      DeviceList D
      → PollingManager D × Hash (RegisterState D)
      → Bool × (PollingManager D × Hash (RegisterState D))
  unfolding select
  start l (m, table) = if m.running then (false, (m, table)) else (
    true,
    (
      record m {
        running = true;
        serial_worker = elim (select true (get_all l)) [
          | [] ↦ m.serial_worker
          | ◌∷◌ device devices ↦ some (device ∷ devices)
        ];
        tcp_workers = m.tcp_workers ++ select false (get_all l);
      },
      clear table,
    ),
  )

  unfoldable pub stop : PollingManager D → PollingManager D
  stop m =
      if not m.running
      then m
      else record { running = false; serial_worker = none; tcp_workers = [] }

  abbrev pub of_id : ℤ → List (DeviceInfo D) → ℕ
  of_id id [] = 0
  of_id id (device ∷ devices) =
      let rest = of_id id devices in if eq_ℤ device.id id then rest + 1 else rest

  abbrev pub serial_devices : PollingManager D → List (DeviceInfo D)
  serial_devices m = elim m.serial_worker [ none ↦ [] | some devices ↦ devices ]

  abbrev pub idle : PollingManager D
  idle = record { running = false; serial_worker = none; tcp_workers = [] }

  abbrev pub enabled_of : ℤ → List (DeviceInfo D) → ℕ
  enabled_of id [] = 0
  enabled_of id (device ∷ devices) =
      let rest = enabled_of id devices in
      if eq_ℤ device.id id && device.enabled then rest + 1 else rest

  of_id-append :
      (id : ℤ) (xs ys : List (DeviceInfo D)) → of_id id (xs ++ ys) ≡ of_id id xs + of_id id ys
  of_id-append id [] ys = omega arith
  of_id-append id (x ∷ xs) ys = ground (arith, of_id-append id xs ys)

  of_id-select :
      (id : ℤ) (devices : List (DeviceInfo D))
      → of_id id (select true devices) + of_id id (select false devices) ≡ enabled_of id devices
  unfolding select
  of_id-select id [] = refl
  of_id-select id (device ∷ devices) = ground (arith, of_id-select id devices)

  select_kind :
      (wanted : Bool) (devices : List (DeviceInfo D))
      → All
          (λ device. (is_serial device ≡ wanted) × (device.enabled ≡ true))
          (select wanted devices)
  unfolding select
  select_kind wanted [] = tt
  select_kind wanted (device ∷ devices) = ground (arith, select_kind wanted devices)

  serial_part :
      (l : DeviceList D) (table : Hash (RegisterState D))
      → serial_devices (start l (idle, table)).1.0 ≡ select true (get_all l)
  unfolding start
  serial_part l table = elim (List-cases (select true (get_all l))) [
    | inl e ↦ rw e refl
    | inr (device, devices, e) ↦ rw e refl
  ]

  -- Polling that starts while it does not run, with no workers left: it succeeds, every enabled
  -- device of the list is polled by exactly one worker and no disabled one is, the serial devices
  -- by the serial worker and the others by TCP workers, and the register table is empty. A second
  -- start is refused and changes nothing, and a stop leaves no workers.
  pub start_polls_enabled :
      (id : ℤ) (l l' : DeviceList D) (table : Hash (RegisterState D))
      → let (started, (m, table')) = start l (idle, table) in
        (started ≡ true)
        × (of_id id (serial_devices m ++ m.tcp_workers) ≡ enabled_of id (get_all l))
        × All (λ device. (is_serial device ≡ true) × (device.enabled ≡ true)) (serial_devices m)
        × All (λ device. (is_serial device ≡ false) × (device.enabled ≡ true)) m.tcp_workers
        × (table' ≡ [])
        × (start l' (m, table') ≡ (false, (m, table')))
        × (stop m ≡ idle)
  unfolding start stop clear
  start_polls_enabled id l l' table = (
    refl,
    of_id-append id (serial_devices (start l (idle, table)).1.0) (select false (get_all l))
        ∙ (ap (λ ds. of_id id ds + of_id id (select false (get_all l))) (serial_part l table)
            ∙ of_id-select id (get_all l)),
    subst (All λ device. (is_serial device ≡ true) × (device.enabled ≡ true))
        (sym (serial_part l table)) (select_kind true (get_all l)),
    select_kind false (get_all l),
    refl,
    refl,
    refl,
  )

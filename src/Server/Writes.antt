-- ===== src/Server/Writes.antt =====
-- What a Modbus master's write does to the pending writes.
use swr.Base.{
  ℕ, ◌+◌, ◌≡◌, inl, inr, refl, arith, Bool, true, false, not, ◌||◌, List, [], ◌∷◌, if◌then◌else◌,
  none, some, Option-cases, Bool-cases,
}
use swr.Base.Int.{ℤ, pos, eq_ℤ_iff}
use swr.Model.{RegisterConfig, DeviceInfo, WriteRequest, Doubles, default_config}
use swr.Store.Hash.{Hash}
use swr.Store.DeviceList.{
  DeviceList, find_by_unified_address, search_devices, first_register, is_enabled, enqueue_write,
}
use swr.Store.DeviceList.Queue.{enqueue_all}
use swr.Server.{DataUnit, target, targets, forwarded, enqueue_targets, forward_write}

module _ {D : Type 0} where
  first_register-passes :
      (test : RegisterConfig D → Bool) (fs : List (RegisterConfig D)) (f : RegisterConfig D)
      → first_register test fs ≡ some f
      → test f ≡ true
  unfolding first_register
  first_register-passes test [] f e = absurd (ground (arith, e))
  first_register-passes test (g ∷ fs) f e = elim (Bool-cases (test g)) [
    | inl t ↦ ground (arith, t, e)
    | inr t ↦ first_register-passes test fs f (ground (arith, t, e))
  ]

  search_devices-passes :
      (test : RegisterConfig D → Bool) (h : Hash (DeviceInfo D)) (f : RegisterConfig D)
      → search_devices test h ≡ some f
      → test f ≡ true
  unfolding search_devices
  search_devices-passes test [] f e = absurd (ground (arith, e))
  search_devices-passes test ((id, device) ∷ h) f e =
      elim (Option-cases (first_register test device.registers)) [
        | inl n ↦ search_devices-passes test h f (ground (arith, n, e))
        | inr (g, s) ↦ first_register-passes test device.registers f (ground (arith, s, e))
      ]

  -- A register that is found has the address that was looked for.
  pub found_address :
      (address : ℤ) (l : DeviceList D) (f : RegisterConfig D)
      → find_by_unified_address address l ≡ some f
      → f.unified_address ≡ address
  unfolding find_by_unified_address
  found_address address l f e =
      (eq_ℤ_iff f.unified_address address).0 (search_devices-passes _ l.devices f e)

  -- A register that masters must not write: read-only, or of a disabled device.
  abbrev pub blocked : DeviceList D → ℕ → Bool
  blocked l address = elim (find_by_unified_address (pos address) l) [
    | none ↦ false
    | some config ↦ config.read_only || not (is_enabled config.device_id l)
  ]

  abbrev pub any_blocked : DeviceList D → ℕ → List ℕ → Bool
  any_blocked l address [] = false
  any_blocked l address (value ∷ values) =
      let rest = any_blocked l (address + 1) values in blocked l address || rest

  -- One request for each address that belongs to a register, in the order of the addresses.
  abbrev pub requests : DeviceList D → ℕ → List ℕ → List (ℤ × WriteRequest D)
  requests l address [] = []
  requests l address (value ∷ values) =
      let rest = requests l (address + 1) values in
      elim (find_by_unified_address (pos address) l) [
        | none ↦ rest
        | some config ↦ (config.device_id, forwarded config value) ∷ rest
      ]

  abbrev pub signals : DeviceList D → ℕ → List ℕ → List (ℤ × ℕ)
  signals l address [] = []
  signals l address (value ∷ values) =
      let rest = signals l (address + 1) values in
      elim (find_by_unified_address (pos address) l) [
        | none ↦ rest
        | some config ↦ (pos address, value) ∷ rest
      ]

  targets-blocked :
      (d : Doubles D) (l : DeviceList D) (address : ℕ) (values : List ℕ)
      → any_blocked l address values ≡ true
      → targets d l address values ≡ none
  unfolding targets target
  targets-blocked d l address [] b = absurd (ground (arith, b))
  targets-blocked d l address (value ∷ values) b =
      ground (arith, b, targets-blocked d l (address + 1) values)

  -- What the second loop is given when no address is blocked.
  abbrev targets_of : Doubles D → DeviceList D → ℕ → List ℕ → List (RegisterConfig D)
  targets_of d l address [] = []
  targets_of d l address (value ∷ values) =
      let rest = targets_of d l (address + 1) values in
      elim (find_by_unified_address (pos address) l) [
        | none ↦ default_config d ∷ rest
        | some config ↦ config ∷ rest
      ]

  targets-free :
      (d : Doubles D) (l : DeviceList D) (address : ℕ) (values : List ℕ)
      → any_blocked l address values ≡ false
      → targets d l address values ≡ some (targets_of d l address values)
  unfolding targets target
  targets-free d l address [] b = refl
  targets-free d l address (value ∷ values) b =
      ground (arith, b, targets-free d l (address + 1) values)

  -- `l` is the list that was searched and `now` the one that the loop has reached.
  enqueue_targets_lem :
      (d : Doubles D) (l now : DeviceList D) (address : ℕ) (values : List ℕ)
      → enqueue_targets (targets_of d l address values) values now
        ≡ (enqueue_all (requests l address values) now, signals l address values)
  unfolding enqueue_targets enqueue_all default_config
  enqueue_targets_lem d l now address [] = refl
  enqueue_targets_lem d l now address (value ∷ values) =
      elim (Option-cases (find_by_unified_address (pos address) l)) [
        | inl e ↦ ground (arith, e, enqueue_targets_lem d l now (address + 1) values)
        | inr (config, e) ↦ ground (
          arith,
          e,
          found_address (pos address) l config e,
          enqueue_targets_lem d l (enqueue_write config.device_id (forwarded config value) now)
              (address + 1) values,
        )
      ]

  -- A write is refused exactly if one of its addresses belongs to a register that is read-only or
  -- whose device is disabled, and then nothing is enqueued. Otherwise one request per address that
  -- belongs to a register is enqueued for the device of that register, in the order of the
  -- addresses, with one signal each; the other addresses are ignored.
  pub forward_write_lem :
      (d : Doubles D) (unit : DataUnit) (l : DeviceList D)
      → forward_write d unit l ≡ (
          if any_blocked l unit.start_address unit.values then (false, (l, [])) else (
            true,
            (
              enqueue_all (requests l unit.start_address unit.values) l,
              signals l unit.start_address unit.values,
            ),
          ))
  unfolding forward_write
  forward_write_lem d unit l = elim (Bool-cases (any_blocked l unit.start_address unit.values)) [
    | inl b ↦ ground (arith, b, targets-blocked d l unit.start_address unit.values b)
    | inr b ↦ ground (
      arith,
      b,
      targets-free d l unit.start_address unit.values b,
      enqueue_targets_lem d l l unit.start_address unit.values,
    )
  ]

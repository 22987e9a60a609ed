-- ===== src/Store/DeviceList/Lookup.antt =====
-- The device list as a map from ids to devices.
use swr.Base.{◌≡◌, refl, Option, none, some, if◌then◌else◌, Bool-cases, inl, inr, Option-cases}
use swr.Base.Int.{ℤ, eq_ℤ, is_neg}
use swr.Model.{DeviceInfo, Status}
use swr.Store.Hash.{find, contains, find-insert, find-remove}
use swr.Store.DeviceList.{
  DeviceList, id_not_found, id_invalid, id_exists, Outcome, returned, thrown, add, update,
  remove_device, update_status,
}

-- The abstract view forgets the order and the pending writes.
abbrev pub View : Type 0 → Type 0
View D = ℤ → Option (DeviceInfo D)

module _ {D : Type 0} where
  abbrev pub view : DeviceList D → View D
  view l id = find id l.devices

  abbrev pub put : ℤ → Option (DeviceInfo D) → View D → View D
  put k o m id = if eq_ℤ k id then o else m id

  -- What each operation promises.
  abbrev pub add_view : DeviceInfo D → View D → Outcome (View D)
  add_view d m = if is_neg d.id then thrown (id_invalid d.id) else elim (m d.id) [
    | none ↦ returned (put d.id (some d) m)
    | some old ↦ thrown (id_exists d.id)
  ]

  abbrev pub update_view : DeviceInfo D → View D → Outcome (View D)
  update_view d m = if is_neg d.id then thrown (id_invalid d.id) else elim (m d.id) [
    | none ↦ thrown (id_not_found d.id)
    | some old ↦ returned (put d.id (some d) m)
  ]

  abbrev pub remove_view : ℤ → View D → Outcome (View D)
  remove_view id m = elim (m id) [
    | none ↦ thrown (id_not_found id)
    | some old ↦ returned (put id none m)
  ]

  abbrev pub status_view : ℤ → Status → View D → Outcome (View D)
  status_view id status m = elim (m id) [
    | none ↦ thrown (id_not_found id)
    | some old ↦ returned (put id (some (record old { status = status })) m)
  ]

  -- The concrete outcome does what the abstract one says; the pending writes stay.
  abbrev pub Implements : DeviceList D → Outcome (DeviceList D) → Outcome (View D) → Type 0
  Implements l (returned l') (returned m) = ((id : ℤ) → view l' id ≡ m id) × (l'.writes ≡ l.writes)
  Implements l (thrown e) (thrown e') = e ≡ e'
  Implements l r m = ⊥

  add-Implements :
      (d : DeviceInfo D) (l : DeviceList D) → Implements l (add d l) (add_view d (view l))
  unfolding add contains
  add-Implements d l = elim (Bool-cases (is_neg d.id)) [
    | inl n ↦ rw n refl
    | inr n ↦ elim (Option-cases (find d.id l.devices)) [
      | inl e ↦ rw (n, e, contains, Implements) (λ id. find-insert d.id id d l.devices, refl)
      | inr (old, e) ↦ rw (n, e, contains, Implements) refl
    ]
  ]

  update-Implements :
      (d : DeviceInfo D) (l : DeviceList D) → Implements l (update d l) (update_view d (view l))
  unfolding update contains
  update-Implements d l = elim (Bool-cases (is_neg d.id)) [
    | inl n ↦ rw n refl
    | inr n ↦ elim (Option-cases (find d.id l.devices)) [
      | inl e ↦ rw (n, e, contains, Implements) refl
      | inr (old, e) ↦ rw (n, e, contains, Implements) (λ id. find-insert d.id id d l.devices, refl)
    ]
  ]

  remove-Implements :
      (id : ℤ) (l : DeviceList D) → Implements l (remove_device id l) (remove_view id (view l))
  unfolding remove_device contains
  remove-Implements id l = elim (Option-cases (find id l.devices)) [
    | inl e ↦ rw (e, contains, Implements, remove_view, status_view) refl
    | inr (old, e) ↦
        rw (e, contains, Implements, remove_view, status_view)
          (λ j. find-remove id j l.devices, refl)
  ]

  status-Implements :
      (id : ℤ) (status : Status) (l : DeviceList D)
      → Implements l (update_status id status l) (status_view id status (view l))
  unfolding update_status contains
  status-Implements id status l = elim (Option-cases (find id l.devices)) [
    | inl e ↦ rw (e, contains, Implements, remove_view, status_view) refl
    | inr (old, e) ↦
        rw (e, contains, Implements, remove_view, status_view)
          (λ j. find-insert id j (record old { status = status }) l.devices, refl)
  ]

  -- `add`, `update`, `remove` and `updateStatus` implement the operations on a map from ids to
  -- devices: they throw for the same ids and reasons, change the device with the id and no other,
  -- and keep the pending writes.
  pub operations-Implements :
      (d : DeviceInfo D) (id : ℤ) (status : Status) (l : DeviceList D)
      → Implements l (add d l) (add_view d (view l))
        × Implements l (update d l) (update_view d (view l))
        × Implements l (remove_device id l) (remove_view id (view l))
        × Implements l (update_status id status l) (status_view id status (view l))
  operations-Implements d id status l = (
    add-Implements d l,
    update-Implements d l,
    remove-Implements id l,
    status-Implements id status l,
  )

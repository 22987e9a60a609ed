-- ===== src/Store/DeviceList/Queue.antt =====
-- The pending writes of each device are a queue of their own.
use swr.Base.{
  ◌≡◌, ◌≢◌, refl, sym, ap, ◌∙◌, arith, List, [], ◌∷◌, ◌++◌, if◌then◌else◌, Bool-cases, inl, inr,
}
use mathlib.Core.List.{append_assoc, append-nil}
use swr.Base.Int.{ℤ, eq_ℤ, eq_ℤ_iff}
use swr.Model.{WriteRequest}
use swr.Store.Hash.{find, find-insert, find-remove, eq_ℤ_self}
use swr.Store.DeviceList.{DeviceList, or_empty, enqueue_write, take_writes}

module _ {D : Type 0} where
  abbrev pub pending : ℤ → DeviceList D → List (WriteRequest D)
  pending id l = or_empty (find id l.writes)

  -- The requests of one device among those of all.
  abbrev pub requests_of : ℤ → List (ℤ × WriteRequest D) → List (WriteRequest D)
  requests_of id [] = []
  requests_of id ((j, req) ∷ ps) =
      let rest = requests_of id ps in if eq_ℤ j id then req ∷ rest else rest

  unfoldable pub enqueue_all : List (ℤ × WriteRequest D) → DeviceList D → DeviceList D
  enqueue_all [] l = l
  enqueue_all ((j, req) ∷ ps) l = enqueue_all ps (enqueue_write j req l)

  pub pending-enqueue :
      (id j : ℤ) (req : WriteRequest D) (l : DeviceList D)
      → pending id (enqueue_write j req l)
        ≡ (if eq_ℤ j id then pending id l ++ (req ∷ []) else pending id l)
  unfolding enqueue_write
  pending-enqueue id j req l = elim (Bool-cases (eq_ℤ j id)) [
    | inl e ↦
        let same : j ≡ id = (eq_ℤ_iff j id).0 e in
        ground (
          arith,
          e,
          find-insert j id (pending j l ++ (req ∷ [])) l.writes,
          ap (λ k. find k l.writes) same,
        )
    | inr e ↦ ground (arith, e, find-insert j id (pending j l ++ (req ∷ [])) l.writes)
  ]

  pub pending-take :
      (id j : ℤ) (l : DeviceList D)
      → pending id (take_writes j l).1 ≡ (if eq_ℤ j id then [] else pending id l)
  unfolding take_writes
  pending-take id j l = ground (arith, find-remove j id l.writes)

  pub pending-enqueue_all :
      (id : ℤ) (ps : List (ℤ × WriteRequest D)) (l : DeviceList D)
      → pending id (enqueue_all ps l) ≡ pending id l ++ requests_of id ps
  unfolding enqueue_all
  pending-enqueue_all id [] l = sym (append-nil (pending id l))
  pending-enqueue_all id ((j, req) ∷ ps) l =
      pending-enqueue_all id ps (enqueue_write j req l) ∙ elim (Bool-cases (eq_ℤ j id)) [
        | inl e ↦ ground (
          arith,
          e,
          pending-enqueue id j req l,
          append_assoc (pending id l) (req ∷ []) (requests_of id ps),
        )
        | inr e ↦ ground (arith, e, pending-enqueue id j req l)
      ]

  pub devices-enqueue_all :
      (ps : List (ℤ × WriteRequest D)) (l : DeviceList D) → (enqueue_all ps l).devices ≡ l.devices
  unfolding enqueue_all enqueue_write
  devices-enqueue_all [] l = refl
  devices-enqueue_all ((j, req) ∷ ps) l = devices-enqueue_all ps (enqueue_write j req l)

  -- Whatever is enqueued for any devices and in any order, `takeWrites` returns what the device
  -- had and what was enqueued for it, oldest first, and leaves it nothing; any other device keeps
  -- what it had and what was enqueued for it, and the devices stay.
  pub take-enqueue_all :
      (id other : ℤ) (ps : List (ℤ × WriteRequest D)) (l : DeviceList D)
      → other ≢ id
      → ((take_writes id (enqueue_all ps l)).0 ≡ pending id l ++ requests_of id ps)
        × (pending id (take_writes id (enqueue_all ps l)).1 ≡ [])
        × (pending other (take_writes id (enqueue_all ps l)).1
            ≡ pending other l ++ requests_of other ps)
        × ((take_writes id (enqueue_all ps l)).1.devices ≡ l.devices)
  take-enqueue_all id other ps l ne = (
    (unfold take_writes in pending-enqueue_all id ps l),
    ground (arith, eq_ℤ_self id, pending-take id id (enqueue_all ps l)),
    ground (
      arith,
      eq_ℤ_iff id other,
      pending-take other id (enqueue_all ps l),
      pending-enqueue_all other ps l,
    ),
    (unfold take_writes in devices-enqueue_all ps l),
  )

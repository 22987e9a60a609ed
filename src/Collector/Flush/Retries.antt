-- ===== src/Collector/Flush/Retries.antt =====
-- How often a pending write is tried.
use swr.Base.{
  ℕ, zero, suc, ◌+◌, ◌-◌, ◌<◌, ◌≤◌, ◌≡◌, ◌≢◌, refl, sym, ap, ◌∙◌, arith, List, [], ◌∷◌, ◌++◌, ltb,
  if◌then◌else◌, Bool-cases, inl, inr, All, All-append,
}
use mathlib.Core.Path.{subst}
use swr.Base.Int.{ℤ, eq_ℤ_iff}
use swr.Model.{DeviceInfo, WriteRequest}
use swr.Comm.Io.{Result, ok, err, fault, stuck}
use swr.Comm.Client.{DeviceClient}
use swr.Exec.{Executor}
use swr.Store.Hash.{eq_ℤ_self}
use swr.Store.DeviceList.{DeviceList, take_writes, enqueue_write}
use swr.Store.DeviceList.Queue.{pending, pending-enqueue, pending-take}
use swr.Collector.{ensure_connected}
use swr.Collector.Flush.{after_write, after_connect, flush_all, flush_writes}

-- At most `n - 1` retries are left.
abbrev pub Retries : {D : Type 0} → ℕ → WriteRequest D → Type 0
Retries n req = req.retry_count < n

module _ {S D : Type 0} (dev : DeviceClient S) (device : DeviceInfo D) where
  -- What the queues and devices are when part of a flush is done: all waiting requests of the
  -- device have at most `n - 1` retries, and the rest is as it was.
  abbrev Left : ℕ → DeviceList D → DeviceList D → Type 0
  Left n l₀ l =
      All (Retries n) (pending device.id l)
      × (l.devices ≡ l₀.devices)
      × ((j : ℤ) → j ≢ device.id → pending j l ≡ pending j l₀)

  enqueue-Left :
      (n : ℕ) (req : WriteRequest D) (l₀ l : DeviceList D)
      → Retries n req
      → Left n l₀ l
      → Left n l₀ (enqueue_write device.id req l)
  enqueue-Left n req l₀ l h k = (
    subst (All (Retries n))
        (sym (
          pending-enqueue device.id device.id req l
          ∙ ap (λ b. if b then pending device.id l ++ (req ∷ []) else pending device.id l)
              (eq_ℤ_self device.id)))
        (All-append (Retries n) (pending device.id l) (req ∷ []) k.0 (h, tt)),
    (unfold enqueue_write in k.1),
    λ j ne. ground (arith, eq_ℤ_iff device.id j, pending-enqueue j device.id req l, k.2 j ne),
  )

  requeue-Left :
      (n : ℕ) (req : WriteRequest D) (l₀ l : DeviceList D)
      → Retries (suc n) req
      → Left n l₀ l
      → Left n l₀ (
          if ltb 0 req.retry_count
          then enqueue_write device.id (record req { retry_count = req.retry_count - 1 }) l
          else l)
  requeue-Left n req l₀ l h k = elim (Bool-cases (ltb 0 req.retry_count)) [
    | inl some_left ↦ rw some_left (
        enqueue-Left n (record req { retry_count = req.retry_count - 1 }) l₀ l
          (ground (arith, some_left)) k)
    | inr none_left ↦ rw none_left k
  ]

  write-Left :
      (n : ℕ) (req : WriteRequest D) (l₀ l : DeviceList D) (r : Result (Unit {0}) × Executor S)
      → Retries (suc n) req
      → Left n l₀ l
      → Left n l₀ (after_write dev device req l r).1
  unfolding after_write
  write-Left n req l₀ l (ok _, x) h k = k
  write-Left n req l₀ l (err e, x) h k = requeue-Left n req l₀ l h k
  write-Left n req l₀ l (fault, x) h k = requeue-Left n req l₀ l h k
  write-Left n req l₀ l (stuck, x) h k = requeue-Left n req l₀ l h k

  connect-Left :
      (n : ℕ) (req : WriteRequest D) (l₀ l : DeviceList D) (r : Result (Unit {0}) × Executor S)
      → Retries (suc n) req
      → Left n l₀ l
      → Left n l₀ (after_connect dev device req l r).1
  unfolding after_connect
  connect-Left n req l₀ l (ok _, x) h k = write-Left n req l₀ l _ h k
  connect-Left n req l₀ l (err e, x) h k = k
  connect-Left n req l₀ l (fault, x) h k = k
  connect-Left n req l₀ l (stuck, x) h k = k

  flush_all-Left :
      (n : ℕ) (reqs : List (WriteRequest D)) (x : Executor S) (l₀ l : DeviceList D)
      → All (Retries (suc n)) reqs
      → Left n l₀ l
      → Left n l₀ (flush_all dev device reqs (x, l)).1
  unfolding flush_all
  flush_all-Left n [] x l₀ l h k = k
  flush_all-Left n (req ∷ reqs) x l₀ l h k =
      let s = after_connect dev device req l (ensure_connected dev x) in
      flush_all-Left n reqs s.0 l₀ s.1 h.1 (connect-Left n req l₀ l (ensure_connected dev x) h.0 k)

  take-Left : (n : ℕ) (l : DeviceList D) → Left n l (take_writes device.id l).1
  take-Left n l = (
    subst (All (Retries n))
        (sym (
          pending-take device.id device.id l
          ∙ ap (λ b. if b then [] else pending device.id l) (eq_ℤ_self device.id)))
        tt,
    (unfold take_writes in refl),
    λ j ne. ground (arith, eq_ℤ_iff device.id j, pending-take j device.id l),
  )

  flush_writes-Left :
      (n : ℕ) (x : Executor S) (l : DeviceList D)
      → All (Retries (suc n)) (pending device.id l)
      → Left n l (flush_writes dev device (x, l)).1
  unfolding flush_writes take_writes
  flush_writes-Left n x l h =
      flush_all-Left n (pending device.id l) x l (take_writes device.id l).1 h (take-Left n l)

  weaken :
      (n m : ℕ) (reqs : List (WriteRequest D)) → n ≤ m → All (Retries n) reqs → All (Retries m) reqs
  weaken n m [] h k = tt
  weaken n m (req ∷ reqs) h k = (omega (arith, h, k.0), weaken n m reqs h k.1)

  some_bound : (reqs : List (WriteRequest D)) → (n : ℕ) × All (Retries (suc n)) reqs
  some_bound [] = (0, tt)
  some_bound (req ∷ reqs) =
      let (n, h) = some_bound reqs in
      (
        n + req.retry_count,
        (omega arith, weaken (suc n) (suc (n + req.retry_count)) reqs (omega arith) h),
      )

  pub flush_keeps_devices :
      (x : Executor S) (l : DeviceList D) → (flush_writes dev device (x, l)).1.devices ≡ l.devices
  flush_keeps_devices x l =
      let (n, h) = some_bound (pending device.id l) in (flush_writes-Left n x l h).1

  -- If every pending write of the device has at most `n` retries left, then after a flush each has
  -- fewer than `n`, whatever the device and the connection do; the devices and the queue of every
  -- other device are unchanged.
  pub flush_lowers :
      (n : ℕ) (x : Executor S) (l : DeviceList D) (other : ℤ)
      → All (Retries (suc n)) (pending device.id l)
      → other ≢ device.id
      → All (Retries n) (pending device.id (flush_writes dev device (x, l)).1)
        × ((flush_writes dev device (x, l)).1.devices ≡ l.devices)
        × (pending other (flush_writes dev device (x, l)).1 ≡ pending other l)
  flush_lowers n x l other h ne =
      let (own, same, others) = flush_writes-Left n x l h in (own, same, others other ne)

  -- `n` polls without a new request in between.
  abbrev pub flushes : ℕ → Executor S × DeviceList D → Executor S × DeviceList D
  flushes zero s = s
  flushes (suc n) s = flushes n (flush_writes dev device s)

  All-none : (reqs : List (WriteRequest D)) → All (Retries 0) reqs → reqs ≡ []
  All-none [] h = refl
  All-none (req ∷ reqs) h = absurd (omega (arith, h.0))

  -- When every pending write of a device has fewer than `n` retries left, nothing is pending for
  -- it after `n` flushes without a new request in between, whatever the device and the connection
  -- do.
  pub flushes_end :
      (n : ℕ) (x : Executor S) (l : DeviceList D)
      → All (Retries n) (pending device.id l)
      → pending device.id (flushes n (x, l)).1 ≡ []
  flushes_end zero x l h = All-none (pending device.id l) h
  flushes_end (suc n) x l h =
      let s = flush_writes dev device (x, l) in flushes_end n s.0 s.1 (flush_writes-Left n x l h).0

-- ===== src/Polling/Known.antt =====
-- A worker throws only for a device that left the list.
use swr.Base.{
  ℕ, ◌+◌, ◌≡◌, ◌≢◌, refl, sym, ap, ◌∙◌, Bool, true, String, none, some, List, [], ◌∷◌,
  if◌then◌else◌, inl, inr, List-cases, Bool-cases,
}
use mathlib.Core.Path.{subst}
use swr.Base.Int.{ℤ}
use swr.Model.{DeviceInfo, Doubles, RegisterConfig}
use swr.Comm.Io.{Error, Result, ok, err, fault, stuck}
use swr.Comm.Client.{DeviceClient}
use swr.Exec.{Executor}
use swr.Store.Hash.{find, find-insert, eq_ℤ_self}
use swr.Store.DeviceList.{Thrown, id_not_found, update_status}
use swr.Collector.{FieldResult, build_batches, collect_all_fields}
use swr.Collector.Flush.Retries.{flush_keeps_devices}
use swr.Polling.{
  Step, done, escaped, halted, then_step, of_result, Readings, Tracker, fresh, Shared, Progress,
  effective_interval, interval_for_quality, status_of, store_results, finish_poll, poll_device,
  tcp_turn, tcp_turns, tcp_run,
}
use swr.Polling.Alarms.{Holds, then_step-Holds, any-Holds}
use swr.Polling.Whole.{finish_poll-done, shared_after, errors_after}

-- The computation does not throw, and its value, if any, has `P`.
abbrev Safe : {A : Type 0} → (A → Type 0) → Step A → Type 0
Safe P (done a) = P a
Safe P (escaped e) = ⊥
Safe P halted = Unit {0}

then_step-Safe :
    {A B : Type 0} (P : A → Type 0) (Q : B → Type 0) (m : Step A) (f : A → Step B)
    → Safe P m
    → ((a : A) → P a → Safe Q (f a))
    → Safe Q (then_step m f)
then_step-Safe P Q (done a) f h k = k a h
then_step-Safe P Q (escaped e) f h k = absurd h
then_step-Safe P Q halted f h k = tt

of_result-Safe : {A : Type 0} (r : Result A) → Safe (λ a. Unit {0}) (of_result r)
of_result-Safe (ok a) = tt
of_result-Safe (err e) = tt
of_result-Safe fault = tt
of_result-Safe stuck = tt

module _ {D : Type 0} (d : Doubles D) (text : Error → String) where
  store_results-Safe :
      (t : Readings) (interval fi : ℕ) (configs : List (RegisterConfig D)) (rs : List FieldResult)
      (p : Progress D)
      → Safe (λ p. Unit {0}) (store_results d text t interval fi configs rs p)
  unfolding store_results
  store_results-Safe t interval fi [] rs p = tt
  store_results-Safe t interval fi (c ∷ cs) [] p = elim (Bool-cases (t.running fi)) [
    | inl e ↦ rw (e, store_results) tt
    | inr e ↦ rw (e, store_results) tt
  ]
  store_results-Safe t interval fi (c ∷ cs) (r ∷ rs) p = elim (Bool-cases (t.running fi)) [
    | inl e ↦ rw (e, store_results) (store_results-Safe t interval (fi + 1) cs rs _)
    | inr e ↦ rw (e, store_results) tt
  ]

module _ {S D : Type 0} (dev : DeviceClient S) (device : DeviceInfo D) (d : Doubles D)
    (text : Error → String) (sort : (ℕ → ℕ → Bool) → List ℕ → List ℕ) where
  abbrev pub Known : Shared D → Type 0
  Known shared = (old : DeviceInfo D) × (find device.id shared.list.devices ≡ some old)

  abbrev KnownAt : Executor S × Tracker × Shared D → Type 0
  KnownAt q = Known q.2

  still_listed :
      (shared : Shared D) (p : Progress D) (w : Tracker) (t : Readings) (effective : ℤ)
      (old : DeviceInfo D)
      → Known (shared_after device t effective w shared p old)
  still_listed shared p w t effective old =
      let new = record old {
        status =
            status_of t effective (errors_after device t effective w p.all_ok) p.all_ok
              p.last_error;
      } in
      (
        new,
        find-insert device.id device.id new shared.list.devices
            ∙ ap (λ b. if b then some new else find device.id shared.list.devices)
                (eq_ℤ_self device.id),
      )

  finish_poll-Safe :
      (t : Readings) (effective : ℤ) (w : Tracker) (shared : Shared D) (p : Progress D)
      → Known shared
      → Safe (λ q. Known q.1) (finish_poll device t effective w shared p)
  finish_poll-Safe t effective w shared p (old, e) =
      subst (Safe λ q. Known q.1) (sym (finish_poll-done device t effective w shared p old e))
        (still_listed shared p w t effective old)

  poll_device-Safe :
      (t : Readings) (q : Executor S × Tracker × Shared D)
      → KnownAt q
      → Safe KnownAt (poll_device dev device d text sort t q)
  unfolding poll_device
  poll_device-Safe t (x, w, shared) h =
      let effective = effective_interval t.poll_start w.prev_poll_ms in
      let read = (collect_all_fields dev device (build_batches device.registers sort) x).0 in
      then_step-Safe (λ rs. Unit {0}) KnownAt (of_result read) _ (of_result-Safe read)
        λ rs u.
          let interval =
            interval_for_quality device.polling.poll_mode effective device.polling.interval_ms in
          let start : Progress D = record {
            table = shared.table;
            all_ok = true;
            last_error = "";
          } in
          then_step-Safe (λ p. Unit {0}) KnownAt
            (store_results d text t interval 0 device.registers rs start) _
            (store_results-Safe d text t interval 0 device.registers rs start)
            λ p v.
              then_step-Safe (λ q. Known q.1) KnownAt (finish_poll device t effective w shared p) _
                (finish_poll-Safe t effective w shared p h) λ q k. k

  tcp_turn-Safe :
      (t : Readings) (q : Executor S × Tracker × Shared D)
      → KnownAt q
      → Safe KnownAt (tcp_turn dev device d text sort t q)
  unfolding tcp_turn
  tcp_turn-Safe t q h =
      then_step-Safe KnownAt KnownAt (poll_device dev device d text sort t q) _
        (poll_device-Safe t q h)
        λ (x, w, shared) (old, e).
          (old, ap (find device.id) (flush_keeps_devices dev device x shared.list) ∙ e)

  tcp_turns-Safe :
      (ts : List Readings) (q : Executor S × Tracker × Shared D)
      → KnownAt q
      → Safe KnownAt (tcp_turns dev device d text sort ts q)
  unfolding tcp_turns
  tcp_turns-Safe [] q h = h
  tcp_turns-Safe (t ∷ ts) q h =
      then_step-Safe KnownAt KnownAt (tcp_turn dev device d text sort t q)
        (tcp_turns dev device d text sort ts) (tcp_turn-Safe t q h) (tcp_turns-Safe ts)

  tcp_run-Safe :
      (ts : List Readings) (x : Executor S) (shared : Shared D)
      → Known shared
      → Safe KnownAt (tcp_run dev device d text sort ts (x, shared))
  unfolding tcp_run
  tcp_run-Safe ts x shared h = elim (List-cases device.registers) [
    | inl e ↦ rw (e, tcp_run) h
    | inr (config, configs, e) ↦ rw (e, tcp_run) (tcp_turns-Safe ts (x, fresh, shared) h)
  ]

  finish_poll_unknown :
      (t : Readings) (effective : ℤ) (w : Tracker) (shared : Shared D) (p : Progress D)
      → find device.id shared.list.devices ≡ none
      → finish_poll device t effective w shared p ≡ escaped (id_not_found device.id)
  unfolding finish_poll update_status
  finish_poll_unknown t effective w shared p e = rw (e, finish_poll, update_status) refl

  poll_unknown-Holds :
      (t : Readings) (x : Executor S) (w : Tracker) (shared : Shared D)
      → find device.id shared.list.devices ≡ none
      → Holds (λ q. ⊥) (poll_device dev device d text sort t (x, w, shared))
  unfolding poll_device
  poll_unknown-Holds t x w shared e =
      let effective = effective_interval t.poll_start w.prev_poll_ms in
      let read =
        of_result (collect_all_fields dev device (build_batches device.registers sort) x).0 in
      then_step-Holds (λ rs. Unit {0}) (λ q. ⊥) read _ (any-Holds read)
        λ rs u.
          let interval =
            interval_for_quality device.polling.poll_mode effective device.polling.interval_ms in
          let start : Progress D = record {
            table = shared.table;
            all_ok = true;
            last_error = "";
          } in
          let stored = store_results d text t interval 0 device.registers rs start in
          then_step-Holds (λ p. Unit {0}) (λ q. ⊥) stored _ (any-Holds stored)
            λ p v. rw (finish_poll_unknown t effective w shared p e) tt

  -- As long as the device list knows the device when it starts, a TCP worker's thread throws
  -- nothing, however many turns it makes and whatever the device answers, since no poll and no
  -- flush removes a device. No poll of a device that the list does not know completes.
  pub tcp_run_throws_only_unknown :
      (ts : List Readings) (x : Executor S) (shared unknown : Shared D) (e : Thrown) (t : Readings)
      (w : Tracker) (q : Executor S × Tracker × Shared D)
      → Known shared
      → find device.id unknown.list.devices ≡ none
      → (tcp_run dev device d text sort ts (x, shared) ≢ escaped e)
        × (poll_device dev device d text sort t (x, w, unknown) ≢ done q)
  tcp_run_throws_only_unknown ts x shared unknown e t w q h none_known = (
    λ thrown. subst (Safe KnownAt) thrown (tcp_run-Safe ts x shared h),
    λ finished. subst (Holds λ q. ⊥) finished (poll_unknown-Holds t x w unknown none_known),
  )

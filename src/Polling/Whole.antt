-- ===== src/Polling/Whole.antt =====
-- A whole poll of a device whose values do not change: what it leaves in the register table, the
-- device list and the worker.
use mathlib.Core.Path.{subst}
use mathlib.Core.Option.{some-injective}
use swr.Base.{
  zero, suc, ℕ, ◌+◌, ◌≡◌, refl, ap, arith, Bool, true, false, some, List, [], ◌∷◌, ◌++◌, String,
  if◌then◌else◌, length, get_elem?, All,
}
use swr.Base.Int.{ℤ, eq_ℤ}
use swr.Model.{ByteOrder, RegisterConfig, DeviceInfo, Doubles}
use swr.Comm.Io.{Error, ok}
use swr.Comm.Client.{DeviceClient}
use swr.Exec.{Executor, read_field}
use swr.Store.Hash.{find, insert, find-insert}
use swr.Store.DeviceList.{update_status}
use swr.Store.RegisterTable.{state}
use swr.Store.RegisterTable.States.{entry_of}
use swr.Collector.{FieldResult, before, build_batches, collect_all_fields}
use swr.Collector.Coverage.{count}
use swr.Collector.Transparent.{Memory, of_read}
use swr.Collector.Poll.{AnswersRegister, AnswersBatch, one_by_one, poll_as_alone}
use swr.Polling.{
  done, Readings, Tracker, Shared, Progress, effective_interval, interval_for_quality, next_state,
  transition, text_of, store_results, status_of, finish_poll, poll_device,
}
use swr.Polling.Stored.{Addressed, StoredAs, all_good, store_results-Stores}

module _ {D : Type 0} (device : DeviceInfo D) (t : Readings) (effective : ℤ) where
  abbrev pub errors_after : Tracker → Bool → ℕ
  errors_after w all_ok = if all_ok then 0 else w.consecutive_errors + 1

  abbrev pub tracker_after : Tracker → Bool → Tracker
  tracker_after w all_ok = record w {
    prev_poll_ms = t.poll_start;
    consecutive_errors = errors_after w all_ok;
    prev_state = next_state all_ok;
  }

  abbrev pub shared_after : Tracker → Shared D → Progress D → DeviceInfo D → Shared D
  shared_after w shared p old = record shared {
    table = p.table;
    list = record shared.list {
      devices =
          insert device.id
            (record old {
              status = status_of t effective (errors_after w p.all_ok) p.all_ok p.last_error;
            })
            shared.list.devices;
    };
    log = shared.log ++ transition device.name p.last_error w.prev_state (next_state p.all_ok);
  }

  pub finish_poll-done :
      (w : Tracker) (shared : Shared D) (p : Progress D) (old : DeviceInfo D)
      → find device.id shared.list.devices ≡ some old
      → finish_poll device t effective w shared p
        ≡ done (tracker_after w p.all_ok, shared_after w shared p old)
  unfolding finish_poll update_status status_of
  finish_poll-done w shared p old e = rw (e, finish_poll, update_status) refl

module _ {S D : Type 0} (dev : DeviceClient S) (device : DeviceInfo D) (P : S → Type 0)
    (word : ℕ → ℕ) (bit : ℕ → Bool) (words_at bits_at : ℕ → ℕ → Type 0)
    (mem : Memory dev P word bit words_at bits_at) (o : ByteOrder) (d : Doubles D)
    (text : Error → String) (sort : (ℕ → ℕ → Bool) → List ℕ → List ℕ) where
  abbrev here : S → Executor S
  here s = record { client = some s; default_byte_order = o }

  get_elem?-one_by_one :
      (s : S) (configs : List (RegisterConfig D)) (i : ℕ) (config : RegisterConfig D)
      → get_elem? configs i ≡ some config
      → get_elem? (one_by_one dev device P word bit words_at bits_at mem o s configs) i
        ≡ some (of_read (read_field dev config (here s)).0)
  get_elem?-one_by_one s [] i config e = absurd (ground (arith, e))
  get_elem?-one_by_one s (c ∷ cs) zero config e =
      ap (λ q. some (of_read (read_field dev q (here s)).0)) (some-injective c config e)
  get_elem?-one_by_one s (c ∷ cs) (suc i) config e = get_elem?-one_by_one s cs i config e

  length-one_by_one :
      (s : S) (configs : List (RegisterConfig D))
      → length (one_by_one dev device P word bit words_at bits_at mem o s configs) ≡ length configs
  length-one_by_one s [] = refl
  length-one_by_one s (c ∷ cs) = ap suc (length-one_by_one s cs)

  abbrev pub interval_of : Readings → Tracker → ℕ
  interval_of t w =
      interval_for_quality device.polling.poll_mode (effective_interval t.poll_start w.prev_poll_ms)
        device.polling.interval_ms

  poll_device-done :
      (t : Readings) (s s' : S) (w : Tracker) (shared : Shared D) (rs : List FieldResult)
      (p : Progress D) (old : DeviceInfo D)
      → collect_all_fields dev device (build_batches device.registers sort) (here s)
        ≡ (ok rs, here s')
      → store_results d text t
          (interval_of t w)
          0
          device.registers
          rs
          (record { table = shared.table; all_ok = true; last_error = "" })
        ≡ done p
      → find device.id shared.list.devices ≡ some old
      → let effective = effective_interval t.poll_start w.prev_poll_ms in
        poll_device dev device d text sort t (here s, w, shared)
        ≡ done (
          here s',
          tracker_after device t effective w p.all_ok,
          shared_after device t effective w shared p old,
        )
  unfolding poll_device
  poll_device-done t s s' w shared rs p old ec es ef =
      rw (ec, poll_device)
        (rw (es, poll_device)
          (rw
            (finish_poll-done device t (effective_interval t.poll_start w.prev_poll_ms) w shared p
              old ef)
            refl))

  -- The result of a read of one register alone.
  abbrev pub alone_result : S → RegisterConfig D → FieldResult
  alone_result s config = of_read (read_field dev config (here s)).0

  -- A poll of a connected device whose values do not change while it is polled, which answers the read of
  -- every batch and of every single register, whose registers have unified addresses, each its own,
  -- which the device list knows, and that is not stopped: it completes, every register's entry in the
  -- table is the old one updated with what a read of this register alone gives, at the clock's reading
  -- for this register; the entries of all other addresses stay; the device list keeps the pending
  -- writes and all other devices, and of this device everything but the status, whose time is that
  -- of the start of the poll and whose state and error count say whether every register was read: the
  -- count is 0 if so, one more than before otherwise.
  pub poll_stores_each_alone :
      (t : Readings) (s : S) (w : Tracker) (shared : Shared D) (old : DeviceInfo D) (i : ℕ)
      (config : RegisterConfig D) (k id : ℤ)
      → ((xs : List ℕ) (j : ℕ) → count j (sort (before device.registers) xs) ≡ count j xs)
      → P s
      → All (AnswersRegister dev device P word bit words_at bits_at mem o) device.registers
      → All
          (AnswersBatch dev device P word bit words_at bits_at mem o)
          (build_batches device.registers sort)
      → ((j : ℕ) → t.running j ≡ true)
      → Addressed device.registers
      → find device.id shared.list.devices ≡ some old
      → get_elem? device.registers i ≡ some config
      → All (λ other. eq_ℤ other.unified_address k ≡ false) device.registers
      → let r = alone_result s config in
        let good =
          all_good (one_by_one dev device P word bit words_at bits_at mem o s device.registers) in
        (s' : S) × (w' : Tracker) × (shared' : Shared D) × (new : DeviceInfo D) × (poll_device dev
            device d text sort t
            (here s, w, shared)
          ≡ done (here s', w', shared'))
        × (state d config.unified_address shared'.table
            ≡ entry_of d
                (t.clock i)
                config
                r.register_values
                r.coil_values
                r.is_ok
                (text_of text r.error)
                (interval_of t w)
                (state d config.unified_address shared.table))
        × (state d k shared'.table ≡ state d k shared.table)
        × (find id shared'.list.devices
            ≡ (if eq_ℤ device.id id then some new else find id shared.list.devices))
        × (shared'.list.writes ≡ shared.list.writes)
        × (record new { status = old.status } ≡ old)
        × (new.status.last_poll_timestamp ≡ t.poll_start)
        × (new.status.state ≡ next_state good)
        × (new.status.consecutive_errors ≡ (if good then 0 else w.consecutive_errors + 1))
  unfolding status_of
  poll_stores_each_alone t s w shared old i config k id keeps p each batches run a e ei avoids =
      let start : Progress D = record { table = shared.table; all_ok = true; last_error = "" } in
      let rs = one_by_one dev device P word bit words_at bits_at mem o s device.registers in
      let (s', ec) =
        poll_as_alone dev device P word bit words_at bits_at mem o sort s keeps p each batches in
      let (q, es, (good, others, own)) =
        store_results-Stores d text t (interval_of t w) 0 device.registers rs start run
          (length-one_by_one s device.registers) a in
      let effective = effective_interval t.poll_start w.prev_poll_ms in
      let shared' = shared_after device t effective w shared q old in
      let new = record old {
        status =
            status_of t effective (errors_after device t effective w q.all_ok) q.all_ok
              q.last_error;
      } in
      (
        s',
        tracker_after device t effective w q.all_ok,
        shared',
        new,
        poll_device-done t s s' w shared rs q old ec es e,
        let here_eq : 0 + i ≡ i = omega arith in
            subst
              (λ j. StoredAs d text t (interval_of t w) j config (alone_result s config) start q)
              here_eq
              (own i config (alone_result s config) ei
                (get_elem?-one_by_one s device.registers i config ei)),
        others k avoids,
        find-insert device.id id new shared.list.devices,
        refl,
        refl,
        refl,
        ap next_state good,
        ap (λ b. if b then 0 else w.consecutive_errors + 1) good,
      )

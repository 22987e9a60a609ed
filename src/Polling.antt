-- ===== src/Polling.antt =====
-- data_collection/polling/TcpWorker.cpp, and what SerialWorker.cpp does in the same way: one poll of
-- a device, from the read of its registers to the alarm log. A reading of the clock and of
-- `m_running` is an argument; the sleeps, the console messages and the threads are left out.
pub mod Serial
pub mod Manager
pub mod Stored
pub mod Alarms
pub mod Tracked
pub mod Outcomes
pub mod Whole
pub mod Known
pub mod Untouched
use swr.Base.{
  ℕ, zero, suc, ◌+◌, ◌-◌, ◌%◌, ◌^◌, Bool, true, false, ◌&&◌, String, Option, none, some, List, [],
  ◌∷◌, ◌++◌, if◌then◌else◌,
}
use swr.Base.Int.{ℤ, pos, negsuc}
use swr.Model.{
  RegisterConfig, DeviceInfo, DeviceState, unknown_state, ok_state, error_state, Status, PollMode,
  auto, manual, Doubles,
}
use swr.Comm.Io.{Error, Result, ok, err, fault, stuck}
use swr.Comm.Client.{DeviceClient}
use swr.Exec.{Executor}
use swr.Store.Hash.{Hash}
use swr.Store.DeviceList.{DeviceList, Thrown, returned, thrown, update_status}
use swr.Store.RegisterTable.{RegisterState, signed_of, update_state}
use swr.Collector.{FieldResult, build_batches, collect_all_fields}
use swr.Collector.Flush.{flush_writes}

-- `halted` is no way on: an index out of range, on which Qt aborts, or a loop of the model without
-- fuel. An exception leaves the thread.
pub data Step (A : Type 0) : Type 0 where
  done : A → Step A
  escaped : Thrown → Step A
  halted : Step A

abbrev pub then_step : {A B : Type 0} → Step A → (A → Step B) → Step B
then_step (done a) f = f a
then_step (escaped e) f = escaped e
then_step halted f = halted

abbrev pub of_result : {A : Type 0} → Result A → Step A
of_result (ok a) = done a
of_result (err e) = halted
of_result fault = halted
of_result stuck = halted

-- The clock at the start and the end of a poll and at the update of each register, and `m_running`
-- before each register.
pub record Readings : Type 0 where
  pub poll_start : ℕ
  pub poll_end : ℕ
  pub clock : ℕ → ℕ
  pub running : ℕ → Bool

-- What a worker remembers of a device; `last_poll_ms` is of the serial worker only.
pub record Tracker : Type 0 where
  pub last_poll_ms : ℕ
  pub prev_poll_ms : ℕ
  pub consecutive_errors : ℕ
  pub prev_state : DeviceState

abbrev pub fresh : Tracker
fresh = record {
  last_poll_ms = 0;
  prev_poll_ms = 0;
  consecutive_errors = 0;
  prev_state = unknown_state;
}

pub data LogLine : Type 0 where
  unreachable : String → String → LogLine
  restored : String → LogLine

-- What the workers share: the register table, the device list, the log.
pub record Shared (D : Type 0) : Type 0 where
  pub table : Hash (RegisterState D)
  pub list : DeviceList D
  pub log : List LogLine

-- The locals of the loop over the results, with the table it updates.
pub record Progress (D : Type 0) : Type 0 where
  pub table : Hash (RegisterState D)
  pub all_ok : Bool
  pub last_error : String

-- `static_cast<int>` of a difference of two `qint64`.
unfoldable pub elapsed : ℕ → ℕ → ℤ
elapsed now since = signed_of 32 ((now + 2 ^ 32 - since % 2 ^ 32) % 2 ^ 32)

unfoldable pub effective_interval : ℕ → ℕ → ℤ
unfolding elapsed
effective_interval now zero = pos 0
effective_interval now (suc since) = elapsed now (suc since)

unfoldable pub interval_for_quality : PollMode → ℤ → ℕ → ℕ
interval_for_quality auto (pos (suc n)) interval = suc n
interval_for_quality auto effective interval = interval
interval_for_quality manual effective interval = interval

unfoldable pub next_state : Bool → DeviceState
next_state true = ok_state
next_state false = error_state

-- The log lines of a change of the state.
unfoldable pub transition : String → String → DeviceState → DeviceState → List LogLine
transition name last_error error_state error_state = []
transition name last_error prev error_state = unreachable name last_error ∷ []
transition name last_error error_state ok_state = restored name ∷ []
transition name last_error prev ok_state = []
transition name last_error prev unknown_state = []

unfoldable pub text_of : (Error → String) → Option Error → String
text_of text none = ""
text_of text (some e) = text e

module _ {D : Type 0} (d : Doubles D) (text : Error → String) where
  unfoldable pub store_result : ℕ → ℕ → RegisterConfig D → FieldResult → Progress D → Progress D
  unfolding text_of
  store_result now interval config r p = record {
    table =
        update_state d now config r.register_values r.coil_values r.is_ok (text_of text r.error)
          interval p.table;
    all_ok = p.all_ok && r.is_ok;
    last_error = if r.is_ok then p.last_error else text_of text r.error;
  }

  -- The results from the register `fi` on; `results.at(fi)` past the end aborts.
  unfoldable pub store_results :
      Readings → ℕ → ℕ → List (RegisterConfig D) → List FieldResult → Progress D → Step (Progress D)
  unfolding store_result
  store_results t interval fi [] rs p = done p
  store_results t interval fi (config ∷ configs) [] p = if t.running fi then halted else done p
  store_results t interval fi (config ∷ configs) (r ∷ rs) p =
      let rest =
        store_results t interval (fi + 1) configs rs
          (store_result (t.clock fi) interval config r p) in
      if t.running fi then rest else done p

unfoldable pub status_of : Readings → ℤ → ℕ → Bool → String → Status
unfolding elapsed next_state
status_of t effective errors all_ok last_error = record {
  state = next_state all_ok;
  last_poll_timestamp = t.poll_start;
  last_poll_duration_ms = elapsed t.poll_end t.poll_start;
  effective_interval_ms = effective;
  consecutive_errors = errors;
  last_error = if all_ok then "" else last_error;
}

-- The status goes into the device list, a change of the state into the log.
unfoldable pub finish_poll :
    {D : Type 0}
    → DeviceInfo D
    → Readings
    → ℤ
    → Tracker
    → Shared D
    → Progress D
    → Step (Tracker × Shared D)
unfolding status_of transition
finish_poll device t effective w shared p =
    let errors = if p.all_ok then 0 else w.consecutive_errors + 1 in
    let status = status_of t effective errors p.all_ok p.last_error in
    elim (update_status device.id status shared.list) [
      | thrown e ↦ escaped e
      | returned l ↦ done (
        record w {
          prev_poll_ms = t.poll_start;
          consecutive_errors = errors;
          prev_state = status.state;
        },
        record shared {
          table = p.table;
          list = l;
          log = shared.log ++ transition device.name p.last_error w.prev_state status.state;
        },
      )
    ]

module _ {S D : Type 0} (dev : DeviceClient S) (device : DeviceInfo D) (d : Doubles D)
    (text : Error → String) (sort : (ℕ → ℕ → Bool) → List ℕ → List ℕ) where
  unfoldable pub poll_device :
      Readings → Executor S × Tracker × Shared D → Step (Executor S × Tracker × Shared D)
  unfolding interval_for_quality effective_interval store_results finish_poll
  poll_device t (x, w, shared) =
      let effective = effective_interval t.poll_start w.prev_poll_ms in
      let interval =
        interval_for_quality device.polling.poll_mode effective device.polling.interval_ms in
      let (r, x') = collect_all_fields dev device (build_batches device.registers sort) x in
      then_step (of_result r) λ results.
        then_step
          (store_results d text t interval 0 device.registers results
            (record { table = shared.table; all_ok = true; last_error = "" }))
          λ p. then_step (finish_poll device t effective w shared p) λ q. done (x', q.0, q.1)

  -- One turn of `while (m_running)` of a TCP worker: the poll, then the pending writes.
  unfoldable pub tcp_turn :
      Readings → Executor S × Tracker × Shared D → Step (Executor S × Tracker × Shared D)
  unfolding poll_device
  tcp_turn t start = then_step (poll_device t start) λ (x, w, shared).
      let (x', l) = flush_writes dev device (x, shared.list) in
      done (x', w, record shared { list = l })

  unfoldable pub tcp_turns :
      List Readings → Executor S × Tracker × Shared D → Step (Executor S × Tracker × Shared D)
  unfolding tcp_turn
  tcp_turns [] q = done q
  tcp_turns (t ∷ ts) q = then_step (tcp_turn t q) (tcp_turns ts)

  -- `TcpWorker::run`, one reading for each turn until `m_running` is false.
  unfoldable pub tcp_run :
      List Readings → Executor S × Shared D → Step (Executor S × Tracker × Shared D)
  unfolding tcp_turns
  tcp_run ts (x, shared) = elim device.registers [
    | [] ↦ done (x, fresh, shared)
    | ◌∷◌ config configs ↦ tcp_turns ts (x, fresh, shared)
  ]

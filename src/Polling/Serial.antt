-- ===== src/Polling/Serial.antt =====
-- data_collection/polling/SerialWorker.cpp: all the serial devices in one thread, in turn. The
-- clients share the bus: `S` is the state of the bus and of all of them.
use swr.Base.{ℕ, ◌+◌, String, Bool, true, false, not, none, some, List, [], ◌∷◌, ltb, if◌then◌else◌}
use swr.Model.{DeviceInfo, auto, manual, Doubles}
use swr.Comm.Io.{Error}
use swr.Comm.Client.{DeviceClient}
use swr.Exec.{Executor}
use swr.Collector.Flush.{flush_writes}
use swr.Polling.{Step, done, then_step, Readings, Tracker, fresh, Shared, poll_device}

-- A device of the worker; `has_client` is false where `createDeviceClient` returned null.
pub record Slot (D : Type 0) : Type 0 where
  pub device : DeviceInfo D
  pub has_client : Bool
  pub tracker : Tracker

-- The two readings of `m_running` around the tests of one device, then those of its poll.
pub record Turn : Type 0 where
  pub runs : Bool
  pub still_runs : Bool
  pub readings : Readings

abbrev pub slot_of : {D : Type 0} → DeviceInfo D → Bool → Slot D
slot_of device has_client = record { device = device; has_client = has_client; tracker = fresh }

-- The executor of a slot, and the state of the clients after its use.
abbrev pub slot_executor : {S D : Type 0} → Slot D → S → Executor S
slot_executor slot s = record {
  client = if slot.has_client then some s else none;
  default_byte_order = slot.device.connection.default_byte_order;
}

abbrev pub clients_of : {S : Type 0} → S → Executor S → S
clients_of s x = elim x.client [ none ↦ s | some s' ↦ s' ]

unfoldable pub is_empty : {A : Type 0} → List A → Bool
is_empty [] = true
is_empty (x ∷ xs) = false

-- A manual device waits until its interval has passed.
unfoldable pub is_due : {D : Type 0} → ℕ → Slot D → Bool
is_due now slot = elim slot.device.polling.poll_mode [
  | auto ↦ true
  | manual ↦ not (ltb now (slot.tracker.last_poll_ms + slot.device.polling.interval_ms))
]

-- The poll times that are set before `m_running` is read again.
abbrev pub mark_polled : ℕ → Tracker → Tracker
mark_polled now w = record w { last_poll_ms = now }

module _ {S D : Type 0} (dev : DeviceInfo D → DeviceClient S) (d : Doubles D)
    (text : Error → String) (sort : (ℕ → ℕ → Bool) → List ℕ → List ℕ) where
  -- One device of the `for` loop, `m_running` true at its head: the pending writes, then the poll
  -- if it is due.
  unfoldable pub serial_device : ℕ → Turn → Slot D × S × Shared D → Step (Slot D × S × Shared D)
  unfolding is_empty is_due poll_device
  serial_device now turn (slot, s, shared) =
      let t = turn.readings in
      let (x, l) = flush_writes (dev slot.device) slot.device (slot_executor slot s, shared.list) in
      let flushed = record shared { list = l } in
      let w = mark_polled t.poll_start slot.tracker in
      if is_empty slot.device.registers
      then done (slot, clients_of s x, flushed)
      else if not (is_due now slot)
      then done (slot, clients_of s x, flushed)
      else if not turn.still_runs
      then done (
        record slot { tracker = record w { prev_poll_ms = t.poll_start } },
        clients_of s x,
        flushed,
      )
      else then_step (poll_device (dev slot.device) slot.device d text sort t (x, w, flushed))
          λ (x', w', shared'). done (record slot { tracker = w' }, clients_of s x', shared')

  -- The `for` loop of a round that began at `now`; a missing turn is `m_running` false.
  unfoldable pub serial_round :
      ℕ → List Turn → List (Slot D) × S × Shared D → Step (List (Slot D) × S × Shared D)
  unfolding serial_device
  serial_round now turns ([], s, shared) = done ([], s, shared)
  serial_round now [] (slots, s, shared) = done (slots, s, shared)
  serial_round now (turn ∷ turns) (slot ∷ slots, s, shared) =
      if not turn.runs
      then done (slot ∷ slots, s, shared)
      else then_step (serial_device now turn (slot, s, shared)) λ (slot', s', shared').
        then_step (serial_round now turns (slots, s', shared'))
          λ (slots', s'', shared''). done (slot' ∷ slots', s'', shared'')

  unfoldable pub serial_rounds :
      List (ℕ × List Turn) → List (Slot D) × S × Shared D → Step (List (Slot D) × S × Shared D)
  unfolding serial_round
  serial_rounds [] q = done q
  serial_rounds ((now, turns) ∷ rounds) q =
      then_step (serial_round now turns q) (serial_rounds rounds)

-- ===== src/Polling/Untouched.antt =====
-- The entries of the register table that the serial worker leaves alone.
use mathlib.Core.Path.{subst}
use swr.Base.{
  ℕ, ◌+◌, ◌≡◌, refl, ◌∙◌, arith, Bool, true, false, String, List, [], ◌∷◌, if◌then◌else◌, inl, inr,
  Bool-cases, All,
}
use swr.Base.Int.{ℤ, eq_ℤ}
use swr.Model.{RegisterConfig, DeviceInfo, Doubles}
use swr.Comm.Io.{Error}
use swr.Comm.Client.{DeviceClient}
use swr.Exec.{Executor}
use swr.Store.RegisterTable.{RegisterState, state}
use swr.Store.RegisterTable.States.{update_others}
use swr.Store.DeviceList.{update_status}
use swr.Collector.{FieldResult, build_batches, collect_all_fields}
use swr.Collector.Flush.{flush_writes}
use swr.Polling.{
  done, of_result, Readings, Tracker, Shared, Progress, effective_interval, interval_for_quality,
  text_of, store_result, store_results, status_of, finish_poll, poll_device,
}
use swr.Polling.Serial.{
  Slot, Turn, slot_executor, is_empty, is_due, mark_polled, serial_device, serial_round,
  serial_rounds,
}
use swr.Polling.Alarms.{Holds, then_step-Holds, any-Holds, Outcome-cases}

-- None of the registers has the address.
abbrev pub Avoids : {D : Type 0} → ℤ → List (RegisterConfig D) → Type 0
Avoids k = All λ config. eq_ℤ config.unified_address k ≡ false

abbrev SlotAvoids : {D : Type 0} → ℤ → Slot D → Type 0
SlotAvoids k slot = Avoids k slot.device.registers

module _ {D : Type 0} (d : Doubles D) (text : Error → String) (k : ℤ) (v : RegisterState D) where
  one-keeps :
      (now interval : ℕ) (config : RegisterConfig D) (r : FieldResult) (p : Progress D)
      → eq_ℤ config.unified_address k ≡ false
      → state d k p.table ≡ v
      → state d k (store_result d text now interval config r p).table ≡ v
  unfolding store_result
  one-keeps now interval config r p h e =
      update_others d now config r.register_values r.coil_values r.is_ok (text_of text r.error)
        interval p.table k (ground (arith, h))
      ∙ e

  store_results-keeps :
      (t : Readings) (interval fi : ℕ) (configs : List (RegisterConfig D)) (rs : List FieldResult)
      (p : Progress D)
      → Avoids k configs
      → state d k p.table ≡ v
      → Holds (λ p'. state d k p'.table ≡ v) (store_results d text t interval fi configs rs p)
  unfolding store_results
  store_results-keeps t interval fi [] rs p h e = e
  store_results-keeps t interval fi (c ∷ cs) [] p h e = elim (Bool-cases (t.running fi)) [
    | inl b ↦ rw (b, store_results) tt
    | inr b ↦ rw (b, store_results) e
  ]
  store_results-keeps t interval fi (c ∷ cs) (r ∷ rs) p h e = elim (Bool-cases (t.running fi)) [
    | inl b ↦
        let rest =
          store_results-keeps t interval (fi + 1) cs rs
            (store_result d text (t.clock fi) interval c r p) h.1
            (one-keeps (t.clock fi) interval c r p h.0 e) in
        rw (b, store_results) rest
    | inr b ↦ rw (b, store_results) e
  ]

  finish_poll-keeps :
      (device : DeviceInfo D) (t : Readings) (effective : ℤ) (w : Tracker) (shared : Shared D)
      (p : Progress D)
      → state d k p.table ≡ v
      → Holds (λ q. state d k q.1.table ≡ v) (finish_poll device t effective w shared p)
  unfolding finish_poll
  finish_poll-keeps device t effective w shared p e =
      elim (Outcome-cases (
        update_status device.id
          (status_of t effective (if p.all_ok then 0 else w.consecutive_errors + 1) p.all_ok
            p.last_error)
          shared.list)) [
            | inl (l, es) ↦ rw (es, finish_poll) e
            | inr (x, es) ↦ rw (es, finish_poll) tt
          ]

module _ {S D : Type 0} (d : Doubles D) (text : Error → String)
    (sort : (ℕ → ℕ → Bool) → List ℕ → List ℕ) (k : ℤ) (v : RegisterState D) where
  poll_device-keeps :
      (dev : DeviceClient S) (device : DeviceInfo D) (t : Readings) (x : Executor S) (w : Tracker)
      (shared : Shared D)
      → Avoids k device.registers
      → state d k shared.table ≡ v
      → Holds (λ q. state d k q.2.table ≡ v) (poll_device dev device d text sort t (x, w, shared))
  unfolding poll_device
  poll_device-keeps dev device t x w shared h e =
      let effective = effective_interval t.poll_start w.prev_poll_ms in
      let read =
        of_result (collect_all_fields dev device (build_batches device.registers sort) x).0 in
      then_step-Holds (λ rs. Unit {0}) (λ q. state d k q.2.table ≡ v) read _ (any-Holds read)
        λ rs u.
          let interval =
            interval_for_quality device.polling.poll_mode effective device.polling.interval_ms in
          let start : Progress D = record {
            table = shared.table;
            all_ok = true;
            last_error = "";
          } in
          then_step-Holds (λ p. state d k p.table ≡ v) (λ q. state d k q.2.table ≡ v)
            (store_results d text t interval 0 device.registers rs start) _
            (store_results-keeps d text k v t interval 0 device.registers rs start h e)
            λ p v'.
              then_step-Holds (λ q. state d k q.1.table ≡ v) (λ q. state d k q.2.table ≡ v)
                (finish_poll device t effective w shared p) _
                (finish_poll-keeps d text k v device t effective w shared p v') λ q z. z

module _ {S D : Type 0} (dev : DeviceInfo D → DeviceClient S) (d : Doubles D)
    (text : Error → String) (sort : (ℕ → ℕ → Bool) → List ℕ → List ℕ) (k : ℤ)
    (v : RegisterState D) where
  abbrev KeptOne : Slot D × S × Shared D → Type 0
  KeptOne q = SlotAvoids k q.0 × (state d k q.2.table ≡ v)

  abbrev pub Kept : List (Slot D) × S × Shared D → Type 0
  Kept q = All (SlotAvoids k) q.0 × (state d k q.2.table ≡ v)

  serial_device-keeps :
      (now : ℕ) (turn : Turn) (slot : Slot D) (s : S) (shared : Shared D)
      → SlotAvoids k slot
      → state d k shared.table ≡ v
      → Holds KeptOne (serial_device dev d text sort now turn (slot, s, shared))
  unfolding serial_device
  serial_device-keeps now turn slot s shared h e =
      let client = dev slot.device in
      let (x, l) = flush_writes client slot.device (slot_executor slot s, shared.list) in
      let flushed = record shared { list = l } in
      let w = mark_polled turn.readings.poll_start slot.tracker in
      elim (Bool-cases (is_empty slot.device.registers)) [
        | inl b ↦ rw (b, serial_device) (h, e)
        | inr b ↦ elim (Bool-cases (is_due now slot)) [
          | inr due ↦ rw (b, due, serial_device) (h, e)
          | inl due ↦ elim (Bool-cases turn.still_runs) [
            | inr runs ↦ rw (b, due, runs, serial_device) (h, e)
            | inl runs ↦
                rw (b, due, runs, serial_device)
                  (then_step-Holds (λ q. state d k q.2.table ≡ v) KeptOne
                    (poll_device client slot.device d text sort turn.readings (x, w, flushed)) _
                    (poll_device-keeps d text sort k v client slot.device turn.readings x w flushed
                      h e)
                    λ q z. (h, z))
          ]
        ]
      ]

  serial_round-keeps :
      (now : ℕ) (turns : List Turn) (slots : List (Slot D)) (s : S) (shared : Shared D)
      → All (SlotAvoids k) slots
      → state d k shared.table ≡ v
      → Holds Kept (serial_round dev d text sort now turns (slots, s, shared))
  unfolding serial_round
  serial_round-keeps now turns [] s shared h e = (tt, e)
  serial_round-keeps now [] (slot ∷ slots) s shared h e = (h, e)
  serial_round-keeps now (turn ∷ turns) (slot ∷ slots) s shared h e = elim (Bool-cases turn.runs) [
    | inr runs ↦ rw (runs, serial_round) (h, e)
    | inl runs ↦
        rw (runs, serial_round)
          (then_step-Holds KeptOne Kept (serial_device dev d text sort now turn (slot, s, shared)) _
            (serial_device-keeps now turn slot s shared h.0 e)
            λ (slot', s', shared') (own, e').
              then_step-Holds Kept Kept
                (serial_round dev d text sort now turns (slots, s', shared')) _
                (serial_round-keeps now turns slots s' shared' h.1 e') λ q z. ((own, z.0), z.1))
  ]

  serial_rounds-keeps :
      (rounds : List (ℕ × List Turn)) (q : List (Slot D) × S × Shared D)
      → Kept q
      → Holds Kept (serial_rounds dev d text sort rounds q)
  unfolding serial_rounds
  serial_rounds-keeps [] q h = h
  serial_rounds-keeps ((now, turns) ∷ rounds) (slots, s, shared) h =
      then_step-Holds Kept Kept (serial_round dev d text sort now turns (slots, s, shared))
        (serial_rounds dev d text sort rounds) (serial_round-keeps now turns slots s shared h.0 h.1)
        (serial_rounds-keeps rounds)

-- After any number of rounds of the serial worker, whatever the devices answered and wherever it
-- was stopped, the register table has what it had at every address that none of its devices'
-- registers has.
pub serial_rounds_untouched :
    {S D : Type 0} (dev : DeviceInfo D → DeviceClient S) (d : Doubles D) (text : Error → String)
    (sort : (ℕ → ℕ → Bool) → List ℕ → List ℕ) (k : ℤ) (rounds : List (ℕ × List Turn))
    (slots slots' : List (Slot D)) (s s' : S) (shared shared' : Shared D)
    → All (λ slot. Avoids k slot.device.registers) slots
    → serial_rounds dev d text sort rounds (slots, s, shared) ≡ done (slots', s', shared')
    → state d k shared'.table ≡ state d k shared.table
serial_rounds_untouched dev d text sort k rounds slots slots' s s' shared shared' h e =
    let kept =
      serial_rounds-keeps dev d text sort k (state d k shared.table) rounds (slots, s, shared)
        (h, refl) in
    (subst (Holds (Kept dev d text sort k (state d k shared.table))) e kept).1

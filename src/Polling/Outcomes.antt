-- ===== src/Polling/Outcomes.antt =====
-- The polls of a TCP worker that succeed and that fail, beside its alarm log and its count of errors.
use mathlib.Core.Path.{subst}
use swr.Base.{
  ℕ, ◌+◌, ◌≡◌, refl, ap, ◌∙◌, String, Bool, true, false, some, List, [], ◌∷◌, ◌++◌, if◌then◌else◌,
}
use swr.Base.Int.{ℤ}
use swr.Model.{RegisterConfig, DeviceInfo, Doubles}
use swr.Comm.Io.{Error, Result, ok, err, fault, stuck}
use swr.Comm.Client.{DeviceClient}
use swr.Exec.{Executor}
use swr.Collector.{FieldResult, build_batches, collect_all_fields}
use swr.Polling.{
  Step, done, escaped, halted, then_step, of_result, Readings, Tracker, fresh, LogLine, Shared,
  Progress, effective_interval, interval_for_quality, store_results, finish_poll, poll_device,
  tcp_turn, tcp_turns, tcp_run,
}
use swr.Polling.Stored.{all_good}
use swr.Polling.Alarms.{is_error, replay, Holds, then_step-Holds, Sound, tcp_run-Sound}
use swr.Polling.Tracked.{
  seen, failed_last, failures, Tracks, Tracked, store_results-all_ok, finish_poll-Tracks,
}

module _ {S D : Type 0} (dev : DeviceClient S) (device : DeviceInfo D) (d : Doubles D)
    (text : Error → String) (sort : (ℕ → ℕ → Bool) → List ℕ → List ℕ) where
  abbrev At : Type 0
  At = Executor S × Tracker × Shared D

  -- Whether all the results that the worker looks at are good.
  abbrev pub is_good : Readings → Result (List FieldResult) → Bool
  is_good t (ok rs) = all_good (seen t 0 device.registers rs)
  is_good t (err e) = false
  is_good t fault = false
  is_good t stuck = false

  abbrev pub poll_succeeds : Readings → Executor S → Bool
  poll_succeeds t x =
      is_good t (collect_all_fields dev device (build_batches device.registers sort) x).0

  -- The polls of the turns from a state on.
  unfoldable pub outcomes : List Readings → Executor S × Tracker × Shared D → List Bool
  outcomes [] q = []
  outcomes (t ∷ ts) q = poll_succeeds t q.0 ∷ elim (tcp_turn dev device d text sort t q) [
    | done q2 ↦ outcomes ts q2
    | escaped e ↦ []
    | halted ↦ []
  ]

  -- The polls of a run: a worker without registers ends at once.
  abbrev pub run_outcomes : List Readings → Executor S → Shared D → List Bool
  run_outcomes ts x shared = elim device.registers [
    | [] ↦ []
    | ◌∷◌ config configs ↦ outcomes ts (x, fresh, shared)
  ]

  read-Tracks :
      (t : Readings) (effective : ℤ) (interval : ℕ) (x : Executor S) (w : Tracker)
      (shared : Shared D) (r : Result (List FieldResult))
      → Holds
          (λ (q : At). Tracks (is_good t r) w q.1)
          (then_step (of_result r) (λ results.
            then_step
              (store_results d text t interval 0 device.registers results
                (record { table = shared.table; all_ok = true; last_error = "" }))
              (λ p.
                then_step (finish_poll device t effective w shared p) (λ q. done (x, q.0, q.1)))))
  read-Tracks t effective interval x w shared (err e) = tt
  read-Tracks t effective interval x w shared fault = tt
  read-Tracks t effective interval x w shared stuck = tt
  read-Tracks t effective interval x w shared (ok rs) =
      let good = all_good (seen t 0 device.registers rs) in
      let start : Progress D = record { table = shared.table; all_ok = true; last_error = "" } in
      then_step-Holds (λ (p : Progress D). p.all_ok ≡ good) (λ (q : At). Tracks good w q.1)
        (store_results d text t interval 0 device.registers rs start) _
        (store_results-all_ok device d text t interval 0 device.registers rs start)
        (λ p e.
          then_step-Holds (λ q. Tracks good w q.0) (λ (q : At). Tracks good w q.1)
            (finish_poll device t effective w shared p) _
            (finish_poll-Tracks device d text t effective w shared p good e) (λ q k. k))

  tcp_turn-Tracks :
      (t : Readings) (q : At)
      → Holds
          (λ (q2 : At). Tracks (poll_succeeds t q.0) q.1 q2.1)
          (tcp_turn dev device d text sort t q)
  unfolding tcp_turn poll_device
  tcp_turn-Tracks t (x, w, shared) =
      let effective = effective_interval t.poll_start w.prev_poll_ms in
      let (r, x2) = collect_all_fields dev device (build_batches device.registers sort) x in
      then_step-Holds (λ (q2 : At). Tracks (is_good t r) w q2.1)
        (λ (q2 : At). Tracks (is_good t r) w q2.1)
        (poll_device dev device d text sort t (x, w, shared)) _
        (read-Tracks t effective
          (interval_for_quality device.polling.poll_mode effective device.polling.interval_ms) x2 w
          shared r)
        (λ q k. k)

  after_turn :
      (ts : List Readings) (good : Bool) (w : Tracker) (m : Step At)
      → Holds (λ (q : At). Tracks good w q.1) m
      → ((q : At)
          → Holds
              (λ (q2 : At).
                Tracked (is_error q.1.prev_state) q.1.consecutive_errors (outcomes ts q) q2.1)
              (tcp_turns dev device d text sort ts q))
      → Holds
          (λ (q : At).
            Tracked
              (is_error w.prev_state)
              w.consecutive_errors
              (good ∷ elim m [ done q2 ↦ outcomes ts q2 | escaped e ↦ [] | halted ↦ [] ])
              q.1)
          (then_step m (tcp_turns dev device d text sort ts))
  after_turn ts good w (done q) (e, n) k =
      subst
        (λ b.
          Holds
            (λ (q2 : At).
              Tracked b (if good then 0 else w.consecutive_errors + 1) (outcomes ts q) q2.1)
            (tcp_turns dev device d text sort ts q))
        e
        (subst
          (λ c.
            Holds (λ (q2 : At). Tracked (is_error q.1.prev_state) c (outcomes ts q) q2.1)
              (tcp_turns dev device d text sort ts q))
          n (k q))
  after_turn ts good w (escaped e) h k = tt
  after_turn ts good w halted h k = tt

  tcp_turns-Tracked :
      (ts : List Readings) (q : At)
      → Holds
          (λ (q2 : At).
            Tracked (is_error q.1.prev_state) q.1.consecutive_errors (outcomes ts q) q2.1)
          (tcp_turns dev device d text sort ts q)
  unfolding tcp_turns outcomes
  tcp_turns-Tracked [] q = (refl, refl)
  tcp_turns-Tracked (t ∷ ts) q =
      after_turn ts (poll_succeeds t q.0) q.1 (tcp_turn dev device d text sort t q)
        (tcp_turn-Tracks t q) (tcp_turns-Tracked ts)

  either_run :
      (ts : List Readings) (q : At) (configs : List (RegisterConfig D))
      → Tracked false 0 [] q.1
      → Holds
          (λ (q2 : At). Tracked false 0 (outcomes ts q) q2.1)
          (tcp_turns dev device d text sort ts q)
      → Holds
          (λ (q2 : At). Tracked false 0 (elim configs [ [] ↦ [] | ◌∷◌ c cs ↦ outcomes ts q ]) q2.1)
          (elim configs [ [] ↦ done q | ◌∷◌ c cs ↦ tcp_turns dev device d text sort ts q ])
  either_run ts q [] h k = h
  either_run ts q (c ∷ cs) h k = k

  tcp_run-Tracked :
      (ts : List Readings) (x : Executor S) (shared : Shared D)
      → Holds
          (λ (q : At). Tracked false 0 (run_outcomes ts x shared) q.1)
          (tcp_run dev device d text sort ts (x, shared))
  unfolding tcp_run
  tcp_run-Tracked ts x shared =
      either_run ts (x, fresh, shared) device.registers (refl, refl)
        (tcp_turns-Tracked ts (x, fresh, shared))

  -- Where a TCP worker's thread stands after any number of turns, whatever the device answered and
  -- wherever `m_running` turned false in between: what it wrote to the log are alarms and recoveries in
  -- turn, beginning with an alarm; the last one is an alarm exactly if the last poll failed, which means
  -- that one of the results that the worker looked at was not good; and the count of errors is the
  -- number of the polls that failed since the last good one.
  pub tcp_run_alarms :
      (ts : List Readings) (x x2 : Executor S) (w : Tracker) (shared shared2 : Shared D)
      → tcp_run dev device d text sort ts (x, shared) ≡ done (x2, w, shared2)
      → let polls = run_outcomes ts x shared in
        (lines : List LogLine) × (shared2.log ≡ shared.log ++ lines)
        × (replay false lines ≡ some (failed_last false polls))
        × (w.consecutive_errors ≡ failures 0 polls)
  tcp_run_alarms ts x x2 w shared shared2 e =
      let (lines, l, r, c) : Sound shared.log w shared2 =
        subst (Holds (λ (q : At). Sound shared.log q.1 q.2)) e
          (tcp_run-Sound dev device d text sort shared.log ts x shared refl) in
      let (last, count) : Tracked false 0 (run_outcomes ts x shared) w =
        subst (Holds (λ (q : At). Tracked false 0 (run_outcomes ts x shared) q.1)) e
          (tcp_run-Tracked ts x shared) in
      (lines, l, r ∙ ap some last, count)

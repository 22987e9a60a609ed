-- ===== src/Polling/Alarms.antt =====
-- The alarm log of a worker, its error count, and the exception of an unknown device.
use mathlib.Core.Option.{some-injective}
use mathlib.Core.List.{append_assoc, append-nil}
use swr.Base.{
  ℕ, ◌+◌, List-cases, ◌≤◌, ◌≡◌, refl, sym, ap, ◌∙◌, arith, Bool, true, false, String, Option, none,
  some, List, [], ◌∷◌, ◌++◌, if◌then◌else◌, inl, inr, ◌⊎◌,
}
use swr.Base.Int.{ℤ}
use swr.Model.{DeviceInfo, DeviceState, unknown_state, ok_state, error_state, Doubles}
use swr.Comm.Io.{Error}
use swr.Comm.Client.{DeviceClient}
use swr.Exec.{Executor}
use swr.Store.DeviceList.{Outcome, Thrown, returned, thrown, update_status}
use swr.Polling.{
  Step, done, escaped, halted, then_step, of_result, Readings, Tracker, fresh, LogLine, unreachable,
  restored, Shared, Progress, next_state, transition, status_of, effective_interval,
  interval_for_quality, store_results, finish_poll, poll_device, tcp_turn, tcp_turns, tcp_run,
}
use swr.Collector.{build_batches, collect_all_fields}
use swr.Polling.Whole.{tracker_after}

abbrev pub is_error : DeviceState → Bool
is_error error_state = true
is_error unknown_state = false
is_error ok_state = false

-- Whether the device is down after the lines, if every line is a change.
abbrev pub replay : Bool → List LogLine → Option Bool
replay down [] = some down
replay false (unreachable name e ∷ ls) = replay true ls
replay true (restored name ∷ ls) = replay false ls
replay true (unreachable name e ∷ ls) = none
replay false (restored name ∷ ls) = none

-- The count of failed polls is positive exactly in the error state.
abbrev pub Counts : Tracker → Type 0
Counts w = elim w.prev_state [
  | unknown_state ↦ w.consecutive_errors ≡ 0
  | ok_state ↦ w.consecutive_errors ≡ 0
  | error_state ↦ 1 ≤ w.consecutive_errors
]

replay-append :
    (down down' : Bool) (xs ys : List LogLine)
    → replay down xs ≡ some down'
    → replay down (xs ++ ys) ≡ replay down' ys
replay-append down down' [] ys e = ap (λ b. replay b ys) (some-injective down down' e)
replay-append false down' (unreachable name m ∷ xs) ys e = replay-append true down' xs ys e
replay-append true down' (restored name ∷ xs) ys e = replay-append false down' xs ys e
replay-append true down' (unreachable name m ∷ xs) ys e = absurd (ground (arith, e))
replay-append false down' (restored name ∷ xs) ys e = absurd (ground (arith, e))

replay-transition :
    (name message : String) (prev : DeviceState) (all_ok : Bool)
    → replay (is_error prev) (transition name message prev (next_state all_ok))
      ≡ some (is_error (next_state all_ok))
unfolding transition next_state
replay-transition name message unknown_state true = refl
replay-transition name message unknown_state false = refl
replay-transition name message ok_state true = refl
replay-transition name message ok_state false = refl
replay-transition name message error_state true = refl
replay-transition name message error_state false = refl

-- The value that the computation returns, if it does, has `P`.
abbrev pub Holds : {A : Type 0} → (A → Type 0) → Step A → Type 0
Holds P (done a) = P a
Holds P (escaped e) = Unit {0}
Holds P halted = Unit {0}

pub then_step-Holds :
    {A B : Type 0} (P : A → Type 0) (Q : B → Type 0) (m : Step A) (f : A → Step B)
    → Holds P m
    → ((a : A) → P a → Holds Q (f a))
    → Holds Q (then_step m f)
then_step-Holds P Q (done a) f h k = k a h
then_step-Holds P Q (escaped e) f h k = tt
then_step-Holds P Q halted f h k = tt

pub any-Holds : {A : Type 0} (m : Step A) → Holds (λ a. Unit {0}) m
any-Holds (done a) = tt
any-Holds (escaped e) = tt
any-Holds halted = tt

pub Outcome-cases :
    {A : Type 0} (r : Outcome A) → ((a : A) × (r ≡ returned a)) ⊎ ((e : Thrown) × (r ≡ thrown e))
Outcome-cases (returned a) = inl (a, refl)
Outcome-cases (thrown e) = inr (e, refl)

tally_next :
    (all_ok : Bool) (n : ℕ) (w : Tracker)
    → w.prev_state ≡ next_state all_ok
    → w.consecutive_errors ≡ (if all_ok then 0 else n + 1)
    → Counts w
unfolding next_state
tally_next true n w e c = rw e c
tally_next false n w e c = rw e (omega (arith, c))

module _ {D : Type 0} (log : List LogLine) where
  -- What the worker wrote since the log was `log`.
  abbrev pub Sound : Tracker → Shared D → Type 0
  Sound w shared =
      (lines : List LogLine) × (shared.log ≡ log ++ lines)
      × (replay false lines ≡ some (is_error w.prev_state))
      × Counts w

  finish_poll-Sound :
      (device : DeviceInfo D) (t : Readings) (effective : ℤ) (w : Tracker) (shared : Shared D)
      (p : Progress D)
      → Sound w shared
      → Holds (λ q. Sound q.0 q.1) (finish_poll device t effective w shared p)
  unfolding finish_poll status_of
  finish_poll-Sound device t effective w shared p (lines, e, r, c) =
      elim (Outcome-cases (
        update_status device.id
          (status_of t effective (if p.all_ok then 0 else w.consecutive_errors + 1) p.all_ok
            p.last_error)
          shared.list)) [
            | inl (l, es) ↦
                let new = transition device.name p.last_error w.prev_state (next_state p.all_ok) in
                rw (es, finish_poll)
                  (
                    lines ++ new,
                    ap (λ ls. ls ++ new) e ∙ append_assoc log lines new,
                    replay-append false (is_error w.prev_state) lines new r
                        ∙ replay-transition device.name p.last_error w.prev_state p.all_ok,
                    tally_next p.all_ok w.consecutive_errors
                        (tracker_after device t effective w p.all_ok) refl refl,
                  )
            | inr (x, es) ↦ rw (es, finish_poll) tt
          ]

module _ {S D : Type 0} (dev : DeviceClient S) (device : DeviceInfo D) (d : Doubles D)
    (text : Error → String) (sort : (ℕ → ℕ → Bool) → List ℕ → List ℕ) (log : List LogLine) where
  abbrev pub SoundAt : Executor S × Tracker × Shared D → Type 0
  SoundAt q = Sound log q.1 q.2

  poll_device-Sound :
      (t : Readings) (q : Executor S × Tracker × Shared D)
      → SoundAt q
      → Holds SoundAt (poll_device dev device d text sort t q)
  unfolding poll_device
  poll_device-Sound t (x, w, shared) h =
      let effective = effective_interval t.poll_start w.prev_poll_ms in
      let read =
        of_result (collect_all_fields dev device (build_batches device.registers sort) x).0 in
      then_step-Holds (λ rs. Unit {0}) SoundAt read _ (any-Holds read)
        λ rs u.
          let stored =
            store_results d text t
              (interval_for_quality device.polling.poll_mode effective device.polling.interval_ms) 0
              device.registers rs
              (record { table = shared.table; all_ok = true; last_error = "" }) in
          then_step-Holds (λ p. Unit {0}) SoundAt stored _ (any-Holds stored)
            λ p v.
              then_step-Holds (λ q. Sound log q.0 q.1) SoundAt
                (finish_poll device t effective w shared p) _
                (finish_poll-Sound log device t effective w shared p h) λ q k. k

  tcp_turn-Sound :
      (t : Readings) (q : Executor S × Tracker × Shared D)
      → SoundAt q
      → Holds SoundAt (tcp_turn dev device d text sort t q)
  unfolding tcp_turn
  tcp_turn-Sound t q h =
      then_step-Holds SoundAt SoundAt (poll_device dev device d text sort t q) _
        (poll_device-Sound t q h) λ a k. k

  tcp_turns-Sound :
      (ts : List Readings) (q : Executor S × Tracker × Shared D)
      → SoundAt q
      → Holds SoundAt (tcp_turns dev device d text sort ts q)
  unfolding tcp_turns
  tcp_turns-Sound [] q h = h
  tcp_turns-Sound (t ∷ ts) q h =
      then_step-Holds SoundAt SoundAt (tcp_turn dev device d text sort t q)
        (tcp_turns dev device d text sort ts) (tcp_turn-Sound t q h) (tcp_turns-Sound ts)

  pub tcp_run-Sound :
      (ts : List Readings) (x : Executor S) (shared : Shared D)
      → shared.log ≡ log
      → Holds SoundAt (tcp_run dev device d text sort ts (x, shared))
  unfolding tcp_run
  tcp_run-Sound ts x shared el =
      let start : Sound log fresh shared = ([], el ∙ sym (append-nil log), refl, refl) in
      elim (List-cases device.registers) [
        | inl e ↦ rw (e, tcp_run) start
        | inr (config, configs, e) ↦ rw (e, tcp_run) (tcp_turns-Sound ts (x, fresh, shared) start)
      ]

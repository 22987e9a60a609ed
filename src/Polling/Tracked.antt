-- ===== src/Polling/Tracked.antt =====
-- What the results of one poll leave in the tracker of a worker.
use mathlib.Core.Path.{subst}
use swr.Base.{
  ℕ, ◌+◌, ◌≡◌, refl, sym, arith, String, Bool, Bool-cases, true, false, not, ◌&&◌, List, [], ◌∷◌,
  if◌then◌else◌, inl, inr,
}
use swr.Base.Int.{ℤ}
use swr.Model.{RegisterConfig, DeviceInfo, Doubles}
use swr.Comm.Io.{Error}
use swr.Store.DeviceList.{update_status}
use swr.Collector.{FieldResult}
use swr.Polling.{
  Readings, Tracker, Shared, Progress, next_state, status_of, store_result, store_results,
  finish_poll,
}
use swr.Polling.Stored.{all_good}
use swr.Polling.Alarms.{is_error, Holds, Outcome-cases}

-- The results that a worker looks at: those before `m_running` is false.
abbrev pub seen :
    {D : Type 0} → Readings → ℕ → List (RegisterConfig D) → List FieldResult → List FieldResult
seen t fi [] rs = []
seen t fi (c ∷ cs) [] = []
seen t fi (c ∷ cs) (r ∷ rs) =
    let rest = seen t (fi + 1) cs rs in if t.running fi then r ∷ rest else []

-- Whether the last of some polls failed, and how many failed since the last one that did not.
abbrev pub failed_last : Bool → List Bool → Bool
failed_last failed [] = failed
failed_last failed (good ∷ polls) = failed_last (not good) polls

abbrev pub failures : ℕ → List Bool → ℕ
failures n [] = n
failures n (good ∷ polls) = failures (if good then 0 else n + 1) polls

-- What a poll leaves in the tracker.
abbrev pub Tracks : Bool → Tracker → Tracker → Type 0
Tracks good w w2 =
    (is_error w2.prev_state ≡ not good)
    × (w2.consecutive_errors ≡ (if good then 0 else w.consecutive_errors + 1))

-- What polls leave in the tracker, from what was there before.
abbrev pub Tracked : Bool → ℕ → List Bool → Tracker → Type 0
Tracked failed n polls w =
    (is_error w.prev_state ≡ failed_last failed polls) × (w.consecutive_errors ≡ failures n polls)

state_of_poll : (good : Bool) → is_error (next_state good) ≡ not good
unfolding next_state
state_of_poll true = refl
state_of_poll false = refl

and_assoc : (a b c : Bool) → ((a && b) && c) ≡ (a && (b && c))
and_assoc true b c = refl
and_assoc false b c = refl

module _ {D : Type 0} (device : DeviceInfo D) (d : Doubles D) (text : Error → String)
    (t : Readings) where
  pub store_results-all_ok :
      (interval fi : ℕ) (configs : List (RegisterConfig D)) (rs : List FieldResult) (p : Progress D)
      → Holds
          (λ q. q.all_ok ≡ (p.all_ok && all_good (seen t fi configs rs)))
          (store_results d text t interval fi configs rs p)
  unfolding store_results store_result
  store_results-all_ok interval fi [] rs p = ground arith
  store_results-all_ok interval fi (c ∷ cs) [] p = elim (Bool-cases (t.running fi)) [
    | inl on ↦ rw (on, store_results) tt
    | inr off ↦ rw (off, store_results) (ground arith)
  ]
  store_results-all_ok interval fi (c ∷ cs) (r ∷ rs) p = elim (Bool-cases (t.running fi)) [
    | inl on ↦
        rw (on, store_results)
          (subst
            (λ b.
              Holds (λ q. q.all_ok ≡ b)
                (store_results d text t interval (fi + 1) cs rs
                  (store_result d text (t.clock fi) interval c r p)))
            (and_assoc p.all_ok r.is_ok (all_good (seen t (fi + 1) cs rs)))
            (store_results-all_ok interval (fi + 1) cs rs
              (store_result d text (t.clock fi) interval c r p)))
    | inr off ↦ rw (off, store_results) (ground arith)
  ]

  pub finish_poll-Tracks :
      (effective : ℤ) (w : Tracker) (shared : Shared D) (p : Progress D) (good : Bool)
      → p.all_ok ≡ good
      → Holds (λ q. Tracks good w q.0) (finish_poll device t effective w shared p)
  unfolding finish_poll status_of
  finish_poll-Tracks effective w shared p good e =
      elim (Outcome-cases (
        update_status device.id
          (status_of t effective (if p.all_ok then 0 else w.consecutive_errors + 1) p.all_ok
            p.last_error)
          shared.list)) [
            | inl (l, es) ↦ rw (es, finish_poll) (rw (sym e) (state_of_poll p.all_ok, refl))
            | inr (x, es) ↦ rw (es, finish_poll) tt
          ]

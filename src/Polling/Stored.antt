-- ===== src/Polling/Stored.antt =====
-- What the loop over the results of a poll leaves in the register table.
use mathlib.Core.Path.{subst}
use mathlib.Core.Option.{some-injective}
use swr.Base.{
  ℕ, zero, suc, ◌+◌, ◌≡◌, refl, ap, ◌∙◌, arith, Bool, true, false, ◌&&◌, String, some, List, [],
  ◌∷◌, length, get_elem?, All,
}
use swr.Base.Int.{ℤ, is_neg, eq_ℤ}
use swr.Model.{RegisterConfig, Doubles}
use swr.Comm.Io.{Error}
use swr.Store.RegisterTable.{state}
use swr.Store.RegisterTable.States.{entry_of, update_own, update_others}
use swr.Collector.{FieldResult}
use swr.Collector.Poll.{at_index}
use swr.Polling.{done, Readings, Progress, text_of, store_result, store_results}

abbrev pub all_good : List FieldResult → Bool
all_good [] = true
all_good (r ∷ rs) = r.is_ok && all_good rs

module _ {D : Type 0} where
  -- Every register has a unified address, and no two the same.
  abbrev pub Addressed : List (RegisterConfig D) → Type 0
  Addressed [] = Unit {0}
  Addressed (config ∷ configs) =
      (is_neg config.unified_address ≡ false)
      × All (λ other. eq_ℤ config.unified_address other.unified_address ≡ false) configs
      × All (λ other. eq_ℤ other.unified_address config.unified_address ≡ false) configs
      × Addressed configs

module _ {D : Type 0} (d : Doubles D) (text : Error → String) (t : Readings) (interval : ℕ) where
  -- What a register's entry becomes.
  abbrev pub StoredAs : ℕ → RegisterConfig D → FieldResult → Progress D → Progress D → Type 0
  StoredAs i config r before after =
      state d config.unified_address after.table
      ≡ entry_of d (t.clock i) config r.register_values r.coil_values r.is_ok (text_of text r.error)
          interval (state d config.unified_address before.table)

  abbrev pub Stores :
      ℕ → List (RegisterConfig D) → List FieldResult → Progress D → Progress D → Type 0
  Stores fi configs rs before after =
      (after.all_ok ≡ (before.all_ok && all_good rs))
      × ((k : ℤ)
          → All (λ config. eq_ℤ config.unified_address k ≡ false) configs
          → state d k after.table ≡ state d k before.table)
      × ((i : ℕ) (config : RegisterConfig D) (r : FieldResult)
          → get_elem? configs i ≡ some config
          → get_elem? rs i ≡ some r
          → StoredAs (fi + i) config r before after)

  one_other :
      (fi : ℕ) (config : RegisterConfig D) (r : FieldResult) (p : Progress D) (k : ℤ)
      → eq_ℤ config.unified_address k ≡ false
      → state d k (store_result d text (t.clock fi) interval config r p).table ≡ state d k p.table
  unfolding store_result
  one_other fi config r p k h =
      update_others d (t.clock fi) config r.register_values r.coil_values r.is_ok
        (text_of text r.error) interval p.table k (ground (arith, h))

  all_ok-store_result :
      (fi : ℕ) (config : RegisterConfig D) (r : FieldResult) (p : Progress D)
      → (store_result d text (t.clock fi) interval config r p).all_ok ≡ (p.all_ok && r.is_ok)
  unfolding store_result
  all_ok-store_result fi config r p = refl

  one_own :
      (fi : ℕ) (config : RegisterConfig D) (r : FieldResult) (p : Progress D)
      → is_neg config.unified_address ≡ false
      → StoredAs fi config r p (store_result d text (t.clock fi) interval config r p)
  unfolding store_result
  one_own fi config r p h =
      update_own d (t.clock fi) config r.register_values r.coil_values r.is_ok
        (text_of text r.error) interval p.table h

  own_here :
      (fi : ℕ) (c config : RegisterConfig D) (cs : List (RegisterConfig D)) (r r' : FieldResult)
      (p p' : Progress D)
      → is_neg c.unified_address ≡ false
      → state d c.unified_address p'.table
        ≡ state d c.unified_address (store_result d text (t.clock fi) interval c r p).table
      → c ≡ config
      → r ≡ r'
      → StoredAs (fi + 0) config r' p p'
  own_here fi c config cs r r' p p' h keeps ec er =
      let here : fi + 0 ≡ fi = omega arith in
      subst (λ q. StoredAs (fi + 0) q r' p p') ec
        (subst (λ q. StoredAs (fi + 0) c q p p') er (rw here (keeps ∙ one_own fi c r p h)))

  own_later :
      (fi i : ℕ) (c config : RegisterConfig D) (r r' : FieldResult) (p p' : Progress D)
      → eq_ℤ c.unified_address config.unified_address ≡ false
      → StoredAs (fi + 1 + i) config r' (store_result d text (t.clock fi) interval c r p) p'
      → StoredAs (fi + suc i) config r' p p'
  own_later fi i c config r r' p p' h e =
      let there : fi + suc i ≡ fi + 1 + i = omega arith in
      rw there (
        e
        ∙ ap
            (entry_of d (t.clock (fi + 1 + i)) config r'.register_values r'.coil_values r'.is_ok
              (text_of text r'.error) interval)
            (one_other fi c r p config.unified_address h))

  own_at :
      (fi : ℕ) (c : RegisterConfig D) (cs : List (RegisterConfig D)) (r : FieldResult)
      (rs : List FieldResult) (p p' : Progress D)
      → is_neg c.unified_address ≡ false
      → state d c.unified_address p'.table
        ≡ state d c.unified_address (store_result d text (t.clock fi) interval c r p).table
      → All (λ other. eq_ℤ c.unified_address other.unified_address ≡ false) cs
      → ((i : ℕ) (config : RegisterConfig D) (r' : FieldResult)
          → get_elem? cs i ≡ some config
          → get_elem? rs i ≡ some r'
          → StoredAs (fi + 1 + i) config r' (store_result d text (t.clock fi) interval c r p) p')
      → (i : ℕ) (config : RegisterConfig D) (r' : FieldResult) → get_elem? (c ∷ cs) i ≡ some config
      → get_elem? (r ∷ rs) i ≡ some r'
      → StoredAs (fi + i) config r' p p'
  own_at fi c cs r rs p p' h keeps others own zero config r' ec er =
      own_here fi c config cs r r' p p' h keeps (some-injective c config ec)
        (some-injective r r' er)
  own_at fi c cs r rs p p' h keeps others own (suc i) config r' ec er =
      own_later fi i c config r r' p p'
        (at_index (λ o. eq_ℤ c.unified_address o.unified_address ≡ false) cs i config others ec)
        (own i config r' ec er)

  -- With `m_running` true throughout and a result for each register.
  pub store_results-Stores :
      (fi : ℕ) (configs : List (RegisterConfig D)) (rs : List FieldResult) (p : Progress D)
      → ((i : ℕ) → t.running i ≡ true)
      → length rs ≡ length configs
      → Addressed configs
      → (p' : Progress D) × (store_results d text t interval fi configs rs p ≡ done p')
        × Stores fi configs rs p p'
  unfolding store_results
  store_results-Stores fi [] [] p run n a =
      (p, refl, (ground arith, λ k h. refl, λ i config r e. absurd (ground (arith, e))))
  store_results-Stores fi [] (r ∷ rs) p run n a = absurd (omega (arith, n))
  store_results-Stores fi (c ∷ cs) [] p run n a = absurd (omega (arith, n))
  store_results-Stores fi (c ∷ cs) (r ∷ rs) p run n a =
      let p1 = store_result d text (t.clock fi) interval c r p in
      let (p', e, (ok_eq, others, own)) =
        store_results-Stores (fi + 1) cs rs p1 run (omega (arith, n)) a.3 in
      (
        p',
        rw (run fi, store_results) e,
        (
          ground (arith, ok_eq, all_ok-store_result fi c r p),
          λ k h. others k h.1 ∙ one_other fi c r p k h.0,
          own_at fi c cs r rs p p' a.0 (others c.unified_address a.2) a.1 own,
        ),
      )

-- ===== src/Store/RegisterTable/States.antt =====
-- What an update of the table changes, and what it keeps.
use swr.Base.{ℕ, ◌≡◌, refl, arith, String, Bool, true, false, not, ◌||◌, List, some, if◌then◌else◌}
use swr.Base.Int.{ℤ, is_neg, eq_ℤ}
use swr.Model.{RegisterConfig, Doubles}
use swr.Store.Hash.{Hash, insert, find-insert, eq_ℤ_self}
use swr.Store.RegisterTable.{RegisterState, clamp_value, state, read_entry, update_state}

module _ {D : Type 0} (d : Doubles D) where
  clamped :
      (v lo hi : D)
      → ((x : D) → d.lt x x ≡ false)
      → d.lt hi lo ≡ false
      → (d.lt (clamp_value d v lo hi) lo ≡ false) × (d.lt hi (clamp_value d v lo hi) ≡ false)
  unfolding clamp_value
  clamped v lo hi irr order = ground (arith, irr lo, irr hi)

  state-insert :
      (k j : ℤ) (s : RegisterState D) (t : Hash (RegisterState D))
      → state d j (insert k s t) ≡ (if eq_ℤ k j then s else state d j t)
  unfolding state
  state-insert k j s t = ground (arith, find-insert k j s t)

  -- The entry that an update of a register with an address stores.
  abbrev pub entry_of :
      ℕ
      → RegisterConfig D
      → List ℕ
      → List Bool
      → Bool
      → String
      → ℕ
      → RegisterState D
      → RegisterState D
  entry_of now config ws bs success message interval old =
      let entry = record old {
        config = config;
        polling_interval_ms = interval;
        is_valid = success;
        error_message = message;
      } in
      if success then read_entry d now ws bs entry else entry

  pub update_own :
      (now : ℕ) (config : RegisterConfig D) (ws : List ℕ) (bs : List Bool) (success : Bool)
      (message : String) (interval : ℕ) (t : Hash (RegisterState D))
      → is_neg config.unified_address ≡ false
      → state d config.unified_address (update_state d now config ws bs success message interval t)
        ≡ entry_of now config ws bs success message interval (state d config.unified_address t)
  unfolding update_state
  update_own now config ws bs success message interval t h = ground (
    arith,
    state-insert config.unified_address config.unified_address
        (entry_of now config ws bs success message interval (state d config.unified_address t)) t,
    eq_ℤ_self config.unified_address,
  )

  -- A failed poll of a register with an address that is not negative keeps the values, the range
  -- flag and the time of the last good one, and stores the configuration, the interval, the error
  -- text and that the state is not valid.
  pub failed_poll_keeps :
      (now : ℕ) (config : RegisterConfig D) (ws : List ℕ) (bs : List Bool) (message : String)
      (interval : ℕ) (t : Hash (RegisterState D))
      → is_neg config.unified_address ≡ false
      → state d config.unified_address (update_state d now config ws bs false message interval t)
        ≡ record (state d config.unified_address t) {
          config = config;
          polling_interval_ms = interval;
          is_valid = false;
          error_message = message;
        }
  failed_poll_keeps now config ws bs message interval t h =
      update_own now config ws bs false message interval t h

  -- An update changes no other register, and none at all if the address is negative.
  pub update_others :
      (now : ℕ) (config : RegisterConfig D) (ws : List ℕ) (bs : List Bool) (success : Bool)
      (message : String) (interval : ℕ) (t : Hash (RegisterState D)) (other : ℤ)
      → (is_neg config.unified_address || not (eq_ℤ config.unified_address other)) ≡ true
      → state d other (update_state d now config ws bs success message interval t) ≡ state d other t
  unfolding update_state
  update_others now config ws bs success message interval t other h = ground (
    arith,
    state-insert config.unified_address other
        (entry_of now config ws bs success message interval (state d config.unified_address t)) t,
  )

  -- After a successful poll of a register with an address that is not negative and limits in
  -- order, under an order of doubles that puts no value below itself, the scaled value lies
  -- within the limits, the raw values are those that were read, the time is that of the poll, and
  -- the state is valid.
  pub good_poll_clamps :
      (now : ℕ) (config : RegisterConfig D) (ws : List ℕ) (bs : List Bool) (message : String)
      (interval : ℕ) (t : Hash (RegisterState D))
      → ((x : D) → d.lt x x ≡ false)
      → d.lt config.max_value config.min_value ≡ false
      → is_neg config.unified_address ≡ false
      → let s =
          state d config.unified_address
            (update_state d now config ws bs true message interval t) in
        (d.lt s.scaled_value config.min_value ≡ false)
        × (d.lt config.max_value s.scaled_value ≡ false)
        × (s.raw_registers ≡ ws)
        × (s.raw_coils ≡ bs)
        × (s.last_updated ≡ some now)
        × (s.is_valid ≡ true)
  unfolding read_entry
  good_poll_clamps now config ws bs message interval t irr order h =
      rw (update_own now config ws bs true message interval t h)
        ((clamped _ _ _ irr order).0, (clamped _ _ _ irr order).1, refl, refl, refl, refl)

  -- For a register with a unified address that is not negative and limits in order, under an
  -- order of doubles that puts no value below itself: once a poll succeeded, `outOfRange` is
  -- false after the next successful poll under the same configuration, whatever value was read.
  -- The flag tests the value of the poll before, which was clamped into the limits.
  pub out_of_range_never_set :
      (now now' : ℕ) (config : RegisterConfig D) (ws ws' : List ℕ) (bs bs' : List Bool)
      (message message' : String) (interval interval' : ℕ) (t : Hash (RegisterState D))
      → ((x : D) → d.lt x x ≡ false)
      → d.lt config.max_value config.min_value ≡ false
      → is_neg config.unified_address ≡ false
      → (state d config.unified_address (
          update_state d now' config ws' bs' true message' interval'
            (update_state d now config ws bs true message interval t))).out_of_range
        ≡ false
  unfolding read_entry
  out_of_range_never_set now now' config ws ws' bs bs' message message' interval interval' t irr
        order h =
      let t' = update_state d now config ws bs true message interval t in
      let (low, high, _, _, _, _) =
        good_poll_clamps now config ws bs message interval t irr order h in
      rw (update_own now' config ws' bs' true message' interval' t' h) (rw (low, high) refl)

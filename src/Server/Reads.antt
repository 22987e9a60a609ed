-- ===== src/Server/Reads.antt =====
-- What a Modbus master reads from the server.
use swr.Base.{ℕ, ◌≡◌, ◌≢◌, refl, ap, ◌∙◌, arith, Bool, true, List, if◌then◌else◌, String}
use swr.Base.Int.{pos, eq_ℤ_iff, is_neg}
use swr.Model.{
  RegisterType, unknown_type, coil, discrete_input, holding_register, input_register,
  RegisterConfig, Doubles,
}
use swr.Store.Hash.{Hash}
use swr.Store.RegisterTable.{RegisterState, state, read_entry, update_state}
use mathlib.Core.Path.{subst}
use swr.Store.RegisterTable.States.{entry_of, update_own, update_others}
use swr.Server.{read_fn, word_of_type, coil_word, first_word}

-- The word that a poll leaves for the masters.
abbrev pub word_of : RegisterType → List ℕ → List Bool → ℕ
word_of coil registers coils = coil_word coils
word_of discrete_input registers coils = coil_word coils
word_of type registers coils = first_word registers

abbrev served : {D : Type 0} → RegisterState D → ℕ
served s = if is_neg s.config.unified_address then 0 else word_of_type s.config.type s

module _ {D : Type 0} (d : Doubles D) where
  word_of-read_entry :
      (now : ℕ) (registers : List ℕ) (coils : List Bool) (entry : RegisterState D)
      (type : RegisterType)
      → word_of_type type (read_entry d now registers coils entry) ≡ word_of type registers coils
  unfolding read_entry
  word_of-read_entry now registers coils entry unknown_type = refl
  word_of-read_entry now registers coils entry coil = refl
  word_of-read_entry now registers coils entry discrete_input = refl
  word_of-read_entry now registers coils entry holding_register = refl
  word_of-read_entry now registers coils entry input_register = refl

  served-read_entry :
      (now a : ℕ) (registers : List ℕ) (coils : List Bool) (entry : RegisterState D)
      → entry.config.unified_address ≡ pos a
      → served (read_entry d now registers coils entry) ≡ word_of entry.config.type registers coils
  unfolding read_entry
  served-read_entry now a registers coils entry e =
      ap
        (λ k.
          if is_neg k
          then 0
          else word_of_type entry.config.type (read_entry d now registers coils entry))
        e
      ∙ word_of-read_entry now registers coils entry entry.config.type

  -- After a successful poll of the register at unified address `a`, a master reads at `a` the
  -- first word that was polled, or for a coil or discrete input 1 or 0 for the first coil, with 0
  -- if there is none; at any other address it reads what it read before.
  pub read_fn-update_state :
      (now interval a b : ℕ) (config : RegisterConfig D) (registers : List ℕ) (coils : List Bool)
      (message : String) (states : Hash (RegisterState D))
      → config.unified_address ≡ pos a
      → a ≢ b
      → (read_fn d (update_state d now config registers coils true message interval states) a
          ≡ word_of config.type registers coils)
        × (read_fn d (update_state d now config registers coils true message interval states) b
            ≡ read_fn d states b)
  unfolding read_fn
  read_fn-update_state now interval a b config registers coils message states e ne = (
    ap served own ∙ served-read_entry now a registers coils _ e,
    ap served (
        update_others d now config registers coils true message interval states (pos b)
          (ground (arith, e, eq_ℤ_iff config.unified_address (pos b)))),
  )
    where
      own :
          state d (pos a) (update_state d now config registers coils true message interval states)
          ≡ entry_of d now config registers coils true message interval (state d (pos a) states)
      own =
          subst
            (λ k.
              state d k (update_state d now config registers coils true message interval states)
              ≡ entry_of d now config registers coils true message interval (state d k states))
            e (update_own d now config registers coils true message interval states (ap is_neg e))

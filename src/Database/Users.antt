-- ===== src/Database/Users.antt =====
-- data_collection/database/DeviceDatabase.cpp: which users a restoration adds. What the statements do to the
-- list of the user names is a hypothesis.
pub mod Added
use package.text.Mathlib.TextEquality.{eq_iff}
use mathlib.Core.List.{append_assoc, append-nil}
use swr.Base.{
  ◌≡◌, ◌≢◌, refl, sym, ap, ◌∙◌, arith, String, Bool, true, false, not, ◌&&◌, ◌||◌, List, [], ◌∷◌,
  ◌++◌, ltb, if◌then◌else◌, Bool-cases, inl, inr, ℕ, ◌+◌,
}
use swr.Base.Int.{ℤ, pos, negsuc, is_neg}
use swr.Base.Json.{Json, Numerals, Object, to_object, to_array, to_string, to_int, is_double}
use text.Mathlib.Text.{◌==◌}
use swr.Store.Hash.{Hash}
use swr.Database.Rows.{user_row}
use swr.Database.Tx.{
  Outcome, failed, done, Tx, ◌>>=◌, and_then, return, TagSnapshot, Statement, delete_devices,
  insert_device, insert_register, insert_kept_tag, insert_user, delete_tags, delete_screens,
  delete_project, insert_screen, insert_project, insert_tag, Sql,
}
use swr.Database.Calls.{IsInherited, inserted_users}
use swr.Database.Restore.{
  HmiWarning, has_id, id_or_none, by_unified, insert_devices, insert_registers, restore_devices,
  relink, relink_tags, restore_users, insert_screens, insert_tags, wipe_hmi, insert_hmi,
  restore_hmi, Restored, when, restore_parts, or_roll_back, restore_data,
}
use swr.Database.Rollback.{Outcome-cases, done_ne}

-- `users s` are the names in the table of the users.
pub record ShowsUsers {S D : Type 0} (db : Sql S D) (users : S → List String) : Type 0 where
  pub begins : (s t : S) → db.transaction s ≡ done tt t → users t ≡ users s
  pub run :
      (q : Statement D) (s t : S) (id : ℤ)
      → db.run q s ≡ done id t
      → users t ≡ users s ++ inserted_users q
  pub kept_tags :
      (s t : S) (tags : List (TagSnapshot D)) → db.kept_tags s ≡ done tags t → users t ≡ users s
  pub unified_registers :
      (s t : S) (rows : List (ℤ × ℤ)) → db.unified_registers s ≡ done rows t → users t ≡ users s
  pub count_users :
      (name : String) (s t : S) (n : ℕ)
      → db.count_users name s ≡ done n t
      → (users t ≡ users s) × (ltb 0 n ≡ has_id name (users s))
  pub commit : (s t : S) → db.commit s ≡ done tt t → users t ≡ users s

-- What is true of the users before and behind a call that succeeds.
pub record Ensures {S A : Type 0} (users : S → List String) (R : List String → List String → Type 0)
    (c : Tx S A) : Type 0 where
  pub apply : (s t : S) (a : A) → c s ≡ done a t → R (users s) (users t)

abbrev pub SameUsers : List String → List String → Type 0
SameUsers us vs = vs ≡ us

abbrev done_state : {S A : Type 0} → S → Outcome S A → S
done_state s (failed error t) = s
done_state s (done a t) = t

module _ {S : Type 0} {users : S → List String} where
  pub bind-Ensures :
      (R Q P : List String → List String → Type 0)
      → ((us vs ws : List String) → R us vs → Q vs ws → P us ws)
      → {A B : Type 0} {c : Tx S A} {f : A → Tx S B} → Ensures users R c
      → ((a : A) → Ensures users Q (f a))
      → Ensures users P (c >>= f)
  bind-Ensures R Q P j {c} {f} h k = record {
    apply = λ s t b e. elim (Outcome-cases (c s)) [
      | inl (error, u, q) ↦ absurd (done_ne (sym (ap (λ o. and_then o f) (sym q) ∙ e)))
      | inr (a, u, q) ↦
          j (users s) (users u) (users t) (h.apply s u a q)
            ((k a).apply u t b (ap (λ o. and_then o f) (sym q) ∙ e))
    ];
  }

  pub bind-SameUsers :
      {A B : Type 0} {c : Tx S A} {f : A → Tx S B}
      → Ensures users SameUsers c
      → ((a : A) → Ensures users SameUsers (f a))
      → Ensures users SameUsers (c >>= f)
  bind-SameUsers h k = bind-Ensures SameUsers SameUsers SameUsers (λ us vs ws p q. q ∙ p) h k

  pub return-Same : {A : Type 0} (a : A) → Ensures users SameUsers (return a)
  return-Same a = record { apply = λ s t b e. ap users (ap (done_state s) (sym e)) }

  pub if-Ensures :
      {R : List String → List String → Type 0} {A : Type 0} (b : Bool) (c d : Tx S A)
      → Ensures users R c
      → Ensures users R d
      → Ensures users R (if b then c else d)
  if-Ensures true c d h k = h
  if-Ensures false c d h k = k

module _ {S D : Type 0} (db : Sql S D) (users : S → List String) (laws : ShowsUsers db users) where
  other : (q : Statement D) → inserted_users q ≡ [] → Ensures users SameUsers (db.run q)
  other q e = record {
    apply = λ s t id r. laws.run q s t id r ∙ (ap (λ ns. users s ++ ns) e ∙ append-nil (users s));
  }

  pub others-IsInherited : IsInherited db (λ A. Ensures users SameUsers)
  others-IsInherited = record {
    returns = return-Same;
    bind = bind-SameUsers;
    run = other;
    unified_registers = record { apply = laws.unified_registers };
  }

-- ===== src/Database/Rollback.antt =====
-- data_collection/database/DeviceDatabase.cpp: a restoration that fails leaves the database as it was. The
-- laws of a transaction are hypotheses.
use swr.Base.{
  Option, some, ◌≡◌, refl, sym, ap, ◌∙◌, String, Bool, true, false, not, ◌&&◌, List, [], ◌∷◌,
  if◌then◌else◌, Bool-cases, inl, inr, ◌⊎◌, ◌++◌,
}
use swr.Base.Json.{Json, Numerals, Object}
use swr.Database.Tx.{Outcome, failed, done, Tx, ◌>>=◌, and_then, return, Statement, Sql}
use swr.Database.Calls.{IsInherited, restore_devices_kept, relink_tags_kept, restore_hmi_kept}
use swr.Database.Restore.{
  HmiWarning, restore_devices, restore_users, restore_hmi, Restored, restore_parts, or_roll_back,
  restore_data,
}

abbrev pub state_of : {S A : Type 0} → Outcome S A → S
state_of (failed error s) = s
state_of (done a s) = s

-- `base s` is the database to which a rollback in `s` returns, if a transaction has begun; these calls
-- do not change it then.
pub Outcome-cases :
    {S A : Type 0} (o : Outcome S A)
    → ((error : String) × (s : S) × (o ≡ failed error s)) ⊎ ((a : A) × (s : S) × (o ≡ done a s))
Outcome-cases (failed error s) = inl (error, s, refl)
Outcome-cases (done a s) = inr (a, s, refl)

pub done_ne : {S A : Type 0} {a : A} {s t : S} {error : String} → done a s ≡ failed error t → ⊥
done_ne e = cc

pub record KeepsBase {S A : Type 0} (base : S → Option S) (c : Tx S A) : Type 0 where
  pub apply : (s old : S) → base s ≡ some old → base (state_of (c s)) ≡ some old

module _ {S : Type 0} {base : S → Option S} where
  bind-KeepsBase :
      {A B : Type 0} {c : Tx S A} {f : A → Tx S B}
      → KeepsBase base c
      → ((a : A) → KeepsBase base (f a))
      → KeepsBase base (c >>= f)
  bind-KeepsBase {c} {f} h k = record {
    apply = λ s old b. elim (Outcome-cases (c s)) [
      | inl (error, t, e) ↦
          ap (λ o. base (state_of (and_then o f))) e
          ∙ (ap (λ o. base (state_of o)) (sym e) ∙ h.apply s old b)
      | inr (a, t, e) ↦
          ap (λ o. base (state_of (and_then o f))) e
          ∙ (k a).apply t old (ap (λ o. base (state_of o)) (sym e) ∙ h.apply s old b)
    ];
  }

  return-KeepsBase : {A : Type 0} (a : A) → KeepsBase base (return a)
  return-KeepsBase a = record { apply = λ s old b. b }

  if-KeepsBase :
      {A : Type 0} (b : Bool) (c d : Tx S A)
      → KeepsBase base c
      → KeepsBase base d
      → KeepsBase base (if b then c else d)
  if-KeepsBase true c d h k = h
  if-KeepsBase false c d h k = k

-- What SQLite promises of a transaction.
pub record IsTransactional {S D : Type 0} (db : Sql S D) (base : S → Option S) : Type 0 where
  pub begins : (s t : S) → db.transaction s ≡ done tt t → base t ≡ some s
  pub not_begun : (s t : S) (error : String) → db.transaction s ≡ failed error t → t ≡ s
  pub run : (q : Statement D) → KeepsBase base (db.run q)
  pub kept_tags : KeepsBase base db.kept_tags
  pub unified_registers : KeepsBase base db.unified_registers
  pub count_users : (name : String) → KeepsBase base (db.count_users name)
  pub commit :
      (s t old : S) (error : String)
      → base s ≡ some old
      → db.commit s ≡ failed error t
      → base t ≡ some old
  pub undoes : (s old : S) → base s ≡ some old → db.rollback s ≡ old

module _ {S D : Type 0} (db : Sql S D) (m : Numerals D) (base : S → Option S)
    (laws : IsTransactional db base) where
  calls-IsInherited : IsInherited db (λ A. KeepsBase base)
  calls-IsInherited = record {
    returns = return-KeepsBase;
    bind = bind-KeepsBase;
    run = λ q e. laws.run q;
    unified_registers = laws.unified_registers;
  }

  restore_users-KeepsBase : (vs : List (Json D)) → KeepsBase base (restore_users db m vs)
  unfolding restore_users
  restore_users-KeepsBase [] = return-KeepsBase tt
  restore_users-KeepsBase (v ∷ vs) = if-KeepsBase _ _ _ (restore_users-KeepsBase vs) (
      bind-KeepsBase (laws.count_users _) (λ n.
        if-KeepsBase _ _ _ (restore_users-KeepsBase vs)
          (bind-KeepsBase (laws.run _) (λ id. restore_users-KeepsBase vs))))

  restore_parts-KeepsBase :
      (to_text : Object D → String) (now : String) (r : Restored D)
      → KeepsBase base (restore_parts db m to_text now r)
  unfolding restore_parts
  restore_parts-KeepsBase to_text now r =
      bind-KeepsBase
        (if-KeepsBase (r.with_devices && not r.with_hmi) db.kept_tags (return []) laws.kept_tags
          (return-KeepsBase []))
        (λ kept.
          bind-KeepsBase
            (if-KeepsBase r.with_devices (restore_devices db m r.devices r.registers) (return tt)
              (restore_devices_kept db m (λ A. KeepsBase base) calls-IsInherited r.devices
                r.registers)
              (return-KeepsBase tt))
            (λ b.
              bind-KeepsBase (relink_tags_kept db m (λ A. KeepsBase base) calls-IsInherited kept)
                (λ relinked.
                  bind-KeepsBase
                    (if-KeepsBase r.with_users (restore_users db m r.users) (return tt)
                      (restore_users-KeepsBase r.users) (return-KeepsBase tt))
                    (λ c.
                      bind-KeepsBase
                        (if-KeepsBase r.with_hmi (restore_hmi db m to_text now r.hmi) (return [])
                          (restore_hmi_kept db m (λ A. KeepsBase base) calls-IsInherited to_text now
                            r.hmi)
                          (return-KeepsBase []))
                        (λ warned. return-KeepsBase (relinked ++ warned))))))

  -- The parts and the commit, of which one fails.
  committed_base :
      (c : Tx S (List HmiWarning)) (s t old : S) (error : String)
      → KeepsBase base c
      → base s ≡ some old
      → (c >>= λ warnings. (db.commit >>= λ _. return warnings)) s ≡ failed error t
      → base t ≡ some old
  committed_base c s t old error k b e = elim (Outcome-cases (c s)) [
    | inl (x, u, q) ↦
        ap (λ o. base (state_of o)) (sym (rw q at e))
        ∙ (ap (λ o. base (state_of o)) (sym q) ∙ k.apply s old b)
    | inr (w, u, q) ↦ elim (Outcome-cases (db.commit u)) [
      | inl (x, v, z) ↦
          ap (λ o. base (state_of o)) (sym (rw (q, z) at e))
          ∙ laws.commit u v old x (ap (λ o. base (state_of o)) (sym q) ∙ k.apply s old b) z
      | inr (a, v, z) ↦ absurd (done_ne (rw (q, z) at e))
    ]
  ]

  rolled_back :
      (o : Outcome S (List HmiWarning)) (s t : S) (error : String)
      → ((x : String) (u : S) → o ≡ failed x u → base u ≡ some s)
      → or_roll_back db o ≡ failed error t
      → t ≡ s
  rolled_back (done a u) s t error h e = absurd (done_ne e)
  rolled_back (failed x u) s t error h e = ap state_of (sym e) ∙ laws.undoes u s (h x u refl)

  -- A restoration that fails, whichever statement it was, leaves the database as it was before.
  pub failed_restore :
      (to_text : Object D → String) (now : String) (r : Restored D) (s t : S) (error : String)
      → restore_data db m to_text now r s ≡ failed error t
      → t ≡ s
  unfolding restore_data
  failed_restore to_text now r s t error e = elim (Bool-cases (db.is_open s)) [
    | inr k ↦ ap state_of (sym (rw k at e))
    | inl k ↦ elim (Outcome-cases (db.transaction s)) [
      | inl (x, u, q) ↦ ap state_of (sym (rw (k, q) at e)) ∙ laws.not_begun s u x q
      | inr (a, u, q) ↦
          rolled_back
            ((restore_parts db m to_text now r >>= λ warnings. (db.commit >>= λ _. return warnings))
              u)
            s t error
            (λ x v z.
              committed_base (restore_parts db m to_text now r) u v s x
                (restore_parts-KeepsBase to_text now r) (laws.begins s u q) z)
            (rw (k, q) at e)
    ]
  ]

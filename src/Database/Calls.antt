-- ===== src/Database/Calls.antt =====
-- data_collection/database/DeviceDatabase.cpp: what holds of each call of a restoration, but for those that
-- add users, holds of their sequences.
use swr.Base.{◌≡◌, refl, String, Bool, true, false, List, [], ◌∷◌, if◌then◌else◌, ℕ, ◌+◌}
use swr.Base.Int.{ℤ}
use swr.Base.Json.{Json, Numerals, Object, to_array}
use swr.Store.Hash.{Hash}
use swr.Database.Tx.{Tx, ◌>>=◌, return, TagSnapshot, Statement, insert_user, Sql}
use swr.Database.Restore.{
  HmiWarning, by_unified, insert_devices, insert_registers, restore_devices, relink, relink_tags,
  insert_screens, insert_tags, wipe_hmi, insert_hmi, restore_hmi,
}

-- The names of the users that a statement inserts.
abbrev pub inserted_users : {D : Type 0} → Statement D → List String
inserted_users (insert_user u) = u.username ∷ []
inserted_users _ = []

-- A predicate on calls that sequences inherit, and that holds of every statement that inserts no user.
pub record IsInherited {S D : Type 0} (db : Sql S D) (P : (A : Type 0) → Tx S A → Type 0)
    : Type 1 where
  pub returns : {A : Type 0} (a : A) → P A (return a)
  pub bind :
      {A B : Type 0} {c : Tx S A} {f : A → Tx S B} → P A c → ((a : A) → P B (f a)) → P B (c >>= f)
  pub run : (q : Statement D) → inserted_users q ≡ [] → P ℤ (db.run q)
  pub unified_registers : P (List (ℤ × ℤ)) db.unified_registers

pub if_kept :
    {S A : Type 0} (P : Tx S A → Type 0) (b : Bool) (c d : Tx S A)
    → P c
    → P d
    → P (if b then c else d)
if_kept P true c d h k = h
if_kept P false c d h k = k

module _ {S D : Type 0} (db : Sql S D) (m : Numerals D) (P : (A : Type 0) → Tx S A → Type 0)
    (law : IsInherited db P) where
  insert_devices_kept :
      (vs : List (Json D)) (ids : Hash ℤ) → P (Hash ℤ) (insert_devices db m vs ids)
  unfolding insert_devices
  insert_devices_kept [] ids = law.returns ids
  insert_devices_kept (v ∷ vs) ids = law.bind (law.run _ refl) (λ id. insert_devices_kept vs _)

  insert_registers_kept :
      (ids : Hash ℤ) (vs : List (Json D)) → P (Unit {0}) (insert_registers db m ids vs)
  unfolding insert_registers
  insert_registers_kept ids [] = law.returns tt
  insert_registers_kept ids (v ∷ vs) =
      if_kept (P _) _ _ _ (insert_registers_kept ids vs)
        (law.bind (law.run _ refl) (λ id. insert_registers_kept ids vs))

  relink_kept : (h : Hash ℤ) (ts : List (TagSnapshot D)) → P (List String) (relink db m h ts)
  unfolding relink
  relink_kept h [] = law.returns []
  relink_kept h (t ∷ ts) =
      if_kept (P _) _ _ _ (law.bind (relink_kept h ts) (λ dropped. law.returns _))
        (law.bind (law.run _ refl) (λ id. relink_kept h ts))

  pub relink_tags_kept : (ts : List (TagSnapshot D)) → P (List HmiWarning) (relink_tags db m ts)
  unfolding relink_tags
  relink_tags_kept [] = law.returns []
  relink_tags_kept (t ∷ ts) =
      law.bind law.unified_registers
        (λ rows. law.bind (relink_kept _ (t ∷ ts)) (λ dropped. law.returns _))

  insert_screens_kept :
      (to_text : Object D → String) (now : String) (order : ℕ) (vs : List (Json D))
      → P (List String) (insert_screens db m to_text now order vs)
  unfolding insert_screens
  insert_screens_kept to_text now order [] = law.returns []
  insert_screens_kept to_text now order (v ∷ vs) =
      if_kept (P _) _ _ _ (insert_screens_kept to_text now order vs) (
        law.bind (law.run _ refl)
          (λ id. law.bind (insert_screens_kept to_text now (order + 1) vs) (λ ids. law.returns _)))

  insert_tags_kept : (h : Hash ℤ) (vs : List (Json D)) → P ℕ (insert_tags db m h vs)
  unfolding insert_tags
  insert_tags_kept h [] = law.returns 0
  insert_tags_kept h (v ∷ vs) = if_kept (P _) _ _ _ (insert_tags_kept h vs) (
      if_kept (P _) _ _ _ (law.bind (insert_tags_kept h vs) (λ n. law.returns _))
        (law.bind (law.run _ refl) (λ id. insert_tags_kept h vs)))

  wipe_hmi_kept : P ℤ (wipe_hmi db m)
  unfolding wipe_hmi
  wipe_hmi_kept = law.bind (law.run _ refl) (λ a. law.bind (law.run _ refl) (λ b. law.run _ refl))

  insert_hmi_kept :
      (hmi : Object D) (rows : List (ℤ × ℤ)) (ids : List String)
      → P (List HmiWarning) (insert_hmi db m hmi rows ids)
  unfolding insert_hmi
  insert_hmi_kept hmi rows ids = law.bind (law.run _ refl) (λ a.
      law.bind (insert_tags_kept (by_unified rows []) (to_array (hmi "tags")))
        (λ skipped. law.returns _))

  pub restore_hmi_kept :
      (to_text : Object D → String) (now : String) (hmi : Object D)
      → P (List HmiWarning) (restore_hmi db m to_text now hmi)
  unfolding restore_hmi
  restore_hmi_kept to_text now hmi = law.bind law.unified_registers (λ rows.
      law.bind wipe_hmi_kept (λ a.
        law.bind (insert_screens_kept to_text now 0 (to_array (hmi "screens")))
          (λ ids. insert_hmi_kept hmi rows ids)))

  pub restore_devices_kept :
      (devices registers : List (Json D)) → P (Unit {0}) (restore_devices db m devices registers)
  unfolding restore_devices
  restore_devices_kept devices registers =
      law.bind (law.run _ refl) (λ a.
        law.bind (insert_devices_kept devices []) (λ ids. insert_registers_kept ids registers))

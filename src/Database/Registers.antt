-- ===== src/Database/Registers.antt =====
-- data_collection/database/DeviceDatabase.cpp: `insertRegister`, `updateRegister` and `deleteRegister`, which
-- give a register without a unified address the next free one. Their statements are the fields of a record.
pub mod Assigned
use swr.Base.{ℕ, String, Bool, true, false, not, leb, if◌then◌else◌}
use swr.Base.Int.{ℤ, pos, negsuc, is_neg}
use swr.Model.{RegisterConfig}
use swr.Database.Rows.{RegisterRow}
use swr.Database.Stored.{stored_register}
use swr.Database.Tx.{Outcome, failed, done, Tx, and_then, ◌>>=◌, return}

pub record Registers (S D : Type 0) : Type 0 where
  -- INSERT for a device; the result is the id of the row.
  pub insert_row : ℤ → RegisterRow D → Tx S ℤ
  -- "SELECT COALESCE(MAX(unified_register_id), 0) + 1", of the addresses from 0 and below the bound.
  pub next_address : ℕ → Tx S ℤ
  -- UPDATE of the address, and of all values, of the row with an id.
  pub set_address : ℤ → ℤ → Tx S (Unit {0})
  pub update_row : ℤ → RegisterRow D → Tx S (Unit {0})
  pub delete_row : ℤ → Tx S (Unit {0})

-- `kManualUnifiedIdMin`
abbrev pub manual_unified_id_min : ℕ
manual_unified_id_min = 5000

abbrev pub is_manual : ℤ → Bool
is_manual (pos n) = leb manual_unified_id_min n
is_manual (negsuc n) = false

-- The caller's register is handed back with the database.
abbrev pub handed : {S C A : Type 0} → C → Outcome S A → Outcome (S × C) A
handed c (failed error s) = failed error (s, c)
handed c (done a s) = done a (s, c)

module _ {S D : Type 0} (db : Registers S D) where
  unfoldable pub next_free : Tx S ℤ
  next_free = do
    n ← db.next_address manual_unified_id_min
    if is_manual n then failed "Auto-assign range exhausted (max 4999)" else return n

  unfoldable pub assign_address : RegisterConfig D → S → Outcome (S × RegisterConfig D) (Unit {0})
  unfolding next_free
  assign_address c s =
      if not (is_neg c.unified_address)
      then done tt (s, c)
      else and_then (handed c (next_free s)) (λ n (t, _).
        and_then (handed c (db.set_address c.id n t))
          (λ _ (u, _). done tt (u, record c { unified_address = n })))

  unfoldable pub insert_register :
      ℤ → RegisterConfig D → S → Outcome (S × RegisterConfig D) (Unit {0})
  unfolding assign_address
  insert_register device_id c s =
      and_then (handed c (db.insert_row device_id (stored_register c) s))
        (λ id (t, _). assign_address (record c { id = id; device_id = device_id }) t)

  unfoldable pub update_register : RegisterConfig D → S → Outcome (S × RegisterConfig D) (Unit {0})
  unfolding next_free
  update_register c s =
      if is_neg c.unified_address
      then and_then (handed c (next_free s)) (λ n (t, _).
        let d = record c { unified_address = n } in
        handed d (db.update_row c.id (stored_register d) t))
      else handed c (db.update_row c.id (stored_register c) s)

  unfoldable pub delete_register : ℤ → Tx S (Unit {0})
  delete_register id = db.delete_row id

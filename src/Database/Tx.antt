-- ===== src/Database/Tx.antt =====
-- What `restoreData` needs of QSqlDatabase and QSqlQuery: its statements with the values bound to them, as
-- calls on a database, a value of `S`. Each gives a result or the text of its error.
use swr.Base.{ℕ, String, Bool, Option, List}
use swr.Base.Int.{ℤ}
use swr.Database.Rows.{DeviceRow, RegisterRow, UserRow, ScreenRow, TagRow}

pub data Outcome (S A : Type 0) : Type 0 where
  failed : String → S → Outcome S A
  done : A → S → Outcome S A

abbrev pub Tx : Type 0 → Type 0 → Type 0
Tx S A = S → Outcome S A

infixl 5 ◌>>=◌
abbrev pub and_then : {S A B : Type 0} → Outcome S A → (A → Tx S B) → Outcome S B
and_then (failed error s) f = failed error s
and_then (done a s) f = f a s

abbrev pub ◌>>=◌ : {S A B : Type 0} → Tx S A → (A → Tx S B) → Tx S B
◌>>=◌ c f s = and_then (c s) f

abbrev pub return : {S A : Type 0} → A → Tx S A
return a s = done a s

-- A tag that stays, with the unified address of its register.
pub record TagSnapshot (D : Type 0) : Type 0 where
  pub row : TagRow D
  pub unified_address : ℤ
  pub created_at : String
  pub updated_at : String

-- An id is that of the device or the register in the database.
pub data Statement (D : Type 0) : Type 0 where
  delete_devices : Statement D
  insert_device : DeviceRow → Statement D
  insert_register : ℤ → RegisterRow D → Statement D
  insert_kept_tag : ℤ → TagSnapshot D → Statement D
  insert_user : UserRow → Statement D
  delete_tags : Statement D
  delete_screens : Statement D
  delete_project : Statement D
  insert_screen : ScreenRow → Statement D
  insert_project : String → Option String → ℤ → Statement D
  insert_tag : ℤ → TagRow D → Statement D

pub record Sql (S D : Type 0) : Type 0 where
  pub is_open : S → Bool
  pub transaction : Tx S (Unit {0})
  pub commit : Tx S (Unit {0})
  pub rollback : S → S
  -- The result is the id of the last row that was inserted.
  pub run : Statement D → Tx S ℤ
  pub kept_tags : Tx S (List (TagSnapshot D))
  pub unified_registers : Tx S (List (ℤ × ℤ))
  pub count_users : String → Tx S ℕ

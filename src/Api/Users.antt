-- ===== src/Api/Users.antt =====
-- data_collection/database/DeviceDatabase.cpp: the check of a login. Whether the database is open, its
-- statements and the hash of a password are parameters; negative counts are outside the model.
use swr.Base.{ℕ, ◌+◌, String, Bool, not, Option, none, some, leb, if◌then◌else◌}
use swr.Base.Int.{ℤ, pos, eq_ℤ}
use text.Mathlib.Text.{◌==◌}
use swr.Model.Names.{active, disabled, locked, user_status_from_string}

pub data LoginResult : Type 0 where
  success : LoginResult
  invalid_credentials : LoginResult
  account_disabled : LoginResult
  account_locked : LoginResult
  account_just_locked : LoginResult

-- The columns of the table `users` on which a login and the roles depend.
pub record UserRow : Type 0 where
  pub id : ℤ
  pub password_hash : String
  pub role : String
  pub status : String
  pub failed_login_count : ℕ

-- What the statement that reads a user gives: an error, no row, or the first row.
pub data Selected : Type 0 where
  sql_error : String → Selected
  no_row : Selected
  row : UserRow → Selected

-- The statements of a login on the table `users`, a value of `S`. The outcome of an update is ignored.
-- An address is missing where NULL is stored.
pub record UserTable (S : Type 0) : Type 0 where
  pub select_user : String → S → Selected
  pub set_locked : ℕ → String → S → S
  pub set_failed_count : ℕ → String → S → S
  pub set_last_login : Option String → String → S → S
  -- The user name, the action, its result and the address.
  pub insert_history : String → String → String → Option String → S → S

-- `ip.isEmpty() ? NULL : ip`
abbrev pub nullable : String → Option String
nullable ip = if ip == "" then none else some ip

-- What a call of `validateUser` leaves: its result, the error text and the table.
pub record LoginAnswer (S : Type 0) : Type 0 where
  pub result : LoginResult
  pub error : String
  pub users : S

abbrev pub answer : {S : Type 0} → LoginResult → String → S → LoginAnswer S
answer result error users = record { result = result; error = error; users = users }

module _ {S : Type 0} (table : UserTable S) (sha256 : String → String) where
  -- "Not match for password."
  unfoldable pub wrong_password : String → ℕ → UserRow → String → S → LoginAnswer S
  wrong_password username max_failed_attempts found error users =
      if eq_ℤ found.id (pos 0)
      then answer invalid_credentials error users
      else (let new_count = found.failed_login_count + 1 in
          if leb max_failed_attempts new_count
          then answer account_just_locked
              "Account locked due to too many failed attempts. Contact administrator."
              (table.set_locked new_count username users)
          else answer invalid_credentials error (table.set_failed_count new_count username users))

  unfoldable pub validate_row : String → String → String → ℕ → UserRow → String → S → LoginAnswer S
  validate_row username password ip max_failed_attempts found error users =
      elim (user_status_from_string found.status) [
        | disabled ↦ answer account_disabled "Account is disabled." users
        | locked ↦ answer account_locked "Account is locked. Contact administrator." users
        | active ↦
            if sha256 password == found.password_hash
            then answer success error (table.set_last_login (nullable ip) username users)
            else wrong_password username max_failed_attempts found error users
      ]

  -- `is_open` is what `isOpen()` gives, `error` the text before the call.
  unfoldable pub validate_user : Bool → String → String → String → ℕ → String → S → LoginAnswer S
  validate_user is_open username password ip max_failed_attempts error users =
      if not is_open
      then answer invalid_credentials "Database is not open." users
      else elim (table.select_user username users) [
        | sql_error text ↦ answer invalid_credentials text users
        | no_row ↦ answer invalid_credentials error users
        | row found ↦ validate_row username password ip max_failed_attempts found error users
      ]

module _ {S : Type 0} (table : UserTable S) where
  -- `insertLoginHistory`, whose outcome no caller looks at.
  unfoldable pub insert_login_history : Bool → String → String → String → String → S → S
  insert_login_history is_open username action result ip users =
      if not is_open then users else table.insert_history username action result (nullable ip) users

  -- `loadUser`: the row of the user, if there is one, and the error text, which is "" before the call.
  unfoldable pub load_user : Bool → String → S → Option UserRow × String
  load_user is_open username users =
      if not is_open
      then (none, "Database is not open.")
      else elim (table.select_user username users) [
        | sql_error text ↦ (none, text)
        | no_row ↦ (none, "")
        | row found ↦ (some found, "")
      ]

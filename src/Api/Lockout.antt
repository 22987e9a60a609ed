-- ===== src/Api/Lockout.antt =====
-- Attempts to log in one after the other, as `ApiServer::handleLogin` passes them to `validateUser`:
-- when an account is locked, and that the default administrator never is. What the statements on
-- `users` promise are hypotheses.
use swr.Base.{
  ℕ, suc, ◌+◌, ◌≤◌, ◌<◌, ◌≡◌, refl, sym, ap, ◌∙◌, String, true, false, List, [], ◌∷◌, length, All,
  arith, ltb, if◌then◌else◌, Bool-cases, inl, inr, ltb→lt,
}
use swr.Base.Int.{pos, eq_ℤ}
use text.Mathlib.Text.{◌==◌}
use swr.Model.Names.{active, locked, user_status_from_string}
use swr.Api.Users.{
  success, invalid_credentials, account_locked, UserRow, row, UserTable, answer, nullable,
  wrong_password, validate_row, validate_user,
}

module _ {S : Type 0} (table : UserTable S) (sha256 : String → String) where
  -- The table after a list of passwords was tried.
  unfoldable pub attempts : String → String → ℕ → String → List String → S → S
  attempts username ip max error [] users = users
  attempts username ip max error (password ∷ passwords) users =
      attempts username ip max error passwords
        (validate_user table sha256 true username password ip max error users).users

  unfoldable pub IsWrong : UserRow → String → Type 0
  IsWrong r password = (sha256 password == r.password_hash) ≡ false

-- A user with a failed count, and one who was locked at a count.
abbrev pub counted : UserRow → ℕ → UserRow
counted r n = record r { failed_login_count = n }

abbrev pub locked_at : UserRow → ℕ → UserRow
locked_at r n = record r { status = "locked"; failed_login_count = n }

not_below : (n m : ℕ) → ltb n m ≡ false → m ≤ n
not_below n m h = ground arith

locked_name : user_status_from_string "locked" ≡ locked
unfolding user_status_from_string
locked_name = refl

-- The row of a user for whom `n` failed attempts are due, where `max` lock the account.
unfoldable pub after_attempts : UserRow → ℕ → ℕ → UserRow
after_attempts r max n = if ltb n max then counted r n else locked_at r max

after_below : (r : UserRow) (max n : ℕ) → n < max → after_attempts r max n ≡ counted r n
unfolding after_attempts
after_below r max n lt = ground arith

after_reached : (r : UserRow) (max n : ℕ) → max ≤ n → after_attempts r max n ≡ locked_at r max
unfolding after_attempts
after_reached r max n le = ground arith

module _ {S : Type 0} (table : UserTable S) (sha256 : String → String) (username ip : String)
    (max : ℕ) (error : String) where
  -- What the two updates promise: the row of the user changes as written.
  unfoldable pub SetsCount : Type 0
  SetsCount =
      (n : ℕ) (users : S) (r : UserRow)
      → table.select_user username users ≡ row r
      → table.select_user username (table.set_failed_count n username users) ≡ row (counted r n)

  unfoldable pub SetsLocked : Type 0
  SetsLocked =
      (n : ℕ) (users : S) (r : UserRow)
      → table.select_user username users ≡ row r
      → table.select_user username (table.set_locked n username users) ≡ row (locked_at r n)

  validate_locked :
      (users : S) (r : UserRow) (password : String)
      → table.select_user username users ≡ row r
      → user_status_from_string r.status ≡ locked
      → (validate_user table sha256 true username password ip max error users
          ≡ answer account_locked "Account is locked. Contact administrator." users)
  unfolding validate_user validate_row
  validate_locked users r password h k = rw (h, validate_row, k)

  validate_wrong :
      (users : S) (r : UserRow) (password : String)
      → table.select_user username users ≡ row r
      → user_status_from_string r.status ≡ active
      → IsWrong table sha256 r password
      → (validate_user table sha256 true username password ip max error users
          ≡ wrong_password table sha256 username max r error users)
  unfolding validate_user validate_row IsWrong
  validate_wrong users r password h k w = rw (h, validate_row, k, w)

  locked_attempts :
      (passwords : List String) (users : S) (r : UserRow)
      → table.select_user username users ≡ row r
      → user_status_from_string r.status ≡ locked
      → attempts table sha256 username ip max error passwords users ≡ users
  unfolding attempts
  locked_attempts [] users r h k = refl
  locked_attempts (password ∷ passwords) users r h k =
      ap (λ a. attempts table sha256 username ip max error passwords a.users)
        (validate_locked users r password h k)
      ∙ locked_attempts passwords users r h k

  wrong_password_locks :
      (users : S) (r : UserRow) (password : String)
      → table.select_user username users ≡ row r
      → user_status_from_string r.status ≡ active
      → eq_ℤ r.id (pos 0) ≡ false
      → IsWrong table sha256 r password
      → max ≤ r.failed_login_count + 1
      → ((validate_user table sha256 true username password ip max error users).users
          ≡ table.set_locked (r.failed_login_count + 1) username users)
  unfolding wrong_password
  wrong_password_locks users r password h k i w le =
      ap (λ a. a.users) (validate_wrong users r password h k w) ∙ ground (arith, i, le)

  wrong_password_counts :
      (users : S) (r : UserRow) (password : String)
      → table.select_user username users ≡ row r
      → user_status_from_string r.status ≡ active
      → eq_ℤ r.id (pos 0) ≡ false
      → IsWrong table sha256 r password
      → r.failed_login_count + 1 < max
      → ((validate_user table sha256 true username password ip max error users).users
          ≡ table.set_failed_count (r.failed_login_count + 1) username users)
  unfolding wrong_password
  wrong_password_counts users r password h k i w lt =
      ap (λ a. a.users) (validate_wrong users r password h k w) ∙ ground (arith, i, lt)

  -- A user who is active and not the default administrator, with fewer failed attempts than allowed,
  -- tries wrong passwords only. Each adds one to the count; the one that reaches `max` locks the
  -- account, and the later ones change nothing.
  pub attempts_count :
      (passwords : List String) (users : S) (r : UserRow)
      → SetsCount
      → SetsLocked
      → table.select_user username users ≡ row r
      → user_status_from_string r.status ≡ active
      → eq_ℤ r.id (pos 0) ≡ false
      → r.failed_login_count < max
      → All (IsWrong table sha256 r) passwords
      → (table.select_user username (attempts table sha256 username ip max error passwords users)
          ≡ row (after_attempts r max (r.failed_login_count + length passwords)))
  unfolding attempts IsWrong SetsCount SetsLocked after_attempts
  attempts_count [] users r c l h k i lt ws =
      h
      ∙ ap row (
          sym (
            after_below r max (r.failed_login_count + 0) (omega arith)
            ∙ ap (counted r) (omega arith)))
  attempts_count (password ∷ passwords) users r c l h k i lt (w, ws) =
      let n = r.failed_login_count + 1 in
      let more = length passwords in
      let step = (λ (a : S).
        table.select_user username (attempts table sha256 username ip max error passwords a)) in
      elim (Bool-cases (ltb n max)) [
        | inl below ↦
            ap step (wrong_password_counts users r password h k i w (ltb→lt n max below))
            ∙ attempts_count passwords (table.set_failed_count n username users) (counted r n) c l
                (c n users r h) k i (ltb→lt n max below) ws
            ∙ ap (λ m. row (after_attempts r max m)) (omega arith)
        | inr reached ↦
            ap step (wrong_password_locks users r password h k i w (not_below n max reached))
            ∙ (ap (table.select_user username) (
                  locked_attempts passwords (table.set_locked n username users) (locked_at r n)
                    (l n users r h) locked_name)
                ∙ (l n users r h
                    ∙ ap row (
                        ap (locked_at r) (omega (arith, not_below n max reached, lt))
                        ∙ sym (
                            after_reached r max (r.failed_login_count + suc more)
                              (omega (arith, not_below n max reached))))))
      ]

  -- For an active user whose id is not 0 and whose count of failed logins is below `max`, in a table whose
  -- statements set the count and the lock: after wrong passwords that bring the count to `max` or
  -- above, every further attempt, with the right password, too, is refused as one on a locked account,
  -- and leaves the table as it is. The default administrator, whose id is 0, is excluded.
  pub attempts_lock :
      (passwords : List String) (password : String) (users : S) (r : UserRow)
      → SetsCount
      → SetsLocked
      → table.select_user username users ≡ row r
      → user_status_from_string r.status ≡ active
      → eq_ℤ r.id (pos 0) ≡ false
      → r.failed_login_count < max
      → max ≤ r.failed_login_count + length passwords
      → All (IsWrong table sha256 r) passwords
      → (validate_user table sha256 true username password ip max error
            (attempts table sha256 username ip max error passwords users)
          ≡ answer account_locked "Account is locked. Contact administrator."
              (attempts table sha256 username ip max error passwords users))
  attempts_lock passwords password users r c l h k i lt le ws =
      validate_locked (attempts table sha256 username ip max error passwords users)
        (locked_at r max) password
        (attempts_count passwords users r c l h k i lt ws
          ∙ ap row (after_reached r max (r.failed_login_count + length passwords) le))
        locked_name

  wrong_password_of_admin :
      (users : S) (r : UserRow) (password : String)
      → table.select_user username users ≡ row r
      → user_status_from_string r.status ≡ active
      → eq_ℤ r.id (pos 0) ≡ true
      → IsWrong table sha256 r password
      → (validate_user table sha256 true username password ip max error users
          ≡ answer invalid_credentials error users)
  unfolding wrong_password
  wrong_password_of_admin users r password h k i w =
      validate_wrong users r password h k w ∙ rw i refl

  admin_attempts :
      (passwords : List String) (users : S) (r : UserRow)
      → table.select_user username users ≡ row r
      → user_status_from_string r.status ≡ active
      → eq_ℤ r.id (pos 0) ≡ true
      → All (IsWrong table sha256 r) passwords
      → attempts table sha256 username ip max error passwords users ≡ users
  unfolding attempts
  admin_attempts [] users r h k i ws = refl
  admin_attempts (password ∷ passwords) users r h k i (w, ws) =
      ap (λ a. attempts table sha256 username ip max error passwords a.users)
        (wrong_password_of_admin users r password h k i w)
      ∙ admin_attempts passwords users r h k i ws

  validate_right :
      (users : S) (r : UserRow) (password : String)
      → table.select_user username users ≡ row r
      → user_status_from_string r.status ≡ active
      → (sha256 password == r.password_hash) ≡ true
      → (validate_user table sha256 true username password ip max error users
          ≡ answer success error (table.set_last_login (nullable ip) username users))
  unfolding validate_user validate_row
  validate_right users r password h k w = rw (h, validate_row, k, w)

  -- The default administrator, who has the id 0 and is active, is let in with the right password
  -- whatever number of wrong ones came before.
  pub admin_never_locked :
      (passwords : List String) (password : String) (users : S) (r : UserRow)
      → table.select_user username users ≡ row r
      → user_status_from_string r.status ≡ active
      → eq_ℤ r.id (pos 0) ≡ true
      → All (IsWrong table sha256 r) passwords
      → (sha256 password == r.password_hash) ≡ true
      → (validate_user table sha256 true username password ip max error
            (attempts table sha256 username ip max error passwords users)
          ≡ answer success error (table.set_last_login (nullable ip) username users))
  admin_never_locked passwords password users r h k i ws w =
      ap (validate_user table sha256 true username password ip max error)
        (admin_attempts passwords users r h k i ws)
      ∙ validate_right users r password h k w

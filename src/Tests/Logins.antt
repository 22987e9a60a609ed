-- ===== src/Tests/Logins.antt =====
-- Logins and sessions with a table of one user.
use swr.Base.{◌≡◌, refl, ap, All, arith, String, true, some, List, [], ◌∷◌, if◌then◌else◌}
use swr.Base.Int.{pos}
use text.Mathlib.Text.{◌==◌}
use swr.Model.Names.{active, user_status_from_string}
use swr.Api.Users.{
  UserRow, Selected, row, no_row, UserTable, answer, account_locked, success, validate_user,
}
use swr.Api.Sessions.{no_sessions, any, require_auth}
use swr.Api.Lockout.{
  SetsCount, SetsLocked, IsWrong, attempts, attempts_lock, admin_never_locked, counted, locked_at,
}
use swr.Api.LastCall.{Call, login, logout, serve_all, last_said, decide, last_call_decides}

-- The table is the row of the user "op" and the history is dropped.
abbrev one_user : UserTable UserRow
one_user = record {
  select_user = λ username r. if username == "op" then row r else no_row;
  set_locked = λ n username r. if username == "op" then locked_at r n else r;
  set_failed_count = λ n username r. if username == "op" then counted r n else r;
  set_last_login = λ ip username r. if username == "op" then counted r 0 else r;
  insert_history = λ username action result ip r. r;
}

abbrev no_hash : String → String
no_hash password = password

abbrev op : UserRow
op = record {
  id = pos 3;
  password_hash = "right";
  role = "user";
  status = "active";
  failed_login_count = 1;
}

abbrev root : UserRow
root = record {
  id = pos 0;
  password_hash = "right";
  role = "admin";
  status = "active";
  failed_login_count = 0;
}

op_active : user_status_from_string "active" ≡ active
unfolding user_status_from_string
op_active = refl

abbrev tries : List String
tries = "a" ∷ ("b" ∷ ("c" ∷ []))

abbrev change : (UserRow → UserRow) → Selected → Selected
change f (row r) = row (f r)
change f selected = selected

op_counts : SetsCount one_user no_hash "op" "" 3 ""
unfolding SetsCount
op_counts n users r e = ap (change (λ a. counted a n)) e

op_locks : SetsLocked one_user no_hash "op" "" 3 ""
unfolding SetsLocked
op_locks n users r e = ap (change (λ a. locked_at a n)) e

op-IsWrong : All (IsWrong one_user no_hash op) tries
unfolding IsWrong
op-IsWrong = (refl, (refl, (refl, tt)))

attempts_lock_example :
    validate_user one_user no_hash true "op" "right" "" 3 ""
      (attempts one_user no_hash "op" "" 3 "" tries op)
    ≡ answer account_locked "Account is locked. Contact administrator."
        (attempts one_user no_hash "op" "" 3 "" tries op)
attempts_lock_example =
    attempts_lock one_user no_hash "op" "" 3 "" tries "right" op op op_counts op_locks refl
      op_active refl (omega arith) (omega arith) op-IsWrong

root-IsWrong : All (IsWrong one_user no_hash root) tries
unfolding IsWrong
root-IsWrong = (refl, (refl, (refl, tt)))

admin_never_locked_example :
    validate_user one_user no_hash true "op" "right" "" 3 ""
      (attempts one_user no_hash "op" "" 3 "" tries root)
    ≡ answer success "" (counted root 0)
admin_never_locked_example =
    admin_never_locked one_user no_hash "op" "" 3 "" tries "right" root root refl op_active refl
      root-IsWrong refl

abbrev calls : List Call
calls =
    login (some ("op", "right")) "" "t1"
    ∷ (login (some ("op", "right")) "" "t2" ∷ (logout "t1" "" ∷ []))

last_call_decides_example :
    require_auth one_user true no_hash "t2" any
      (serve_all one_user true no_hash no_hash 3 calls (no_sessions, op)).0
      (serve_all one_user true no_hash no_hash 3 calls (no_sessions, op)).1
    ≡ decide one_user true no_hash no_hash 3 any
        (serve_all one_user true no_hash no_hash 3 calls (no_sessions, op)).1
        (last_said one_user true no_hash no_hash 3 "t2" calls (no_sessions, op))
last_call_decides_example = last_call_decides one_user true no_hash no_hash 3 "t2" any calls op

-- ===== src/Api/Sessions.antt =====
-- api/ApiServer.cpp: the sessions, and the handlers that open and close them. Json, the headers of a
-- request and the random token of a new session are Qt's: a handler is given what it reads of them.
use swr.Base.{ℕ, String, Bool, true, false, not, Option, none, some, if◌then◌else◌}
use text.Mathlib.Text.{◌==◌}
use swr.Model.Names.{UserRole, user, manager, admin, user_role_from_string}
use swr.Api.Users.{
  success, invalid_credentials, account_disabled, account_locked, account_just_locked, UserRow,
  UserTable, LoginAnswer, validate_user, insert_login_history, load_user,
}

pub data RequiredRole : Type 0 where
  any manager_or_above admin_only : RequiredRole

-- `m_sessions`, a QSet, as its test, and `m_sessionUsers`, a QMap, as its lookup.
pub record Sessions : Type 0 where
  pub contains : String → Bool
  pub user_of : String → Option String

abbrev pub no_sessions : Sessions
no_sessions = record { contains = λ token. false; user_of = λ token. none }

abbrev pub or_empty : Option String → String
or_empty none = ""
or_empty (some username) = username

-- `createSession` with the token that QUuid makes.
unfoldable pub create_session : String → String → Sessions → Sessions
create_session token username s = record {
  contains = λ t. if t == token then true else s.contains t;
  user_of = λ t. if t == token then some username else s.user_of t;
}

-- `removeSession`: the user, or "" for a token that is not known.
unfoldable pub remove_session : String → Sessions → String × Sessions
remove_session token s = (
  or_empty (s.user_of token),
  record {
    contains = λ t. if t == token then false else s.contains t;
    user_of = λ t. if t == token then none else s.user_of t;
  },
)

-- What a handler answers.
pub data Response : Type 0 where
  ok_response : Response
  ok_token : String → Response
  bad_request : Response
  unauthorized : Response
  forbidden : String → Response

-- The role that a user has against the one that a request needs.
unfoldable pub check_role : RequiredRole → UserRole → Option Response
check_role any role = none
check_role manager_or_above user = some (forbidden "Manager or Admin role required")
check_role manager_or_above manager = none
check_role manager_or_above admin = none
check_role admin_only user = some (forbidden "Admin role required")
check_role admin_only manager = some (forbidden "Admin role required")
check_role admin_only admin = none

-- `!found || !dbError.isEmpty()`
unfoldable pub role_of_loaded : RequiredRole → Option UserRow × String → Option Response
role_of_loaded required (none, error) = some unauthorized
role_of_loaded required (some found, error) =
    if error == ""
    then check_role required (user_role_from_string found.role)
    else some unauthorized

module _ {S : Type 0} (table : UserTable S) (is_open : Bool) (token_of : String → String) where
  -- The second half of `requireAuth`, for a session that is known.
  unfoldable pub authorize : RequiredRole → String → S → Option Response
  authorize any username users = none
  authorize manager_or_above username users =
      role_of_loaded manager_or_above (load_user table is_open username users)
  authorize admin_only username users =
      role_of_loaded admin_only (load_user table is_open username users)

  -- `requireAuth`: `none` lets the request through. `token_of` takes "Bearer " and the spaces at both
  -- ends away from the header.
  unfoldable pub require_auth : String → RequiredRole → Sessions → S → Option Response
  require_auth auth required s users =
      if auth == ""
      then some unauthorized
      else if not (s.contains (token_of auth))
      then some unauthorized
      else authorize required (or_empty (s.user_of (token_of auth))) users

  -- `handleSession`
  unfoldable pub handle_session : String → Sessions → S → Response
  handle_session auth s users = elim (require_auth auth any s users) [
    | none ↦ ok_response
    | some refused ↦ refused
  ]

  -- `handleLogout`
  unfoldable pub handle_logout : String → String → Sessions × S → Response × (Sessions × S)
  handle_logout auth ip (s, users) =
      let (username, s2) = remove_session (token_of auth) s in
      if username == "" then (ok_response, (s2, users)) else (
        ok_response,
        (s2, insert_login_history table is_open username "logout" "success" ip users),
      )

module _ {S : Type 0} (table : UserTable S) (is_open : Bool) (sha256 : String → String)
    (max_failed_attempts : ℕ) where
  -- The history of a login, and a refusal.
  unfoldable pub refuse :
      Response → String → String → String → Sessions × S → Response × (Sessions × S)
  refuse response result username ip (s, users) =
      (response, (s, insert_login_history table is_open username "login" result ip users))

  unfoldable pub answer_login :
      String → String → String → Sessions → LoginAnswer S → Response × (Sessions × S)
  answer_login username ip token s a = elim a.result [
    | success ↦ (
      ok_token token,
      (
        create_session token username s,
        insert_login_history table is_open username "login" "success" ip a.users,
      ),
    )
    | account_disabled ↦
        refuse (forbidden "Account is disabled.") "account_disabled" username ip (s, a.users)
    | account_locked ↦
        refuse (forbidden "Account is locked. Contact administrator.") "account_locked" username ip
          (s, a.users)
    | account_just_locked ↦
        refuse (forbidden "Account is locked. Contact administrator.") "account_locked" username ip
          (s, a.users)
    | invalid_credentials ↦ refuse unauthorized "invalid_password" username ip (s, a.users)
  ]

  -- `handleLogin`: the user name and the password of the body, where it is an object.
  unfoldable pub handle_login :
      Option (String × String) → String → String → Sessions × S → Response × (Sessions × S)
  handle_login none ip token (s, users) = (bad_request, (s, users))
  handle_login (some (username, password)) ip token (s, users) =
      answer_login username ip token s
        (validate_user table sha256 is_open username password ip max_failed_attempts "" users)

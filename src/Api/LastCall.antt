-- ===== src/Api/LastCall.antt =====
-- api/ApiServer.cpp: logins and logouts one after the other, and which of them decides whether a later
-- request is let through.
use swr.Base.{
  ℕ, String, Bool, true, false, not, Option, none, some, List, [], ◌∷◌, ◌≡◌, refl, ap, ◌∙◌,
  if◌then◌else◌, Bool-cases, inl, inr,
}
use text.Mathlib.Text.{◌==◌}
use swr.Api.Users.{LoginResult, success, UserTable, validate_user}
use swr.Api.Sessions.{
  Sessions, no_sessions, or_empty, create_session, remove_session, Response, ok_token, unauthorized,
  RequiredRole, authorize, require_auth, handle_logout, refuse, answer_login, handle_login,
}

-- A login has a body, an address and the token that would be made; a logout a header and an address.
pub data Call : Type 0 where
  login : Option (String × String) → String → String → Call
  logout : String → String → Call

-- What a call and its answer say of the session `t`: nothing, opened for a user, or closed.
unfoldable pub said_by_login : String → Option (String × String) → Response → Option (Option String)
said_by_login t (some (username, password)) (ok_token token) =
    if t == token then some (some username) else none
said_by_login t body _ = none

abbrev pub latest_or : Option (Option String) → Option (Option String) → Option (Option String)
latest_or none before = before
latest_or (some said) before = some said

abbrev pub user_after : Option String → Option (Option String) → Option String
user_after before none = before
user_after before (some said) = said

abbrev pub is_some : Option String → Bool
is_some none = false
is_some (some username) = true

pick_user :
    (b : Bool) (o before : Option String)
    → ((if b then o else before) ≡ user_after before (if b then some o else none))
pick_user true o before = refl
pick_user false o before = refl

latest_user_after :
    (later said : Option (Option String)) (before : Option String)
    → (user_after (user_after before said) later ≡ user_after before (latest_or later said))
latest_user_after none said before = refl
latest_user_after (some o) said before = refl

-- `m_sessions` and `m_sessionUsers` have the same tokens.
pub ArePaired : Sessions → Type 0
ArePaired s = (t : String) → s.contains t ≡ is_some (s.user_of t)

create_session-ArePaired :
    (token username : String) (s : Sessions)
    → ArePaired s
    → ArePaired (create_session token username s)
unfolding ArePaired create_session
create_session-ArePaired token username s p t = elim (Bool-cases (t == token)) [
  | inl e ↦ rw e refl
  | inr e ↦ rw e (p t)
]

remove_session-ArePaired :
    (token : String) (s : Sessions) → ArePaired s → ArePaired (remove_session token s).1
unfolding ArePaired remove_session
remove_session-ArePaired token s p t = elim (Bool-cases (t == token)) [
  | inl e ↦ rw e refl
  | inr e ↦ rw e (p t)
]

none_paired : ArePaired no_sessions
unfolding ArePaired
none_paired t = refl

module _ {S : Type 0} (table : UserTable S) (is_open : Bool) (sha256 token_of : String → String)
    (max : ℕ) where
  unfoldable pub serve : Call → Sessions × S → Response × (Sessions × S)
  serve (login body ip token) st = handle_login table is_open sha256 max body ip token st
  serve (logout auth ip) st = handle_logout table is_open token_of auth ip st

  unfoldable pub serve_all : List Call → Sessions × S → Sessions × S
  serve_all [] st = st
  serve_all (call ∷ calls) st = serve_all calls (serve call st).1

  unfoldable pub said_by : String → Call → Response → Option (Option String)
  said_by t (login body ip token) answered = said_by_login t body answered
  said_by t (logout auth ip) answered = if t == token_of auth then some none else none

  -- What the last call that says something of `t` says.
  unfoldable pub last_said : String → List Call → Sessions × S → Option (Option String)
  last_said t [] st = none
  last_said t (call ∷ calls) st =
      let (answered, st2) = serve call st in
      latest_or (last_said t calls st2) (said_by t call answered)

  answer_login_user :
      (t username password ip token : String) (s : Sessions) (r : LoginResult) (error : String)
      (users : S)
      → (let a =
            answer_login table is_open sha256 max username ip token s
              (record { result = r; error = error; users = users }) in
          a.1.0.user_of t
          ≡ user_after (s.user_of t) (said_by_login t (some (username, password)) a.0))
  unfolding answer_login said_by_login refuse create_session
  answer_login_user t username password ip token s success error users =
      pick_user (t == token) (some username) (s.user_of t)
  answer_login_user t username password ip token s r error users = refl

  -- The user of a session after one call.
  handle_logout_user :
      (t auth ip : String) (st : Sessions × S)
      → ((handle_logout table is_open token_of auth ip st).1.0.user_of t
          ≡ user_after (st.0.user_of t) (if t == token_of auth then some none else none))
  unfolding handle_logout remove_session
  handle_logout_user t auth ip (s, users) =
      elim (Bool-cases (or_empty (s.user_of (token_of auth)) == "")) [
        | inl e ↦ rw e (pick_user (t == token_of auth) none (s.user_of t))
        | inr e ↦ rw e (pick_user (t == token_of auth) none (s.user_of t))
      ]

  serve_user :
      (t : String) (call : Call) (st : Sessions × S)
      → ((serve call st).1.0.user_of t
          ≡ user_after (st.0.user_of t) (said_by t call (serve call st).0))
  unfolding serve said_by handle_login said_by_login
  serve_user t (login none ip token) (s, users) = refl
  serve_user t (login (some (username, password)) ip token) (s, users) =
      let a = validate_user table sha256 is_open username password ip max "" users in
      answer_login_user t username password ip token s a.result a.error a.users
  serve_user t (logout auth ip) st = handle_logout_user t auth ip st

  serve_all_user :
      (t : String) (calls : List Call) (st : Sessions × S)
      → ((serve_all calls st).0.user_of t ≡ user_after (st.0.user_of t) (last_said t calls st))
  unfolding serve_all last_said
  serve_all_user t [] st = refl
  serve_all_user t (call ∷ calls) st =
      serve_all_user t calls (serve call st).1
      ∙ ap (λ u. user_after u (last_said t calls (serve call st).1)) (serve_user t call st)
      ∙ latest_user_after (last_said t calls (serve call st).1) (said_by t call (serve call st).0)
          (st.0.user_of t)

  answer_login-ArePaired :
      (username ip token : String) (s : Sessions) (r : LoginResult) (error : String) (users : S)
      → ArePaired s
      → ArePaired
          (answer_login table is_open sha256 max username ip token s
            (record { result = r; error = error; users = users })).1.0
  unfolding answer_login refuse
  answer_login-ArePaired username ip token s success error users p =
      create_session-ArePaired token username s p
  answer_login-ArePaired username ip token s r error users p = p

  handle_logout-ArePaired :
      (auth ip : String) (st : Sessions × S)
      → ArePaired st.0
      → ArePaired (handle_logout table is_open token_of auth ip st).1.0
  unfolding handle_logout
  handle_logout-ArePaired auth ip (s, users) p =
      elim (Bool-cases ((remove_session (token_of auth) s).0 == "")) [
        | inl e ↦ rw e (remove_session-ArePaired (token_of auth) s p)
        | inr e ↦ rw e (remove_session-ArePaired (token_of auth) s p)
      ]

  serve-ArePaired :
      (call : Call) (st : Sessions × S) → ArePaired st.0 → ArePaired (serve call st).1.0
  unfolding serve handle_login
  serve-ArePaired (login none ip token) (s, users) p = p
  serve-ArePaired (login (some (username, password)) ip token) (s, users) p =
      let a = validate_user table sha256 is_open username password ip max "" users in
      answer_login-ArePaired username ip token s a.result a.error a.users p
  serve-ArePaired (logout auth ip) st p = handle_logout-ArePaired auth ip st p

  serve_all-ArePaired :
      (calls : List Call) (st : Sessions × S) → ArePaired st.0 → ArePaired (serve_all calls st).0
  unfolding serve_all
  serve_all-ArePaired [] st p = p
  serve_all-ArePaired (call ∷ calls) st p =
      serve_all-ArePaired calls (serve call st).1 (serve-ArePaired call st p)

  -- What a request of a session needs, by what was last said of it.
  unfoldable pub decide : RequiredRole → S → Option (Option String) → Option Response
  decide required users (some (some username)) =
      authorize table is_open token_of required username users
  decide required users _ = some unauthorized

  decide_known :
      (required : RequiredRole) (s : Sessions) (t : String) (users : S)
      (said : Option (Option String))
      → ArePaired s
      → s.user_of t ≡ user_after none said
      → ((if not (s.contains t)
            then some unauthorized
            else authorize table is_open token_of required (or_empty (s.user_of t)) users)
          ≡ decide required users said)
  unfolding decide ArePaired
  decide_known required s t users none p e = rw (p t, e) refl
  decide_known required s t users (some none) p e = rw (p t, e) refl
  decide_known required s t users (some (some username)) p e = rw (p t, e) refl

  -- After any logins and logouts of a server that starts without sessions, a request passes the check of
  -- its session when the last call that opened or closed its token opened it, and is then held to
  -- the role of the user who logged in; in every other case it is refused as unauthorized.
  pub last_call_decides :
      (auth : String) (required : RequiredRole) (calls : List Call) (users : S)
      → (require_auth table is_open token_of auth required
            (serve_all calls (no_sessions, users)).0
            (serve_all calls (no_sessions, users)).1
          ≡ (if auth == ""
              then some unauthorized
              else decide required
                  (serve_all calls (no_sessions, users)).1
                  (last_said (token_of auth) calls (no_sessions, users))))
  unfolding require_auth
  last_call_decides auth required calls users =
      ap (λ refused. if auth == "" then some unauthorized else refused)
        (decide_known required (serve_all calls (no_sessions, users)).0 (token_of auth)
          (serve_all calls (no_sessions, users)).1
          (last_said (token_of auth) calls (no_sessions, users))
          (serve_all-ArePaired calls (no_sessions, users) none_paired)
          (serve_all_user (token_of auth) calls (no_sessions, users)))

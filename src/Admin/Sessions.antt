-- ===== src/Admin/Sessions.antt =====
-- internal/httpapi/admin.go: login, logout, changePassword, logoutAll and authenticate. An answer of
-- the database that is an error, random bytes and new hashes are arguments; the clock is read once for
-- each request. The cookies that an answer sets are left out.
use llm_security_audit_gatew.Base.{
  ℕ, ◌+◌, String, [], ◌∷◌, Option, none, some, Bool, true, false, not, ltb, length, if◌then◌else◌,
  Bytes,
}
use llm_security_audit_gatew.Base.Result.{Result, ok, err}
use llm_security_audit_gatew.Admin.Accounts.{
  AdminUser, Accounts, AccountError, user_named, get_admin_session, create_admin_session,
  revoke_admin_session, revoke_admin_sessions, update_admin_password,
}
use llm_security_audit_gatew.Httpapi.AuthThrottle
use llm_security_audit_gatew.Httpapi.AuthThrottle.{AuthThrottle}
use llm_security_audit_gatew.Httpapi.LoginGuard
use llm_security_audit_gatew.Httpapi.LoginGuard.{LoginGuard}

-- `has_repo` is whether `Repo` is set; `session_ttl` is what `sessionTTL` gives.
pub record Admin : Type 0 where
  pub has_repo : Bool
  pub throttle : AuthThrottle
  pub logins : LoginGuard
  pub session_ttl : ℕ
  pub accounts : Accounts

-- A request: the address of the client, its session cookie ([] for none) and the user that
-- `authenticate` left; the body is `none` where it does not parse.
pub record Request (Body : Type 0) : Type 0 where
  pub ip : String
  pub session_cookie : Bytes
  pub admin_user : Option AdminUser
  pub body : Option Body

-- What the database, the random source and bcrypt answer to one request.
pub record Services : Type 0 where
  pub user_error : Bool
  pub token : Option Bytes
  pub csrf_token : Option Bytes
  pub session_error : Bool
  pub new_hash : Option Bytes
  pub update_error : Bool
  pub revoke_error : Bool

-- `failed` is the answer of `fail`, whichever code it picks.
pub data Answer : Type 0 where
  unavailable : Answer
  throttled : Answer
  bad_request : Answer
  unauthorized : Answer
  failed : Answer
  no_content : Answer
  signed_in : AdminUser → Bytes → Bytes → Answer

-- The answer, the state behind it and the outcome that `emitOperation` records.
pub record Outcome : Type 0 where
  pub answer : Answer
  pub admin : Admin
  pub operation : Option String

abbrev pub answered : Answer → Option String → Admin → Outcome
answered answer operation a = record { answer = answer; admin = a; operation = operation }

-- `GetAdminUser`: a name that is not there is an error too.
abbrev pub get_admin_user : Bool → String → Accounts → Option AdminUser
get_admin_user true username accounts = none
get_admin_user false username accounts = user_named username accounts.users

-- `strings.ToLower`, bcrypt's comparison of a hash with a password, and `sessionHash`.
module _ (to_lower : String → String) (verify : Bytes → Bytes → Bool)
    (session_hash : Bytes → Bytes) where
  -- `sessionUser`.
  unfoldable pub session_user : Bool → ℕ → Bytes → Admin → Option AdminUser
  session_user failing now [] a = none
  session_user true now (b ∷ cookie) a = none
  session_user false now (b ∷ cookie) a =
      get_admin_session now (session_hash (b ∷ cookie)) a.accounts

  unfoldable pub login_failed : ℕ → String → String → Admin → Outcome
  login_failed now ip username a = answered unauthorized (some "failure") (record a {
    throttle = AuthThrottle.fail now ip a.throttle;
    logins = LoginGuard.fail to_lower now username a.logins;
  })

  abbrev pub start_session : ℕ → Bool → AdminUser → Option Bytes → Option Bytes → Admin → Outcome
  start_session now failing user none csrf_token a = answered failed none a
  start_session now failing user (some token) none a = answered failed none a
  start_session now true user (some token) (some csrf_token) a = answered failed none a
  start_session now false user (some token) (some csrf_token) a =
      answered (signed_in user token csrf_token) (some "success") (record a {
        accounts =
            create_admin_session user.id (session_hash token) (now + a.session_ttl) a.accounts;
      })

  abbrev pub check_user :
      ℕ → Services → String → String → Bytes → Option AdminUser → Admin → Outcome
  check_user now s ip username password none a = login_failed now ip username a
  check_user now s ip username password (some user) a =
      if verify user.password_hash password
      then start_session now s.session_error user s.token s.csrf_token
          (record a { logins = LoginGuard.succeed to_lower username a.logins })
      else login_failed now ip username a

  abbrev pub check_body : ℕ → Services → String → Option (String × Bytes) → Admin → Outcome
  check_body now s ip none a = answered bad_request none a
  check_body now s ip (some (username, password)) a =
      if LoginGuard.blocked to_lower now username a.logins
      then answered throttled (some "throttled") a
      else check_user now s ip username password (get_admin_user s.user_error username a.accounts) a

  abbrev pub check_address :
      ℕ → Services → Request (String × Bytes) → AuthThrottle × Bool → Admin → Outcome
  check_address now s r (throttle, true) a =
      answered throttled none (record a { throttle = throttle })
  check_address now s r (throttle, false) a =
      check_body now s r.ip r.body (record a { throttle = throttle })

  unfoldable pub login : ℕ → Services → Request (String × Bytes) → Admin → Outcome
  unfolding login_failed
  login now s r a =
      if not a.has_repo
      then answered unavailable none a
      else check_address now s r (AuthThrottle.blocked now r.ip a.throttle) a

  abbrev pub authenticated : Option AdminUser → Result Answer AdminUser
  authenticated none = err unauthorized
  authenticated (some user) = ok user

  -- `authenticate`: the user that the handlers behind it find, or the answer that ends the request.
  unfoldable pub authenticate : Bool → ℕ → Bytes → Admin → Result Answer AdminUser
  unfolding session_user
  authenticate failing now cookie a =
      if not a.has_repo then err unavailable else authenticated (session_user failing now cookie a)

  -- `logout`; the session of a logout that fails stays.
  abbrev pub logout_with : ℕ → Services → Bytes → Admin → Outcome
  logout_with now s [] a = answered no_content (some "success") a
  logout_with now s (b ∷ token) a =
      if not a.has_repo
      then answered no_content (some "success") a
      else if s.revoke_error
      then answered failed none a
      else answered no_content (some "success")
          (record a { accounts = revoke_admin_session now (session_hash (b ∷ token)) a.accounts })

  unfoldable pub logout : ℕ → Services → Request Unit → Admin → Outcome
  logout now s r a = logout_with now s r.session_cookie a

  -- The session that a change of the password spares.
  abbrev pub kept : Bytes → Option Bytes
  kept [] = none
  kept (b ∷ token) = some (session_hash (b ∷ token))

  abbrev pub revoke_others :
      ℕ → Services → Bytes → AdminUser → Admin → Result AccountError Accounts → Outcome
  revoke_others now s cookie user a (err e) = answered failed none a
  revoke_others now s cookie user a (ok accounts) =
      if s.revoke_error
      then answered failed none (record a { accounts = accounts })
      else answered no_content (some "success")
          (record a { accounts = revoke_admin_sessions now user.id (kept cookie) accounts })

  abbrev pub store_hash : ℕ → Services → Bytes → AdminUser → Option Bytes → Admin → Outcome
  store_hash now s cookie user none a = answered failed none a
  store_hash now s cookie user (some hash) a =
      if s.update_error
      then answered failed none a
      else revoke_others now s cookie user a (update_admin_password user.id hash a.accounts)

  abbrev pub check_current : Bytes → Option AdminUser → Bool
  check_current password none = false
  check_current password (some user) = verify user.password_hash password

  abbrev pub change_of : ℕ → Services → Bytes → AdminUser → Option (Bytes × Bytes) → Admin → Outcome
  change_of now s cookie user none a = answered bad_request none a
  change_of now s cookie user (some (current, new)) a =
      if ltb (length new) 12
      then answered bad_request none a
      else if not (check_current current (get_admin_user s.user_error user.username a.accounts))
      then answered unauthorized none a
      else store_hash now s cookie user s.new_hash a

  abbrev pub change_by : ℕ → Services → Request (Bytes × Bytes) → Option AdminUser → Admin → Outcome
  change_by now s r none a = answered unauthorized none a
  change_by now s r (some user) a = change_of now s r.session_cookie user r.body a

  unfoldable pub change_password : ℕ → Services → Request (Bytes × Bytes) → Admin → Outcome
  change_password now s r a =
      if not a.has_repo then answered unavailable none a else change_by now s r r.admin_user a

  abbrev pub logout_by : ℕ → Services → Option AdminUser → Admin → Outcome
  logout_by now s none a = answered unauthorized none a
  logout_by now s (some user) a =
      if s.revoke_error
      then answered failed none a
      else answered no_content (some "success")
          (record a { accounts = revoke_admin_sessions now user.id none a.accounts })

  unfoldable pub logout_all : ℕ → Services → Request Unit → Admin → Outcome
  logout_all now s r a =
      if not a.has_repo then answered unavailable none a else logout_by now s r.admin_user a

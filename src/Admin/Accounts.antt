-- ===== src/Admin/Accounts.antt =====
-- internal/storage/admin_upstreams.go: the tables of administrators and of their sessions. New ids
-- and `now()` are arguments.
use llm_security_audit_gatew.Base.{
  ℕ, String, List, [], ◌∷◌, ◌++◌, map, Option, none, some, Bool, true, false, not, ◌&&◌, ◌||◌, ltb,
  str_eq, if◌then◌else◌, Bytes,
}
use llm_security_audit_gatew.Base.Result.{Result, ok, err}
use llm_security_audit_gatew.Stream.Events.{bytes_eq}

pub record AdminUser : Type 0 where
  pub id : String
  pub username : String
  pub password_hash : Bytes

pub record AdminSession : Type 0 where
  pub admin_user_id : String
  pub token_hash : Bytes
  pub expires_at : ℕ
  pub revoked_at : Option ℕ

pub record Accounts : Type 0 where
  pub users : List AdminUser
  pub sessions : List AdminSession

pub data AccountError : Type 0 where
  invalid_username : AccountError
  duplicate_admin_username : AccountError
  not_found : AccountError

abbrev pub user_named : String → List AdminUser → Option AdminUser
user_named name [] = none
user_named name (user ∷ users) =
    if str_eq user.username name then some user else user_named name users

abbrev pub user_with : String → List AdminUser → Option AdminUser
user_with id [] = none
user_with id (user ∷ users) = if str_eq user.id id then some user else user_with id users

abbrev pub insert_user :
    AdminUser → Accounts → Option AdminUser → Result AccountError AdminUser × Accounts
insert_user user a (some other) = (err duplicate_admin_username, a)
insert_user user a none = (ok user, record a { users = a.users ++ (user ∷ []) })

-- `CreateAdminUser`; `trimmed` is the username trimmed, `size` its length in bytes.
unfoldable pub create_admin_user :
    String → String → ℕ → Bytes → Accounts → Result AccountError AdminUser × Accounts
create_admin_user id trimmed size password_hash a =
    if str_eq trimmed "" || ltb 128 size
    then (err invalid_username, a)
    else insert_user (record { id = id; username = trimmed; password_hash = password_hash }) a
        (user_named trimmed a.users)

abbrev pub unrevoked : Option ℕ → Bool
unrevoked none = true
unrevoked (some at) = false

-- `revoked_at IS NULL AND expires_at > now()`.
abbrev pub is_live : ℕ → AdminSession → Bool
is_live now session = unrevoked session.revoked_at && ltb now session.expires_at

unfoldable pub session_of : ℕ → Bytes → List AdminSession → Option AdminSession
session_of now token_hash [] = none
session_of now token_hash (session ∷ sessions) =
    if bytes_eq session.token_hash token_hash && is_live now session
    then some session
    else session_of now token_hash sessions

abbrev pub user_of : List AdminUser → Option AdminSession → Option AdminUser
user_of users none = none
user_of users (some session) = user_with session.admin_user_id users

-- `GetAdminSession`: the user of the live session.
unfoldable pub get_admin_session : ℕ → Bytes → Accounts → Option AdminUser
unfolding session_of
get_admin_session now token_hash a = user_of a.users (session_of now token_hash a.sessions)

unfoldable pub create_admin_session : String → Bytes → ℕ → Accounts → Accounts
create_admin_session user_id token_hash expires_at a = record a {
  sessions =
      a.sessions
      ++ (record {
        admin_user_id = user_id;
        token_hash = token_hash;
        expires_at = expires_at;
        revoked_at = none;
      }
          ∷ []);
}

-- `COALESCE(revoked_at, now())`.
abbrev pub revoked_since : ℕ → Option ℕ → Option ℕ
revoked_since now none = some now
revoked_since now (some at) = some at

abbrev pub revoke : ℕ → AdminSession → AdminSession
revoke now session = record session { revoked_at = revoked_since now session.revoked_at }

-- `RevokeAdminSession`.
unfoldable pub revoke_admin_session : ℕ → Bytes → Accounts → Accounts
revoke_admin_session now token_hash a = record a {
  sessions =
      map
        (λ (session : AdminSession).
          if bytes_eq session.token_hash token_hash then revoke now session else session)
        a.sessions;
}

-- `$2::bytea IS NULL OR token_hash <> $2`.
abbrev pub is_other : Option Bytes → AdminSession → Bool
is_other none session = true
is_other (some kept) session = not (bytes_eq session.token_hash kept)

abbrev pub is_revoked_by : String → Option Bytes → AdminSession → Bool
is_revoked_by user_id kept session =
    str_eq session.admin_user_id user_id && unrevoked session.revoked_at && is_other kept session

abbrev pub revoke_of : ℕ → String → Option Bytes → AdminSession → AdminSession
revoke_of now user_id kept session =
    if is_revoked_by user_id kept session then revoke now session else session

-- `RevokeAdminSessions`.
unfoldable pub revoke_admin_sessions : ℕ → String → Option Bytes → Accounts → Accounts
revoke_admin_sessions now user_id kept a = record a {
  sessions = map (revoke_of now user_id kept) a.sessions;
}

abbrev pub password_row : String → Bytes → AdminUser → AdminUser
password_row user_id hash user =
    if str_eq user.id user_id then record user { password_hash = hash } else user

-- `UpdateAdminPassword`; an update of no row is an error.
abbrev pub update_found :
    String → Bytes → Accounts → Option AdminUser → Result AccountError Accounts
update_found user_id hash a none = err not_found
update_found user_id hash a (some user) =
    ok (record a { users = map (password_row user_id hash) a.users })

unfoldable pub update_admin_password : String → Bytes → Accounts → Result AccountError Accounts
update_admin_password user_id hash a = update_found user_id hash a (user_with user_id a.users)

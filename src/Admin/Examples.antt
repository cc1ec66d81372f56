-- ===== src/Admin/Examples.antt =====
-- internal/httpapi/admin.go: the properties at one administrator with two sessions.
use llm_security_audit_gatew.Base.{
  Option, str_eq, if◌then◌else◌, ◌≡◌, refl, String, [], ◌∷◌, none, some, true, false, Bytes, pos,
}
use llm_security_audit_gatew.Stream.Events.{bytes_eq}
use llm_security_audit_gatew.Httpapi.AuthThrottle.{new_auth_throttle}
use llm_security_audit_gatew.Httpapi.LoginGuard.{new_login_guard}
use llm_security_audit_gatew.Admin.Accounts.{
  AdminUser, AdminSession, session_of, get_admin_session, revoke_admin_sessions,
  update_admin_password,
}
use llm_security_audit_gatew.Admin.Sessions.{
  Admin, Request, Services, login, session_user, authenticate, change_password,
}
use llm_security_audit_gatew.Admin.Csrf.{Origin, Write, is_trusted, origin_allowed, csrf}
use llm_security_audit_gatew.Admin.Csrf.Guard.{Genuine, csrf-Genuine}
use llm_security_audit_gatew.Admin.Login.{Earned, login-Earned}
use llm_security_audit_gatew.Admin.Passwords.{change_password-Evicts}

abbrev same : String → String
same name = name

abbrev hash : Bytes → Bytes
hash token = 9 ∷ token

abbrev root : AdminUser
root = record { id = "u1"; username = "root"; password_hash = 1 ∷ 2 ∷ [] }

abbrev session : Bytes → AdminSession
session token = record {
  admin_user_id = "u1";
  token_hash = hash token;
  expires_at = 1000;
  revoked_at = none;
}

abbrev office : Admin
office = record {
  has_repo = true;
  throttle = new_auth_throttle 5 60;
  logins = new_login_guard (pos 5) (pos 900);
  session_ttl = 500;
  accounts = record { users = root ∷ []; sessions = session (4 ∷ []) ∷ session (5 ∷ []) ∷ [] };
}

abbrev working : Services
working = record {
  user_error = false;
  token = some (6 ∷ []);
  csrf_token = some (7 ∷ []);
  session_error = false;
  new_hash = some (3 ∷ []);
  update_error = false;
  revoke_error = false;
}

abbrev sign_in : Request (String × Bytes)
sign_in = record {
  ip = "192.0.2.1";
  session_cookie = [];
  admin_user = none;
  body = some ("root", 1 ∷ 2 ∷ []);
}

login-Earned_example :
    Earned same bytes_eq hash 10 sign_in office
      (login same bytes_eq hash 10 working sign_in office).answer
      (login same bytes_eq hash 10 working sign_in office).admin
login-Earned_example = login-Earned same bytes_eq hash 10 working sign_in office

abbrev change : Request (Bytes × Bytes)
change = record {
  ip = "192.0.2.1";
  session_cookie = 4 ∷ [];
  admin_user = some root;
  body = some (1 ∷ 2 ∷ [], 1 ∷ 1 ∷ 1 ∷ 1 ∷ 1 ∷ 1 ∷ 1 ∷ 1 ∷ 1 ∷ 1 ∷ 1 ∷ 1 ∷ []);
}

abbrev renewed : AdminUser
renewed = record root { password_hash = 3 ∷ [] }

change_password-Evicts_example : some (hash (4 ∷ [])) ≡ some (hash (4 ∷ []))
unfolding change_password authenticate session_user get_admin_session session_of
    revoke_admin_sessions update_admin_password
change_password-Evicts_example =
    change_password-Evicts same bytes_eq hash 20 30 working change office (4 ∷ []) root renewed refl
      refl refl refl

abbrev console : Origin
console = record { scheme = "https"; host = "console.example" }

abbrev parse_console : String → Option Origin
parse_console text = if str_eq text "https://console.example" then some console else none

abbrev posting : Write
posting = record {
  method = "POST";
  origin = "https://console.example";
  host = "gateway";
  forwarded_host = "evil.example";
  forwarded_proto = "";
  protocol = "http";
  csrf_cookie = "";
  csrf_header = "";
}

csrf-Genuine_example : Genuine parse_console same str_eq ("https://console.example" ∷ []) posting
unfolding csrf origin_allowed is_trusted
csrf-Genuine_example =
    csrf-Genuine parse_console same str_eq ("https://console.example" ∷ []) posting refl

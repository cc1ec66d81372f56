-- ===== src/Admin/Passwords.antt =====
-- internal/httpapi/admin.go: a change of the password and what it leaves.
use llm_security_audit_gatew.Base.{
  ◌≡◌, ◌≢◌, refl, sym, subst, ap, ◌∙◌, ℕ, String, List, [], ◌∷◌, Option, none, some, Bool, true,
  false, not, Bool-cases, inl, inr, Bytes, ltb, length, if◌then◌else◌,
}
use llm_security_audit_gatew.Admin.Revocation.{revoke_admin_sessions-Spared}
use llm_security_audit_gatew.Admin.Sessions.{
  Admin, Request, Services, Answer, Outcome, get_admin_user, revoke_others, store_hash,
  check_current, change_of, change_by, change_password, kept, authenticate, authenticated,
  no_content, unavailable, unauthorized, answered,
}
use llm_security_audit_gatew.Base.Result.{Result, ok, err}
use llm_security_audit_gatew.Admin.Accounts.{
  AdminUser, AdminSession, Accounts, AccountError, user_with, update_found, update_admin_password,
  get_admin_session, revoke_admin_sessions,
}

module _ (to_lower : String → String) (verify : Bytes → Bytes → Bool)
    (session_hash : Bytes → Bytes) where
  -- The old password was given, its hash is replaced, and the sessions but the caller's are revoked.
  pub record Changed (now : ℕ) (s : Services) (r : Request (Bytes × Bytes)) (a after : Admin)
      : Type 0 where
    pub user : AdminUser
    pub stored : AdminUser
    pub current : Bytes
    pub replacement : Bytes
    pub hash : Bytes
    pub accounts : Accounts
    pub caller : r.admin_user ≡ some user
    pub reads : r.body ≡ some (current, replacement)
    pub known : get_admin_user s.user_error user.username a.accounts ≡ some stored
    pub verified : verify stored.password_hash current ≡ true
    pub hashed : s.new_hash ≡ some hash
    pub updated : update_admin_password user.id hash a.accounts ≡ ok accounts
    pub revoked :
        after.accounts
        ≡ revoke_admin_sessions now user.id
            (kept to_lower verify session_hash r.session_cookie)
            accounts

  -- A change without the answer `no_content` revokes no session.
  abbrev pub Settled : ℕ → Services → Request (Bytes × Bytes) → Admin → Answer → Admin → Type 0
  Settled now s r a no_content after = Changed now s r a after
  Settled now s r a answer after = after.accounts.sessions ≡ a.accounts.sessions

  module _ (now : ℕ) (s : Services) (r : Request (Bytes × Bytes)) (a : Admin) where
    abbrev Fair : Outcome → Type 0
    Fair o = Settled now s r a o.answer o.admin

    update-sessions :
        (id : String) (hash : Bytes) (found : Option AdminUser) (accounts : Accounts)
        → update_found id hash a.accounts found ≡ ok accounts
        → accounts.sessions ≡ a.accounts.sessions
    update-sessions id hash none accounts e = absurd cc
    update-sessions id hash (some user) accounts e = sym (ap sessions_of e)
      where
        sessions_of : Result AccountError Accounts → List AdminSession
        sessions_of (err e) = a.accounts.sessions
        sessions_of (ok accounts) = accounts.sessions

    module _ (user stored : AdminUser) (current replacement : Bytes)
        (caller : r.admin_user ≡ some user) (reads : r.body ≡ some (current, replacement))
        (known : get_admin_user s.user_error user.username a.accounts ≡ some stored)
        (verified : verify stored.password_hash current ≡ true) where
      revoke_others-Settled :
          (hash : Bytes) (updated : Result AccountError Accounts)
          → s.new_hash ≡ some hash
          → update_admin_password user.id hash a.accounts ≡ updated
          → Fair (revoke_others to_lower verify session_hash now s r.session_cookie user a updated)
      unfolding update_admin_password
      revoke_others-Settled hash (err e) hashed up = refl
      revoke_others-Settled hash (ok accounts) hashed up = elim (Bool-cases s.revoke_error) [
        | inl failing ↦
            simp failing
              (update-sessions user.id hash (user_with user.id a.accounts.users) accounts up)
        | inr fine ↦ simp fine (record {
          user = user;
          stored = stored;
          current = current;
          replacement = replacement;
          hash = hash;
          accounts = accounts;
          caller = caller;
          reads = reads;
          known = known;
          verified = verified;
          hashed = hashed;
          updated = up;
          revoked = refl;
        })
      ]

      store_hash-Settled :
          (new_hash : Option Bytes)
          → s.new_hash ≡ new_hash
          → Fair (store_hash to_lower verify session_hash now s r.session_cookie user new_hash a)
      store_hash-Settled none hashed = refl
      store_hash-Settled (some hash) hashed = elim (Bool-cases s.update_error) [
        | inl failing ↦ simp failing refl
        | inr fine ↦
            simp fine (
              revoke_others-Settled hash (update_admin_password user.id hash a.accounts) hashed
                refl)
      ]

    module _ (user : AdminUser) (caller : r.admin_user ≡ some user) where
      check_current-Settled :
          (current replacement : Bytes) (stored : Option AdminUser)
          → r.body ≡ some (current, replacement)
          → get_admin_user s.user_error user.username a.accounts ≡ stored
          → Fair (
              if not (check_current to_lower verify session_hash current stored)
              then answered unauthorized none a
              else store_hash to_lower verify session_hash now s r.session_cookie user s.new_hash a)
      check_current-Settled current replacement none reads known = refl
      check_current-Settled current replacement (some stored) reads known =
          elim (Bool-cases (verify stored.password_hash current)) [
            | inl right ↦ simp right (
                store_hash-Settled user stored current replacement caller reads known right
                  s.new_hash refl)
            | inr wrong ↦ simp wrong refl
          ]

      change_of-Settled :
          (body : Option (Bytes × Bytes))
          → r.body ≡ body
          → Fair (change_of to_lower verify session_hash now s r.session_cookie user body a)
      change_of-Settled none reads = refl
      change_of-Settled (some (current, replacement)) reads =
          elim (Bool-cases (ltb (length replacement) 12)) [
            | inl short ↦ simp short refl
            | inr long ↦ simp long (check_current-Settled current replacement _ reads refl)
          ]

    change_by-Settled :
        (caller : Option AdminUser)
        → r.admin_user ≡ caller
        → Fair (change_by to_lower verify session_hash now s r caller a)
    change_by-Settled none h = refl
    change_by-Settled (some user) h = change_of-Settled user h r.body refl

    pub change_password-Settled : Fair (change_password to_lower verify session_hash now s r a)
    unfolding change_password
    change_password-Settled = elim (Bool-cases a.has_repo) [
      | inl set ↦ simp set (change_by-Settled r.admin_user refl)
      | inr unset ↦ simp unset refl
    ]

  is-Changed :
      (now : ℕ) (s : Services) (r : Request (Bytes × Bytes)) (a after : Admin) (answer : Answer)
      → Settled now s r a answer after
      → answer ≡ no_content
      → Changed now s r a after
  is-Changed now s r a after answer h e = subst (λ (x : Answer). Settled now s r a x after) e h

  authenticated-some :
      (has_repo : Bool) (found : Option AdminUser) (user : AdminUser)
      → (if not has_repo then err unavailable else authenticated to_lower verify session_hash found)
        ≡ ok user
      → found ≡ some user
  authenticated-some true none user e = absurd cc
  authenticated-some true (some found) user e = cc
  authenticated-some false found user e = absurd cc

  authenticate-session :
      (later : ℕ) (cookie : Bytes) (a : Admin) (user : AdminUser)
      → authenticate to_lower verify session_hash false later cookie a ≡ ok user
      → get_admin_session later (session_hash cookie) a.accounts ≡ some user
  unfolding authenticate
  authenticate-session later [] a user e =
      absurd (no-user (authenticated-some a.has_repo none user e))
    where
      no-user : none ≢ some user
      no-user h = cc
  authenticate-session later (b ∷ cookie) a user e = authenticated-some a.has_repo _ user e

  -- Behind a change of the password that succeeds, at any later instant, a cookie with which
  -- `authenticate` still finds this administrator has the hash of the cookie of the request.
  pub change_password-Evicts :
      (now later : ℕ) (s : Services) (r : Request (Bytes × Bytes)) (a : Admin) (cookie : Bytes)
      (user other : AdminUser)
      → (change_password to_lower verify session_hash now s r a).answer ≡ no_content
      → r.admin_user ≡ some user
      → authenticate to_lower verify session_hash false later cookie
          (change_password to_lower verify session_hash now s r a).admin
        ≡ ok other
      → other.id ≡ user.id
      → kept to_lower verify session_hash r.session_cookie ≡ some (session_hash cookie)
  change_password-Evicts now later s r a cookie user other done caller e mine =
      revoke_admin_sessions-Spared now later changed.user.id _ changed.accounts
        (session_hash cookie) other
        (subst
          (λ (accounts : Accounts).
            get_admin_session later (session_hash cookie) accounts ≡ some other)
          changed.revoked (authenticate-session later cookie _ other e))
        (mine ∙ ap (λ (u : AdminUser). u.id) (some-injective (sym caller ∙ changed.caller)))
    where
      changed : Changed now s r a (change_password to_lower verify session_hash now s r a).admin
      changed = is-Changed now s r a _ _ (change_password-Settled now s r a) done

      some-injective : {x y : AdminUser} → ◌≡◌ {A = Option AdminUser} (some x) (some y) → x ≡ y
      some-injective h = cc

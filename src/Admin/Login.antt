-- ===== src/Admin/Login.antt =====
-- internal/httpapi/admin.go: what a sign-in takes, and what a failed one leaves.
use llm_security_audit_gatew.Base.{
  if◌then◌else◌, ◌∙◌, eq_refl, insert, ◌-◌, ◌≤◌, ◌<◌, ltb, leb, lookup, lookup-insert, List, [],
  ◌∷◌, ◌++◌, arith, ◌⊎◌, ◌≡◌, refl, subst, ap, ℕ, ◌+◌, String, Option, none, some, Bool, true,
  false, Bool-cases, inl, inr, Bytes,
}
use llm_security_audit_gatew.Admin.Accounts.{
  AdminSession, AdminUser, user_named, create_admin_session,
}
use llm_security_audit_gatew.Httpapi.AuthThrottle
use llm_security_audit_gatew.Httpapi.AuthThrottle.{AuthThrottle, AuthBucket}
use llm_security_audit_gatew.Httpapi.LoginGuard
use llm_security_audit_gatew.Httpapi.LoginGuard.{LoginFailures}
use llm_security_audit_gatew.Admin.Sessions.{
  Admin, Request, Services, Answer, Outcome, get_admin_user, start_session, check_user, check_body,
  check_address, login_failed, login, unauthorized, signed_in,
}

lookup-insert_same :
    {V : Type 0} (key : String) (value : V) (entries : List (String × V))
    → lookup key (insert key value entries) ≡ some value
lookup-insert_same key value entries = lookup-insert key key value entries ∙ rw (eq_refl key) refl

module _ (to_lower : String → String) (verify : Bytes → Bytes → Bool)
    (session_hash : Bytes → Bytes) where
  -- The password is right for the account of this name, and neither throttle stops the attempt.
  pub record Entitled (now : ℕ) (r : Request (String × Bytes)) (a : Admin) (user : AdminUser)
      : Type 0 where
    pub username : String
    pub password : Bytes
    pub reads : r.body ≡ some (username, password)
    pub address_free : (AuthThrottle.blocked now r.ip a.throttle).1 ≡ false
    pub account_free : LoginGuard.blocked to_lower now username a.logins ≡ false
    pub known : user_named username a.accounts.users ≡ some user
    pub verified : verify user.password_hash password ≡ true

  -- The failures of a window that is not over.
  abbrev pub bucket_failures : ℕ → ℕ → Option AuthBucket → ℕ
  bucket_failures now window none = 0
  bucket_failures now window (some b) = if ltb window (now - b.start) then 0 else b.count

  abbrev pub entry_failures : ℕ → ℕ → Option LoginFailures → ℕ
  entry_failures now window none = 0
  entry_failures now window (some e) = if ltb window (now - e.window_start) then 0 else e.count

  -- A refusal of the credentials is one failure more of the address, and one more of the account, or
  -- the lockout of the account where that reaches its limit.
  pub record Counted (now : ℕ) (r : Request (String × Bytes)) (a after : Admin) : Type 0 where
    pub username : String
    pub password : Bytes
    pub bucket : AuthBucket
    pub entry : LoginFailures
    pub reads : r.body ≡ some (username, password)
    pub address : lookup r.ip after.throttle.buckets ≡ some bucket
    pub address_count :
        let judged = (AuthThrottle.blocked now r.ip a.throttle).0 in
        bucket.count ≡ bucket_failures now judged.window (lookup r.ip judged.buckets) + 1
    pub account : lookup (to_lower username) after.logins.entries ≡ some entry
    pub account_count :
        let failures =
          entry_failures now a.logins.window (lookup (to_lower username) a.logins.entries) in
        ((failures + 1 < a.logins.max_failures) × (entry.count ≡ failures + 1))
        ⊎ ((a.logins.max_failures ≤ failures + 1) × (entry.locked_until ≡ now + a.logins.window))

  -- The session that a sign-in adds.
  pub record Opened (now : ℕ) (a after : Admin) (user : AdminUser) (token : Bytes) : Type 0 where
    pub session : AdminSession
    pub added : after.accounts.sessions ≡ a.accounts.sessions ++ (session ∷ [])
    pub same_users : after.accounts.users ≡ a.accounts.users
    pub owner : session.admin_user_id ≡ user.id
    pub hashed : session.token_hash ≡ session_hash token
    pub expires : session.expires_at ≡ now + a.session_ttl
    pub live : session.revoked_at ≡ none

  abbrev pub Earned : ℕ → Request (String × Bytes) → Admin → Answer → Admin → Type 0
  Earned now r a (signed_in user token csrf) after =
      Entitled now r a user × Opened now a after user token
  Earned now r a unauthorized after = Counted now r a after × (after.accounts ≡ a.accounts)
  Earned now r a answer after = after.accounts ≡ a.accounts

  count_failure-counts :
      (m w now : ℕ) (o : Option LoginFailures)
      → ((entry_failures now w o + 1 < m)
          × ((LoginGuard.count_failure m w now o).count ≡ entry_failures now w o + 1))
        ⊎ ((m ≤ entry_failures now w o + 1)
            × ((LoginGuard.count_failure m w now o).locked_until ≡ now + w))
  unfolding LoginGuard.count_failure
  count_failure-counts m w now none = elim (Bool-cases (leb m 1)) [
    | inl full ↦ inr (ground arith, ground arith)
    | inr room ↦ inl (ground arith, ground arith)
  ]
  count_failure-counts m w now (some e) =
      elim (Bool-cases (leb m (entry_failures now w (some e) + 1))) [
        | inl full ↦ inr (ground arith, ground arith)
        | inr room ↦ inl (ground arith, ground arith)
      ]

  current_bucket-count :
      (now w : ℕ) (o : Option AuthBucket)
      → (AuthThrottle.current_bucket now w o).count ≡ bucket_failures now w o
  current_bucket-count now w none = refl
  current_bucket-count now w (some b) = ground arith

  module _ (now : ℕ) (s : Services) (r : Request (String × Bytes)) (a : Admin) where
    abbrev Fair : Outcome → Type 0
    Fair o = Earned now r a o.answer o.admin

    start_session-Earned :
        (user : AdminUser) (logins : LoginGuard.LoginGuard) (throttle : AuthThrottle)
        (failing : Bool) (token csrf_token : Option Bytes)
        → Entitled now r a user
        → Fair (
            start_session to_lower verify session_hash now failing user token csrf_token
              (record a { throttle = throttle; logins = logins }))
    start_session-Earned user logins throttle failing none csrf e = refl
    start_session-Earned user logins throttle failing (some token) none e = refl
    start_session-Earned user logins throttle true (some token) (some csrf) e = refl
    start_session-Earned user logins throttle false (some token) (some csrf) e = (
      e,
      unfold create_admin_session in
          record {
            session = _;
            added = refl;
            same_users = refl;
            owner = refl;
            hashed = refl;
            expires = refl;
            live = refl;
          },
    )

    module _ (username : String) (password : Bytes) (reads : r.body ≡ some (username, password))
        (free : (AuthThrottle.blocked now r.ip a.throttle).1 ≡ false)
        (account_free : LoginGuard.blocked to_lower now username a.logins ≡ false) where
      abbrev seen : Admin
      seen = record a { throttle = (AuthThrottle.blocked now r.ip a.throttle).0 }

      login_failed-Earned : Fair (login_failed to_lower verify session_hash now r.ip username seen)
      unfolding login_failed AuthThrottle.fail LoginGuard.fail
      login_failed-Earned =
          let judged = (AuthThrottle.blocked now r.ip a.throttle).0 in
          (
            record {
              username = username;
              password = password;
              bucket = _;
              entry = _;
              reads = reads;
              address = lookup-insert_same r.ip _ judged.buckets;
              address_count =
                  ap (λ n. n + 1)
                    (current_bucket-count now judged.window (lookup r.ip judged.buckets));
              account = lookup-insert_same (to_lower username) _ a.logins.entries;
              account_count =
                  count_failure-counts a.logins.max_failures a.logins.window now
                    (lookup (to_lower username) a.logins.entries);
            },
            refl,
          )

      check_user-Earned :
          (found : Option AdminUser)
          → ((user : AdminUser)
              → found ≡ some user
              → user_named username a.accounts.users ≡ some user)
          → Fair (check_user to_lower verify session_hash now s r.ip username password found seen)
      check_user-Earned none known = login_failed-Earned
      check_user-Earned (some user) known = elim (Bool-cases (verify user.password_hash password)) [
        | inl right ↦ rw right (
            start_session-Earned user _ _ s.session_error s.token s.csrf_token (record {
              username = username;
              password = password;
              reads = reads;
              address_free = free;
              account_free = account_free;
              known = known user refl;
              verified = right;
            }))
        | inr wrong ↦ rw wrong login_failed-Earned
      ]

    get_admin_user-known :
        (failing : Bool) (username : String) (user : AdminUser)
        → get_admin_user failing username a.accounts ≡ some user
        → user_named username a.accounts.users ≡ some user
    get_admin_user-known true username user e = absurd cc
    get_admin_user-known false username user e = e

    check_body-Earned :
        (body : Option (String × Bytes))
        → r.body ≡ body
        → (AuthThrottle.blocked now r.ip a.throttle).1 ≡ false
        → Fair (
            check_body to_lower verify session_hash now s r.ip body
              (record a { throttle = (AuthThrottle.blocked now r.ip a.throttle).0 }))
    check_body-Earned none reads free = refl
    check_body-Earned (some (username, password)) reads free =
        elim (Bool-cases (LoginGuard.blocked to_lower now username a.logins)) [
          | inl locked ↦ rw locked refl
          | inr account_free ↦ rw account_free (
              check_user-Earned username password reads free account_free
                (get_admin_user s.user_error username a.accounts)
                (get_admin_user-known s.user_error username))
        ]

    check_address-Earned :
        (judged : AuthThrottle × Bool)
        → AuthThrottle.blocked now r.ip a.throttle ≡ judged
        → Fair (check_address to_lower verify session_hash now s r judged a)
    check_address-Earned (throttle, true) e = refl
    check_address-Earned (throttle, false) e =
        subst
          (λ (t : AuthThrottle).
            Fair (
              check_body to_lower verify session_hash now s r.ip r.body
                (record a { throttle = t })))
          (ap (λ (j : AuthThrottle × Bool). j.0) e)
          (check_body-Earned r.body refl (ap (λ (j : AuthThrottle × Bool). j.1) e))

    -- A sign-in adds one session, of the account whose password was given, with the hash of its token
    -- and its end, and only where neither the address nor the account is blocked; an answer of wrong
    -- credentials is one failure more of the address and of the account, or its lockout where that
    -- reaches the limit, and adds no session; no other answer touches the tables.
    pub login-Earned : Fair (login to_lower verify session_hash now s r a)
    unfolding login
    login-Earned = elim (Bool-cases a.has_repo) [
      | inl set ↦ simp set (check_address-Earned (AuthThrottle.blocked now r.ip a.throttle) refl)
      | inr unset ↦ rw unset refl
    ]

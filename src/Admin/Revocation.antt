-- ===== src/Admin/Revocation.antt =====
-- internal/httpapi/admin.go: which sessions live on behind a change of the password.
use llm_security_audit_gatew.Base.{
  ◌≡◌, ◌≢◌, refl, sym, subst, ap, ◌∙◌, ℕ, String, List, [], ◌∷◌, map, Option, none, some, Bool,
  true, false, ◌&&◌, Bool-cases, inl, inr, All, Bytes, arith, str_eq, if◌then◌else◌,
}
use text.Mathlib.TextEquality.{eq_iff}
use llm_security_audit_gatew.Auth.Access.{bytes_eq_sound}
use llm_security_audit_gatew.Stream.Events.{bytes_eq}
use llm_security_audit_gatew.Admin.Sessions.{kept}
use llm_security_audit_gatew.Admin.Accounts.{
  AdminUser, AdminSession, Accounts, user_with, unrevoked, is_live, revoked_since, session_of,
  user_of, get_admin_session, is_other, is_revoked_by, revoke_of, revoke_admin_sessions,
}

-- A session that lives, of this user, is the one that was kept.
abbrev Spared : String → Option Bytes → AdminSession → Type 0
Spared user_id kept session =
    unrevoked session.revoked_at ≡ true
    → session.admin_user_id ≡ user_id
    → kept ≡ some session.token_hash

is_other-kept :
    (kept : Option Bytes) (session : AdminSession)
    → is_other kept session ≡ false
    → kept ≡ some session.token_hash
is_other-kept none session h = absurd cc
is_other-kept (some hash) session h =
    ap some (sym (bytes_eq_sound session.token_hash hash (ground arith)))

not_revoked : (now : ℕ) (at : Option ℕ) → unrevoked (revoked_since now at) ≢ true
not_revoked now none h = cc
not_revoked now (some at) h = cc

revoke_of-Spared :
    (now : ℕ) (user_id : String) (kept : Option Bytes) (session : AdminSession)
    → Spared user_id kept (revoke_of now user_id kept session)
revoke_of-Spared now user_id kept session = elim (Bool-cases (is_revoked_by user_id kept session)) [
  | inl revoked ↦ simp revoked (λ live mine. absurd (not_revoked now session.revoked_at live))
  | inr spared ↦ simp spared (λ live mine. is_other-kept kept session (other spared live mine))
]
  where
    other :
        is_revoked_by user_id kept session ≡ false
        → unrevoked session.revoked_at ≡ true
        → session.admin_user_id ≡ user_id
        → is_other kept session ≡ false
    other spared live mine = ground (arith, eq_iff session.admin_user_id user_id)

revoked-Spared :
    (now : ℕ) (user_id : String) (kept : Option Bytes) (sessions : List AdminSession)
    → All (Spared user_id kept) (map (revoke_of now user_id kept) sessions)
revoked-Spared now user_id kept [] = tt
revoked-Spared now user_id kept (session ∷ sessions) =
    (revoke_of-Spared now user_id kept session, revoked-Spared now user_id kept sessions)

module _ (P : AdminSession → Type 0) (now : ℕ) (hash : Bytes) where
  session_of-All :
      (sessions : List AdminSession) (found : AdminSession)
      → All P sessions
      → session_of now hash sessions ≡ some found
      → P found × (found.token_hash ≡ hash) × (is_live now found ≡ true)
  unfolding session_of
  session_of-All [] found h e = absurd cc
  session_of-All (session ∷ sessions) found (p, h) e =
      elim (Bool-cases (bytes_eq session.token_hash hash && is_live now session)) [
        | inl hit ↦ here hit (
            some-injective (
              subst
                (λ (b : Bool).
                  (if b then some session else session_of now hash sessions) ≡ some found)
                hit e))
        | inr miss ↦ session_of-All sessions found h (
            subst
              (λ (b : Bool).
                (if b then some session else session_of now hash sessions) ≡ some found)
              miss e)
      ]
    where
      some-injective :
          {x y : AdminSession} → ◌≡◌ {A = Option AdminSession} (some x) (some y) → x ≡ y
      some-injective h = cc

      here :
          (bytes_eq session.token_hash hash && is_live now session) ≡ true
          → session ≡ found
          → P found × (found.token_hash ≡ hash) × (is_live now found ≡ true)
      here hit e =
          subst (λ (s : AdminSession). P s × (s.token_hash ≡ hash) × (is_live now s ≡ true)) e
            (p, bytes_eq_sound session.token_hash hash (ground arith), ground arith)

user_with-id :
    (id : String) (users : List AdminUser) (user : AdminUser)
    → user_with id users ≡ some user
    → user.id ≡ id
user_with-id id [] user e = absurd cc
user_with-id id (first ∷ users) user e = elim (Bool-cases (str_eq first.id id)) [
  | inl same ↦ sym (ap (λ (u : AdminUser). u.id) (first-is (e' same))) ∙ (eq_iff first.id id).0 same
  | inr other ↦ user_with-id id users user (e' other)
]
  where
    first-is : ◌≡◌ {A = Option AdminUser} (some first) (some user) → first ≡ user
    first-is h = cc

    e' :
        {b : Bool}
        → str_eq first.id id ≡ b
        → (if b then some first else user_with id users) ≡ some user
    e' h = subst (λ (b : Bool). (if b then some first else user_with id users) ≡ some user) h e

user_of-id :
    (users : List AdminUser) (found : Option AdminSession) (user : AdminUser)
    → user_of users found ≡ some user
    → (session : AdminSession) × (found ≡ some session) × (user.id ≡ session.admin_user_id)
user_of-id users none user e = absurd cc
user_of-id users (some session) user e =
    (session, refl, user_with-id session.admin_user_id users user e)

-- Behind a revocation, a token that still signs this user in is the one that was kept.
pub revoke_admin_sessions-Spared :
    (now later : ℕ) (id : String) (kept : Option Bytes) (accounts : Accounts) (token : Bytes)
    (user : AdminUser)
    → get_admin_session later token (revoke_admin_sessions now id kept accounts) ≡ some user
    → user.id ≡ id
    → kept ≡ some token
unfolding get_admin_session revoke_admin_sessions
revoke_admin_sessions-Spared now later id kept accounts token user e mine =
    let (session, found, owner) = user_of-id accounts.users _ user e in
    from session owner (
      session_of-All (Spared id kept) later token _ session
        (revoked-Spared now id kept accounts.sessions) found)
  where
    from :
        (session : AdminSession)
        → user.id ≡ session.admin_user_id
        → Spared id kept session × (session.token_hash ≡ token) × (is_live later session ≡ true)
        → kept ≡ some token
    from session owner (spared, same, live) =
        spared (ground arith) (sym owner ∙ mine) ∙ ap some same

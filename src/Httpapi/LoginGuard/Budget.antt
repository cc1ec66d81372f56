-- ===== src/Httpapi/LoginGuard/Budget.antt =====
-- When the login guard of internal/httpapi/login_guard.go locks an account, and when not.
use llm_security_audit_gatew.Base.{
  ℕ, suc, ◌+◌, ◌≤◌, ◌<◌, String, List, [], ◌∷◌, Option, none, some, ltb, lookup, lookup-insert,
  eq_refl, ◌==◌, ◌&&◌, Bool-cases, inl, inr, ◌≡◌, refl, ◌∙◌, ap, arith, length, All,
}
use llm_security_audit_gatew.Httpapi.LoginGuard.{
  LoginFailures, LoginGuard, count_failure, blocked, fail,
}

-- The entry after failures at these instants, one after the other.
abbrev count_all : ℕ → ℕ → List ℕ → Option LoginFailures → Option LoginFailures
count_all m w [] o = o
count_all m w (t ∷ ts) o = count_all m w ts (some (count_failure m w t o))

abbrev pub last_of : ℕ → List ℕ → ℕ
last_of t [] = t
last_of t (u ∷ us) = last_of u us

abbrev counting : ℕ → ℕ → LoginFailures
counting start n = record { window_start = start; locked_until = 0; count = n }

counts_on :
    (m w now start n : ℕ)
    → now ≤ start + w
    → n + 1 < m
    → count_failure m w now (some (counting start n)) ≡ counting start (n + 1)
unfolding count_failure
counts_on m w now start n h lt = ground arith

locks :
    (m w now start n : ℕ)
    → now ≤ start + w
    → n + 1 ≡ m
    → count_failure m w now (some (counting start n))
      ≡ record { window_start = now; locked_until = now + w; count = 0 }
unfolding count_failure
locks m w now start n h e = ground arith

starts : (m w now : ℕ) → count_failure m w now none ≡ count_failure m w now (some (counting now 0))
unfolding count_failure
starts m w now = ground arith

count_all_locks :
    (m w start n t : ℕ) (ts : List ℕ)
    → t ≤ start + w
    → All (λ x. x ≤ start + w) ts
    → n + suc (length ts) ≡ m
    → count_all m w (t ∷ ts) (some (counting start n))
      ≡ some (record { window_start = last_of t ts; locked_until = last_of t ts + w; count = 0 })
count_all_locks m w start n t [] h hs e = ap some (locks m w t start n h (omega arith))
count_all_locks m w start n t (u ∷ us) h (h', hs) e =
    rw (counts_on m w t start n h (omega arith))
      (count_all_locks m w start (n + 1) u us h' hs (omega arith))

count_all_counts :
    (m w start n : ℕ) (ts : List ℕ)
    → All (λ x. x ≤ start + w) ts
    → n + length ts < m
    → count_all m w ts (some (counting start n)) ≡ some (counting start (n + length ts))
count_all_counts m w start n [] hs lt = ap some (ap (counting start) (omega arith))
count_all_counts m w start n (u ∷ us) (h, hs) lt = rw (counts_on m w u start n h (omega arith)) (
    count_all_counts m w start (n + 1) us hs (omega arith)
    ∙ ap some (ap (counting start) (omega arith)))

module _ (to_lower : String → String) where
  -- Wrong passwords for one account, one after the other.
  unfoldable pub fail_times : List ℕ → String → LoginGuard → LoginGuard
  fail_times [] u g = g
  fail_times (t ∷ ts) u g = fail_times ts u (fail to_lower t u g)

  fail_times-entry :
      (ts : List ℕ) (u : String) (g : LoginGuard)
      → lookup (to_lower u) (fail_times ts u g).entries
        ≡ count_all g.max_failures g.window ts (lookup (to_lower u) g.entries)
  unfolding fail_times fail
  fail_times-entry [] u g = refl
  fail_times-entry (t ∷ ts) u g =
      fail_times-entry ts u (fail to_lower t u g) ∙ rw (lookup-insert, eq_refl (to_lower u)) refl

  -- An account with no entry that sees at most `maxFailures` wrong passwords, all within one
  -- window of the first, is locked out exactly if it saw all `maxFailures` of them, and then at
  -- the instants before the end of a window that starts at the last one.
  pub fail_times_lock :
      (t : ℕ) (ts : List ℕ) (u : String) (g : LoginGuard) (now : ℕ)
      → lookup (to_lower u) g.entries ≡ none
      → All (λ x. x ≤ t + g.window) ts
      → length (t ∷ ts) ≤ g.max_failures
      → blocked to_lower now u (fail_times (t ∷ ts) u g)
        ≡ ((length (t ∷ ts) == g.max_failures) && ltb now (last_of t ts + g.window))
  unfolding blocked
  fail_times_lock t ts u g now fresh near few =
      elim (Bool-cases (length (t ∷ ts) == g.max_failures)) [
        | inl e ↦
            rw
              (
                e,
                entry
                    ∙ count_all_locks g.max_failures g.window t 0 t ts (omega arith) near
                        (ground arith),
              )
              refl
        | inr e ↦
            rw
              (
                e,
                entry
                    ∙ count_all_counts g.max_failures g.window t 0 (t ∷ ts) ((omega arith), near)
                        (ground arith),
              )
              (ground arith)
      ]
    where
      entry :
          lookup (to_lower u) (fail_times (t ∷ ts) u g).entries
          ≡ count_all g.max_failures g.window (t ∷ ts) (some (counting t 0))
      entry = fail_times-entry (t ∷ ts) u g ∙ rw fresh (rw (starts g.max_failures g.window t) refl)

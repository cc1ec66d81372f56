-- ===== src/Httpapi/LoginGuard/Lockout.antt =====
-- What the login guard of internal/httpapi/login_guard.go guarantees.
use llm_security_audit_gatew.Base.{
  ℕ, ◌+◌, ◌≤◌, ◌<◌, String, ℤ, List, [], ◌∷◌, Option, none, some, true, false, lookup,
  lookup-insert, lookup-erase, str_eq, eq_iff, ◌≡◌, ◌≢◌, sym, subst, inl, inr, Bool-cases, arith,
  All, if◌then◌else◌,
}
use llm_security_audit_gatew.Httpapi.LoginGuard.{
  LoginFailures, LoginGuard, new_login_guard, entry_blocked, count_failure, blocked, fail, succeed,
}

-- What holds of an entry between two sign-ins, where none was later than `clock`.
abbrev pub EntryInv : ℕ → ℕ → ℕ → Option LoginFailures → Type 0
EntryInv clock max_failures window none = Unit
EntryInv clock max_failures window (some e) =
    (e.count < max_failures) × (e.locked_until ≤ e.window_start + window) × (e.window_start ≤ clock)

pub record Inv (clock : ℕ) (g : LoginGuard) : Type 0 where
  pub limit_pos : 0 < g.max_failures
  pub entry : (k : String) → EntryInv clock g.max_failures g.window (lookup k g.entries)

count_failure-EntryInv :
    (clock m w now : ℕ) (o : Option LoginFailures)
    → 0 < m
    → now ≤ clock
    → EntryInv clock m w o
    → EntryInv clock m w (some (count_failure m w now o))
unfolding count_failure
count_failure-EntryInv clock m w now none h le v = ground arith
count_failure-EntryInv clock m w now (some e) h le v = ground arith

-- A failure never moves an end of lockout that lies ahead to an earlier instant.
count_failure-locked :
    (m w now : ℕ) (o : Option LoginFailures) (later : ℕ)
    → EntryInv now m w o
    → now ≤ later
    → entry_blocked later o ≡ true
    → entry_blocked later (some (count_failure m w now o)) ≡ true
unfolding count_failure
count_failure-locked m w now none later v h b = cc
count_failure-locked m w now (some e) later v h b = ground arith

other : (a b : String) → a ≢ b → str_eq a b ≡ false
other a b ne = ground (arith, eq_iff a b)

module _ (to_lower : String → String) where
  -- What happens to the guard.
  pub data Attempt : Type 0 where
    failed : ℕ → String → Attempt
    succeeded : String → Attempt

  unfoldable pub apply : Attempt → LoginGuard → LoginGuard
  unfolding fail succeed
  apply (failed now u) g = fail to_lower now u g
  apply (succeeded u) g = succeed to_lower u g

  unfoldable pub run : List Attempt → LoginGuard → LoginGuard
  run [] g = g
  run (a ∷ rest) g = run rest (apply a g)

  abbrev pub time : Attempt → ℕ
  time (failed now u) = now
  time (succeeded u) = 0

  by_key :
      (clock : ℕ) (g : LoginGuard) (k j : String) (o : Option LoginFailures)
      → EntryInv clock g.max_failures g.window o
      → EntryInv clock g.max_failures g.window (lookup j g.entries)
      → EntryInv clock g.max_failures g.window (if str_eq k j then o else lookup j g.entries)
  by_key clock g k j o h v = elim (Bool-cases (str_eq k j)) [ inl e ↦ rw e h | inr e ↦ rw e v ]

  apply-Inv :
      (clock : ℕ) (a : Attempt) (g : LoginGuard)
      → time a ≤ clock
      → Inv clock g
      → Inv clock (apply a g)
  unfolding apply
  apply-Inv clock (failed now u) g le v = record {
    limit_pos = v.limit_pos;
    entry = λ j. rw lookup-insert (by_key clock g (to_lower u) j _ counted (v.entry j));
  }
    where
      counted :
          EntryInv clock g.max_failures g.window
            (some (count_failure g.max_failures g.window now (lookup (to_lower u) g.entries)))
      counted =
          count_failure-EntryInv clock g.max_failures g.window now _ v.limit_pos le
            (v.entry (to_lower u))
  apply-Inv clock (succeeded u) g le v = record {
    limit_pos = v.limit_pos;
    entry = λ j. rw lookup-erase (by_key clock g (to_lower u) j none tt (v.entry j));
  }

  run-Inv_from :
      (clock : ℕ) (attempts : List Attempt) (g : LoginGuard)
      → All (λ a. time a ≤ clock) attempts
      → Inv clock g
      → Inv clock (run attempts g)
  unfolding run
  run-Inv_from clock [] g h v = v
  run-Inv_from clock (a ∷ rest) g (le, h) v =
      run-Inv_from clock rest (apply a g) h (apply-Inv clock a g le v)

  new-Inv : (clock : ℕ) (m w : ℤ) → Inv clock (new_login_guard m w)
  unfolding new_login_guard lookup
  new-Inv clock m w = record { limit_pos = ground arith; entry = λ j. tt }

  -- After any sign-ins, one more wrong password that is not earlier than those before, for this
  -- account or another, never lifts or shortens a lockout: whoever is blocked at an instant not
  -- before it is still blocked then.
  pub fail-keeps-lockout :
      (attempts : List Attempt) (m w : ℤ) (now later : ℕ) (u v : String)
      → let g = run attempts (new_login_guard m w) in
        All (λ a. time a ≤ now) attempts
        → now ≤ later
        → blocked to_lower later v g ≡ true
        → blocked to_lower later v (fail to_lower now u g) ≡ true
  unfolding blocked fail
  fail-keeps-lockout attempts m w now later u v past h b =
      rw lookup-insert (elim (Bool-cases (str_eq (to_lower u) (to_lower v))) [
        | inl e ↦ rw e (
            count_failure-locked g.max_failures g.window now _ later
              ((run-Inv_from now attempts _ past (new-Inv now m w)).entry (to_lower u)) h
              (subst (λ k. entry_blocked later (lookup k g.entries) ≡ true)
                (sym ((eq_iff (to_lower u) (to_lower v)).0 e)) b))
        | inr e ↦ rw e b
      ])
    where
      g : LoginGuard
      g = run attempts (new_login_guard m w)

  -- Sign-ins to one account, failed or not, change nothing for an account whose name differs
  -- after lower-casing: it is blocked at the same instants as before.
  pub apply-others :
      (now : ℕ) (u v : String) (g : LoginGuard) (later : ℕ)
      → to_lower u ≢ to_lower v
      → (blocked to_lower later v (fail to_lower now u g) ≡ blocked to_lower later v g)
        × (blocked to_lower later v (succeed to_lower u g) ≡ blocked to_lower later v g)
  unfolding blocked fail succeed
  apply-others now u v g later ne =
      let e = other (to_lower u) (to_lower v) ne in (rw (lookup-insert, e), rw (lookup-erase, e))

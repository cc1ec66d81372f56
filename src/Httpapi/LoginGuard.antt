-- ===== src/Httpapi/LoginGuard.antt =====
-- internal/httpapi/login_guard.go: administrator sign-ins, throttled per account.
pub mod Budget
pub mod Lockout
use llm_security_audit_gatew.Base.{
  ℕ, ◌+◌, ◌-◌, String, ℤ, pos, pos_part, ltb_ℤ, leb_ℤ, List, [], Option, none, some, Bool, true,
  false, ltb, leb, lookup, insert, erase, if◌then◌else◌,
}

pub record LoginFailures : Type 0 where
  pub window_start : ℕ
  pub locked_until : ℕ
  pub count : ℕ

pub record LoginGuard : Type 0 where
  pub max_failures : ℕ
  pub window : ℕ
  pub entries : List (String × LoginFailures)

unfoldable pub new_login_guard : ℤ → ℤ → LoginGuard
new_login_guard max_failures window = record {
  max_failures = if ltb_ℤ max_failures (pos 1) then 5 else pos_part max_failures;
  window = if leb_ℤ window (pos 0) then 900_000_000_000 else pos_part window;
  entries = [];
}

-- `now.Sub(start) > window`. The window is positive, so a clock that went back (where `-` on ℕ
-- stops at 0) counts as inside the window, as it does in Go.
abbrev pub elapsed : ℕ → ℕ → ℕ → Bool
elapsed now start window = ltb window (now - start)

-- `blocked`, on the entry of the lower-cased name.
abbrev pub entry_blocked : ℕ → Option LoginFailures → Bool
entry_blocked now none = false
entry_blocked now (some entry) = ltb now entry.locked_until

-- The entry that `fail` counts in: a new one where there is none or its window is over.
abbrev pub current_entry : ℕ → ℕ → Option LoginFailures → LoginFailures
current_entry now window none = record { window_start = now; locked_until = 0; count = 0 }
current_entry now window (some entry) =
    if elapsed now entry.window_start window
    then record { window_start = now; locked_until = 0; count = 0 }
    else entry

-- What `fail` makes of that entry.
unfoldable pub count_failure : ℕ → ℕ → ℕ → Option LoginFailures → LoginFailures
count_failure max_failures window now found =
    let entry = current_entry now window found in
    let count = entry.count + 1 in
    if leb max_failures count
    then record { window_start = now; locked_until = now + window; count = 0 }
    else record entry { count = count }

-- `strings.ToLower` is a parameter: nothing is used of it.
module _ (to_lower : String → String) where
  unfoldable pub blocked : ℕ → String → LoginGuard → Bool
  blocked now username g = entry_blocked now (lookup (to_lower username) g.entries)

  unfoldable pub fail : ℕ → String → LoginGuard → LoginGuard
  unfolding count_failure
  fail now username g =
      let key = to_lower username in
      record g {
        entries =
            insert key (count_failure g.max_failures g.window now (lookup key g.entries)) g.entries;
      }

  unfoldable pub succeed : String → LoginGuard → LoginGuard
  succeed username g = record g { entries = erase (to_lower username) g.entries }

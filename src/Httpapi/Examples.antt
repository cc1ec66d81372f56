-- ===== src/Httpapi/Examples.antt =====
-- The theorems on the guards, at concrete guards and instants.
use llm_security_audit_gatew.Base.{
  ℕ, ◌+◌, ◌≤◌, String, pos, List, [], ◌∷◌, none, true, ◌≡◌, ◌≢◌, refl, arith, length, lookup,
  insert,
}
use llm_security_audit_gatew.Httpapi.AuthThrottle.Counting.{live}
use llm_security_audit_gatew.Httpapi.AuthThrottle.{AuthBucket, AuthThrottle}
use llm_security_audit_gatew.Httpapi.LoginGuard.Lockout.{
  Attempt, failed, fail-keeps-lockout, run, apply,
}
use llm_security_audit_gatew.Httpapi.LoginGuard.{
  LoginGuard, new_login_guard, blocked, fail, count_failure,
}

-- A stand-in for `strings.ToLower` on lower-case names.
abbrev same : String → String
same s = s

abbrev guard : LoginGuard
guard = new_login_guard (pos 2) (pos 100)

abbrev attempts : List (Attempt same)
attempts = failed 5 "root" ∷ failed 6 "root" ∷ []

locked_out : blocked same 105 "root" (run same attempts guard) ≡ true
unfolding run apply new_login_guard count_failure blocked lookup insert
locked_out = refl

fail-keeps-lockout_example :
    blocked same 105 "root" (fail same 60 "root" (run same attempts guard)) ≡ true
fail-keeps-lockout_example =
    fail-keeps-lockout same attempts (pos 2) (pos 100) 60 105 "root" "root" (omega arith)
      (omega arith) locked_out

root≢eve : same "root" ≢ same "eve"
root≢eve = λ e. cc

no_entry : lookup (same "root") guard.entries ≡ none
unfolding new_login_guard lookup
no_entry = refl

abbrev two_instants : List ℕ
two_instants = 5 ∷ 6 ∷ []

near_enough : 6 ≤ 5 + guard.window
unfolding new_login_guard
near_enough = omega arith

few_enough : length two_instants ≤ guard.max_failures
unfolding new_login_guard
few_enough = omega arith

abbrev throttle : AuthThrottle
throttle = record {
  limit = 2;
  window = 60;
  buckets = ("10.0.0.1", record { start = 1; count = 2 }) ∷ [];
}

no_other : lookup {V = AuthBucket} "10.0.0.1" [] ≡ none
unfolding lookup
no_other = refl

not_live : live 7 throttle.window (lookup "10.0.0.9" throttle.buckets) ≡ none
unfolding lookup
not_live = refl

-- ===== src/Audit/CircuitLaws.antt =====
-- What the circuit breaker of internal/audit/circuit.go guarantees.
use native.Mathlib.Nat.{mod_self, mod-eq_of_lt, mod-add-mod, zero-mod}
use llm_security_audit_gatew.Base.{
  ℕ, ◌+◌, ◌-◌, ap, ◌%◌, ◌≤◌, ◌<◌, String, ℤ, List, [], ◌∷◌, Bool, leb, ◌≡◌, refl, sym, ◌∙◌, ◌==◌,
  lt→ltb, All, arith, if◌then◌else◌,
}
use llm_security_audit_gatew.Audit.{ModelResult}
use llm_security_audit_gatew.Audit.Circuit.{
  CircuitBreaker, new_circuit_breaker, refuse, Outcome, success, canceled, failed, Reply,
  circuit_open, settle, audit, Callers, Step, refused, admitted, acquired, left, settled, Reach,
  here, next,
}

-- Between two locked sections.
pub record Inv (b : CircuitBreaker) : Type 0 where
  pub limit_pos : 0 < b.max_failures
  pub slots_pos : 0 < b.concurrency
  pub below_limit : b.failures < b.max_failures
  pub slots : b.in_flight ≤ b.concurrency

new-Inv : (m c o : ℤ) → Inv (new_circuit_breaker m c o)
unfolding new_circuit_breaker
new-Inv m c o = ground arith

Step-Inv : {s t : Callers} → Step s t → Inv s.breaker → Inv t.breaker
unfolding settle
Step-Inv (refused c now h) v = ground arith
Step-Inv (admitted c now h) v = v
Step-Inv (acquired c w h) v = ground arith
Step-Inv (left c w) v = v
Step-Inv (settled c now (success r) h) v = ground arith
Step-Inv (settled c now (canceled r) h) v = ground arith
Step-Inv (settled c now (failed r e) h) v = ground arith

Reach-Inv_from :
    (m c o : ℤ) {t : Callers}
    → Reach (record { breaker = new_circuit_breaker m c o; waiting = 0 }) t
    → Inv t.breaker
Reach-Inv_from m c o here = new-Inv m c o
Reach-Inv_from m c o (next r s) = Step-Inv s (Reach-Inv_from m c o r)

-- The calls of the auditor that a history has begun and not ended.
abbrev pub running : {s t : Callers} → Reach s t → ℕ
running here = 0
running (next r (refused c now h)) = running r
running (next r (admitted c now h)) = running r
running (next r (acquired c w h)) = running r + 1
running (next r (left c w)) = running r
running (next r (settled c now outcome h)) = running r - 1

-- The configuration stays, and the taken slots are the running calls.
record Tracks (new : CircuitBreaker) (n : ℕ) (b : CircuitBreaker) : Type 0 where
  slots : b.in_flight ≡ n
  same_concurrency : b.concurrency ≡ new.concurrency
  same_limit : b.max_failures ≡ new.max_failures

settle-Tracks :
    (new b : CircuitBreaker) (n now : ℕ) (outcome : Outcome)
    → Tracks new n b
    → Tracks new n (settle now outcome b)
unfolding settle
settle-Tracks new b n now (success r) v = record {
  slots = v.slots;
  same_concurrency = v.same_concurrency;
  same_limit = v.same_limit;
}
settle-Tracks new b n now (canceled r) v = record {
  slots = v.slots;
  same_concurrency = v.same_concurrency;
  same_limit = v.same_limit;
}
settle-Tracks new b n now (failed r e) v = record {
  slots = ground (arith, v.slots);
  same_concurrency = ground (arith, v.same_concurrency);
  same_limit = ground (arith, v.same_limit);
}

Reach-Tracks :
    (m c o : ℤ) {t : Callers}
    → (r : Reach (record { breaker = new_circuit_breaker m c o; waiting = 0 }) t)
    → Tracks (new_circuit_breaker m c o) (running r) t.breaker
Reach-Tracks m c o here =
    unfold new_circuit_breaker in
    record { slots = refl; same_concurrency = refl; same_limit = refl }
Reach-Tracks m c o (next r (refused c' now h)) =
    let v = Reach-Tracks m c o r in
    record { slots = v.slots; same_concurrency = v.same_concurrency; same_limit = v.same_limit }
Reach-Tracks m c o (next r (admitted c' now h)) = Reach-Tracks m c o r
Reach-Tracks m c o (next r (acquired c' w h)) =
    let v = Reach-Tracks m c o r in
    record {
      slots = ap (λ n. n + 1) v.slots;
      same_concurrency = v.same_concurrency;
      same_limit = v.same_limit;
    }
Reach-Tracks m c o (next r (left c' w)) = Reach-Tracks m c o r
Reach-Tracks m c o (next r (settled c' now outcome h)) =
    let v = settle-Tracks _ _ _ now outcome (Reach-Tracks m c o r) in
    record {
      slots = ap (λ n. n - 1) v.slots;
      same_concurrency = v.same_concurrency;
      same_limit = v.same_limit;
    }

-- However the goroutines interleave and whatever the auditor answers, a breaker built from any
-- configuration has at most `concurrency` calls of the auditor begun and not ended, counted over the
-- whole history, and fewer failures than its limit.
pub Reach-Inv :
    (m c o : ℤ) {t : Callers}
    → (r : Reach (record { breaker = new_circuit_breaker m c o; waiting = 0 }) t)
    → (running r ≤ (new_circuit_breaker m c o).concurrency)
      × (t.breaker.failures < (new_circuit_breaker m c o).max_failures)
Reach-Inv m c o {t} r = (
  omega (arith, v.slots, v.same_concurrency, i.slots),
  omega (arith, v.same_limit, i.below_limit),
)
  where
    v : Tracks (new_circuit_breaker m c o) (running r) t.breaker
    v = Reach-Tracks m c o r

    i : Inv t.breaker
    i = Reach-Inv_from m c o r

unfoldable pub settle_all : List (ℕ × Outcome) → CircuitBreaker → CircuitBreaker
settle_all [] b = b
settle_all ((now, o) ∷ os) b = settle_all os (settle now o b)

-- Failures since the last success, `seen` before the first; a cancellation is no signal.
abbrev pub streak : ℕ → List (ℕ × Outcome) → ℕ
streak seen [] = seen
streak seen ((now, success r) ∷ os) = streak 0 os
streak seen ((now, canceled r) ∷ os) = streak seen os
streak seen ((now, failed r e) ∷ os) = streak (seen + 1) os

count_up :
    (seen f m : ℕ) → f < m → f ≡ seen % m → (if leb m (f + 1) then 0 else f + 1) ≡ (seen + 1) % m
count_up seen f m h e = wrap ∙ (rw e (mod-add-mod seen m 1))
  where
    wrap : (if leb m (f + 1) then 0 else f + 1) ≡ (f + 1) % m
    wrap = grind (arith, mod_self m, mod-eq_of_lt)

-- What the count of failures stands for, after outcomes that left a streak of `seen`.
record Counts (like b : CircuitBreaker) (seen : ℕ) : Type 0 where
  same_limit : b.max_failures ≡ like.max_failures
  same_open_for : b.open_for ≡ like.open_for
  below : b.failures < b.max_failures
  counted : b.failures ≡ seen % b.max_failures

settle_failed-Counts :
    (like b : CircuitBreaker) (seen now : ℕ) (r : ModelResult) (e : String)
    → Counts like b seen
    → Counts like (settle now (failed r e) b) (seen + 1)
unfolding settle
settle_failed-Counts like b seen now r e c = record {
  same_limit = ground (arith, c.same_limit);
  same_open_for = ground (arith, c.same_open_for);
  below = ground (arith, c.below);
  counted = ground (arith, count_up seen b.failures b.max_failures c.below c.counted);
}

settle_all-Counts :
    (like : CircuitBreaker) (os : List (ℕ × Outcome)) (b : CircuitBreaker) (seen : ℕ)
    → Counts like b seen
    → Counts like (settle_all os b) (streak seen os)
unfolding settle_all
settle_all-Counts like [] b seen c = c
settle_all-Counts like ((now, success r) ∷ os) b seen c =
    settle_all-Counts like os (settle now (success r) b) 0 (reset c)
  where
    reset : Counts like b seen → Counts like (settle now (success r) b) 0
    reset c =
        unfold settle in
        record {
          same_limit = c.same_limit;
          same_open_for = c.same_open_for;
          below = omega (arith, c.below);
          counted = omega (arith, zero-mod b.max_failures);
        }
settle_all-Counts like ((now, canceled r) ∷ os) b seen c =
    settle_all-Counts like os (settle now (canceled r) b) seen (kept c)
  where
    kept : Counts like b seen → Counts like (settle now (canceled r) b) seen
    kept c =
        unfold settle in
        record {
          same_limit = c.same_limit;
          same_open_for = c.same_open_for;
          below = c.below;
          counted = c.counted;
        }
settle_all-Counts like ((now, failed r e) ∷ os) b seen c =
    settle_all-Counts like os (settle now (failed r e) b) (seen + 1)
      (settle_failed-Counts like b seen now r e c)

new-Counts : (m c o : ℤ) → Counts (new_circuit_breaker m c o) (new_circuit_breaker m c o) 0
new-Counts m c o = record {
  same_limit = refl;
  same_open_for = refl;
  below = v.below_limit;
  counted = zero_failures ∙ sym (zero-mod (new_circuit_breaker m c o).max_failures);
}
  where
    v : Inv (new_circuit_breaker m c o)
    v = new-Inv m c o

    zero_failures : (new_circuit_breaker m c o).failures ≡ 0
    zero_failures = unfold new_circuit_breaker in refl

opened :
    (like b : CircuitBreaker) (seen now : ℕ) (r : ModelResult) (e : String)
    → Counts like b seen
    → (settle now (failed r e) b).opened_until
      ≡ (if ((seen + 1) % like.max_failures) == 0 then now + like.open_for else b.opened_until)
unfolding settle
opened like b seen now r e c = ground (
  arith,
  c.same_limit,
  c.same_open_for,
  count_up seen b.failures b.max_failures c.below c.counted,
)

-- After any answers from a new breaker on, a failing call opens the circuit, for `openFor` from
-- its own end, exactly when the failures since the last success (cancellations aside, this one
-- included) are a multiple of the limit; else it leaves the opening time alone.
pub settle_opens :
    (m c o : ℤ) (os : List (ℕ × Outcome)) (now : ℕ) (r : ModelResult) (e : String)
    → let new = new_circuit_breaker m c o in
      (settle now (failed r e) (settle_all os new)).opened_until ≡ (
        if ((streak 0 os + 1) % new.max_failures) == 0
        then now + new.open_for
        else (settle_all os new).opened_until)
settle_opens m c o os now r e =
    opened (new_circuit_breaker m c o) _ (streak 0 os) now r e
      (settle_all-Counts (new_circuit_breaker m c o) os _ 0 (new-Counts m c o))

-- Calls one after the other, each with its clock readings, and what they return.
pub record Call : Type 0 where
  pub now : ℕ
  pub waited : Bool
  pub outcome : Outcome
  pub finished : ℕ

unfoldable pub audit_all : List Call → CircuitBreaker → CircuitBreaker × List Reply
audit_all [] b = (b, [])
audit_all (c ∷ cs) b =
    let (b', reply) = audit c.now c.waited c.outcome c.finished b in
    let (b'', replies) = audit_all cs b' in (b'', reply ∷ replies)

-- While the circuit is open every call is refused: none reaches the auditor or the semaphore, so
-- whatever it would have answered, the count of failures and the opening time stay.
pub audit_all_open :
    (cs : List Call) (b : CircuitBreaker)
    → All (λ c. c.now < b.opened_until) cs
    → All (λ reply. reply ≡ circuit_open) (audit_all cs b).1
      × ((audit_all cs b).0.failures ≡ b.failures)
      × ((audit_all cs b).0.opened_until ≡ b.opened_until)
      × ((audit_all cs b).0.in_flight ≡ b.in_flight)
unfolding audit_all audit
audit_all_open [] b h = (tt, refl, refl, refl)
audit_all_open (c ∷ cs) b (h, hs) =
    let ih = audit_all_open cs (refuse b) hs in
    rw (lt→ltb c.now b.opened_until h) ((refl, ih.0), ih.1, ih.2, ih.3)

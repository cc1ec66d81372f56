-- ===== src/Audit/Circuit.antt =====
-- internal/audit/circuit.go: the circuit breaker before the synchronous auditor. `Audit` is cut
-- where it gives up its lock: the test of `openedUntil`, the wait for a slot of the semaphore, and
-- the bookkeeping behind the inner call. Instants are nanoseconds; the inner auditor's answer is
-- an argument, and `canceled` is an answer whose error is `context.Canceled`. `metrics` logs the
-- counters that were incremented; the duration histogram is left out.
use llm_security_audit_gatew.Base.{
  ℕ, ◌+◌, ◌-◌, ◌≤◌, ◌<◌, String, ℤ, pos, pos_part, ltb_ℤ, leb_ℤ, List, [], ◌∷◌, Bool, ltb, leb,
  if◌then◌else◌,
}
use llm_security_audit_gatew.Audit.{ModelResult}

pub record CircuitBreaker : Type 0 where
  pub max_failures : ℕ
  pub concurrency : ℕ
  pub open_for : ℕ
  pub in_flight : ℕ  -- how many slots of `sem` are taken
  pub failures : ℕ
  pub opened_until : ℕ
  pub metrics : List (String × String)

unfoldable pub new_circuit_breaker : ℤ → ℤ → ℤ → CircuitBreaker
new_circuit_breaker max_failures concurrency open_for = record {
  max_failures = if ltb_ℤ max_failures (pos 1) then 5 else pos_part max_failures;
  concurrency = if ltb_ℤ concurrency (pos 1) then 1 else pos_part concurrency;
  open_for = if leb_ℤ open_for (pos 0) then 30_000_000_000 else pos_part open_for;
  in_flight = 0;
  failures = 0;
  opened_until = 0;
  metrics = [];
}

-- What the inner auditor returned.
pub data Outcome : Type 0 where
  success : ModelResult → Outcome
  canceled : ModelResult → Outcome
  failed : ModelResult → String → Outcome

-- What `Audit` returns.
pub data Reply : Type 0 where
  circuit_open : Reply
  context_done : Reply
  answered : Outcome → Reply

abbrev pub inc : String → String → CircuitBreaker → CircuitBreaker
inc name result b = record b { metrics = (name, result) ∷ b.metrics }

-- `time.Now().Before(b.openedUntil)`.
abbrev pub is_open : ℕ → CircuitBreaker → Bool
is_open now b = ltb now b.opened_until

abbrev pub refuse : CircuitBreaker → CircuitBreaker
refuse b = inc "audit_auditor_calls_total" "circuit_open" b

abbrev pub acquire : CircuitBreaker → CircuitBreaker
acquire b = record b { in_flight = b.in_flight + 1 }

-- The deferred `<-b.sem`.
abbrev pub release : CircuitBreaker → CircuitBreaker
release b = record b { in_flight = b.in_flight - 1 }

-- Behind the inner call, under the lock.
unfoldable pub settle : ℕ → Outcome → CircuitBreaker → CircuitBreaker
settle now (canceled r) b = inc "audit_auditor_calls_total" "canceled" b
settle now (success r) b = inc "audit_auditor_calls_total" "success" (record b { failures = 0 })
settle now (failed r e) b =
    let b' = inc "audit_auditor_calls_total" "error" (record b { failures = b.failures + 1 }) in
    if leb b'.max_failures b'.failures
    then inc "audit_auditor_circuit_open_total" ""
        (record b' { opened_until = now + b'.open_for; failures = 0 })
    else b'

-- A whole call of `Audit` that no other call interleaves with: `waited` says whether the slot
-- came before the end of the caller's context.
unfoldable pub audit : ℕ → Bool → Outcome → ℕ → CircuitBreaker → CircuitBreaker × Reply
unfolding settle
audit now waited outcome finished b =
    if is_open now b
    then (refuse b, circuit_open)
    else if waited
    then (release (settle finished outcome (acquire b)), answered outcome)
    else (b, context_done)

-- What any of the goroutines may do next. A goroutine that passed the gate waits, then takes a
-- free slot or leaves, and one that holds a slot settles its answer and frees the slot.
pub record Callers : Type 0 where
  pub breaker : CircuitBreaker
  pub waiting : ℕ

pub data Step : Callers → Callers → Type 0 where
  refused :
      (c : Callers) (now : ℕ)
      → now < c.breaker.opened_until
      → Step c (record c { breaker = refuse c.breaker })
  admitted :
      (c : Callers) (now : ℕ)
      → c.breaker.opened_until ≤ now
      → Step c (record c { waiting = c.waiting + 1 })
  acquired :
      (c : Callers)
      → 0 < c.waiting
      → c.breaker.in_flight < c.breaker.concurrency
      → Step c (record c { breaker = acquire c.breaker; waiting = c.waiting - 1 })
  left : (c : Callers) → 0 < c.waiting → Step c (record c { waiting = c.waiting - 1 })
  settled :
      (c : Callers) (now : ℕ) (outcome : Outcome)
      → 0 < c.breaker.in_flight
      → Step c (record c { breaker = release (settle now outcome c.breaker) })

pub data Reach (s : Callers) : Callers → Type 0 where
  here : Reach s s
  next : {t u : Callers} → Reach s t → Step t u → Reach s u

-- ===== src/Events/Running.antt =====
-- internal/events/events.go: the worker of the pipeline, left to run.
use llm_security_audit_gatew.Base.{
  ℕ, zero, suc, ◌+◌, ◌*◌, ◌≡◌, length, Option, none, some, true, false,
}
use llm_security_audit_gatew.Events.Pipeline.{
  Worker, filling, storing, waiting, releasing, storing_last, releasing_last, ended, Pipeline,
  retry_delay, worker_step,
}
use llm_security_audit_gatew.Events.Counting.{After}

-- The worker left to itself in front of a sink that stores, until it blocks or returns.
abbrev pub from_here : (Pipeline → Pipeline) → Pipeline → Option Pipeline → Pipeline
from_here continue p none = p
from_here continue p (some q) = continue q

unfoldable pub run_worker : ℕ → Pipeline → Pipeline
run_worker zero p = p
run_worker (suc fuel) p = from_here (run_worker fuel) p (worker_step none retry_delay p)

abbrev pub worker_weight : Worker → ℕ
worker_weight filling = 1
worker_weight storing = 0
worker_weight waiting = 1
worker_weight releasing = 2
worker_weight storing_last = 0
worker_weight releasing_last = 2
worker_weight ended = 0

-- Steps that suffice: each event is received, stored and gives a token back.
abbrev pub work : Pipeline → ℕ
work p = 6 * length p.ch + 5 * length p.batch + p.owed + worker_weight p.worker

-- The worker is in its loop, the sink is there, and nobody closes the pipeline.
abbrev pub Live : Worker → Type 0
Live storing_last = ⊥
Live releasing_last = ⊥
Live ended = ⊥
Live _ = Unit {0}

pub record Running (p : Pipeline) : Type 0 where
  pub live : Live p.worker
  pub sink : p.has_sink ≡ true
  pub not_closing : p.closing ≡ false
  pub not_closed : p.closed ≡ false

-- What every step keeps, the whole run keeps.
pub run_worker_keeps :
    (P : Pipeline → Type 0)
    → ((p : Pipeline) → P p → After P (worker_step none retry_delay p))
    → (fuel : ℕ) (p : Pipeline) → P p
    → P (run_worker fuel p)
unfolding run_worker
run_worker_keeps P step zero p h = h
run_worker_keeps P step (suc fuel) p h =
    on (worker_step none retry_delay p) (step p h) (run_worker_keeps P step fuel)
  where
    on :
        (o : Option Pipeline)
        → After P o
        → ((q : Pipeline) → P q → P (run_worker fuel q))
        → P (from_here (run_worker fuel) p o)
    on none f ih = h
    on (some q) f ih = ih q f

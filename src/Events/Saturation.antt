-- ===== src/Events/Saturation.antt =====
-- internal/events/events.go: the pipeline's mark of saturation, set late.
use llm_security_audit_gatew.Base.{
  suc, ◌≡◌, refl, ap, subst, ℤ, List, [], ◌∷◌, length, none, Bool, true, false, arith, ltb,
  Bool-cases, inl, inr, ◌==◌,
}
use llm_security_audit_gatew.Audit.{Event}
use llm_security_audit_gatew.Events.Pipeline.{
  Worker, filling, storing, waiting, releasing, storing_last, releasing_last, ended, Pipeline,
  status, ready, refuse, receive, fill, give_back, retry_delay, step_at, new_pipeline, refused,
  Reach, next,
}
use llm_security_audit_gatew.Events.Running.{run_worker, work, Running, run_worker_keeps}
use llm_security_audit_gatew.Events.Draining.{run_worker_drains}
use llm_security_audit_gatew.Events.Counting.{After, At}
use llm_security_audit_gatew.Events.Slots.{Reach-Inv}

length-zero : (l : List Event) → length l ≡ 0 → l ≡ []
length-zero [] e = refl
length-zero (x ∷ l) e = absurd (omega arith)

-- Nothing left to store, and marked as saturated.
abbrev Giving : Worker → Type 0
Giving filling = Unit {0}
Giving releasing = Unit
Giving _ = ⊥

record Stuck (p : Pipeline) : Type 0 where
  worker : Giving p.worker
  no_ch : p.ch ≡ []
  no_batch : p.batch ≡ []
  not_closed : p.closed ≡ false
  saturated : p.saturated ≡ true

receive-Stuck :
    (p : Pipeline) (ch batch : List Event)
    → ch ≡ []
    → batch ≡ []
    → p.closed ≡ false
    → After Stuck (receive ch batch p)
unfolding receive
receive-Stuck p (e ∷ rest) batch ec eb open_still = absurd (cc)
receive-Stuck p [] (e ∷ batch) ec eb open_still = absurd (cc)
receive-Stuck p [] [] ec eb open_still = rw open_still tt

fill-Stuck : (p : Pipeline) → Stuck p → After Stuck (fill p)
unfolding fill
fill-Stuck p s = rw room (receive-Stuck p p.ch p.batch s.no_ch s.no_batch s.not_closed)
  where
    room : ltb (length p.batch) 100 ≡ true
    room = ground (arith, ap length s.no_batch)

give_back-Stuck :
    (p : Pipeline) → p.worker ≡ releasing → Stuck p → After Stuck (give_back filling p)
unfolding give_back
give_back-Stuck p ew s = elim (Bool-cases (p.owed == 0)) [
  | inl done ↦ rw done (record {
    worker = tt;
    no_ch = s.no_ch;
    no_batch = s.no_batch;
    not_closed = s.not_closed;
    saturated = s.saturated;
  })
  | inr more ↦ elim (Bool-cases (ltb p.slots p.capacity)) [
    | inl room ↦
        rw (more, room)
          (record {
            worker = s.worker;
            no_ch = s.no_ch;
            no_batch = s.no_batch;
            not_closed = s.not_closed;
            saturated = s.saturated;
          })
    | inr full ↦ rw (more, full) tt
  ]
]

step_at-Stuck :
    (w : Worker) (p : Pipeline)
    → p.worker ≡ w
    → Giving w
    → Stuck p
    → After Stuck (step_at w none retry_delay p)
unfolding step_at
step_at-Stuck filling p ew g s = fill-Stuck p s
step_at-Stuck releasing p ew g s = give_back-Stuck p ew s
step_at-Stuck storing p ew g s = absurd g
step_at-Stuck waiting p ew g s = absurd g
step_at-Stuck storing_last p ew g s = absurd g
step_at-Stuck releasing_last p ew g s = absurd g
step_at-Stuck ended p ew g s = absurd g

not_ready : (p : Pipeline) → p.saturated ≡ true → ready p ≡ false
not_ready p e = rw e refl

-- `storeOnce` clears `saturated` before it gives the tokens back. Where the last events are stored
-- and an `Enqueue` is refused before the first token is free, the worker ends up waiting with
-- nothing pending, every token free, and the pipeline not ready.
pub refused_outlasts :
    (size : ℤ) (has_sink : Bool) (p : Pipeline)
    → Reach (new_pipeline size has_sink) p
    → Running p
    → p.worker ≡ releasing
    → p.slots ≡ 0
    → p.ch ≡ []
    → p.holding ≡ []
    → p.panicked ≡ false
    → let q = run_worker (suc (work p)) (refuse p) in
      ((status q).pending ≡ 0) × (q.stored ≡ p.accepted) × (ready q ≡ false)
refused_outlasts size has_sink p r g ew no_slots ec eh ep =
    let d = run_worker_drains size has_sink (refuse p) (next r (refused no_slots)) (record {
      live = g.live;
      sink = g.sink;
      not_closing = g.not_closing;
      not_closed = g.not_closed;
    }) in
    let s =
      run_worker_keeps Stuck
        (λ (q : Pipeline) (h : Stuck q). step_at-Stuck q.worker q refl h.worker h) (suc (work p))
        (refuse p) stuck in
    (
      omega (arith, d.all_free ep, d.same_capacity, ap length eh),
      d.all_stored,
      not_ready (run_worker (suc (work p)) (refuse p)) s.saturated,
    )
  where
    no_events : p.batch ≡ []
    no_events =
        length-zero p.batch
          (subst (λ (w : Worker). At w p.owed (length p.batch)) ew (Reach-Inv size has_sink r).at)

    stuck : Stuck (refuse p)
    stuck = record {
      worker = rw ew tt;
      no_ch = ec;
      no_batch = no_events;
      not_closed = g.not_closed;
      saturated = refl;
    }

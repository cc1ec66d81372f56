-- ===== src/Events/Draining.antt =====
-- internal/events/events.go: what the worker of the pipeline gets done when it is left to run.
use llm_security_audit_gatew.Base.{
  ℕ, zero, suc, ◌+◌, ◌-◌, ◌<◌, ◌≡◌, refl, sym, ap, ap₂, ◌∙◌, subst, ℤ, List, [], ◌∷◌, ◌++◌, length,
  length-append, Option, none, some, Bool, true, false, arith, ltb, Bool-cases, inl, inr, ◌==◌,
  if◌then◌else◌,
}
use mathlib.Core.List.{append-nil}
use llm_security_audit_gatew.Audit.{Event}
use llm_security_audit_gatew.Events.Pipeline.{
  Worker, filling, storing, waiting, releasing, storing_last, releasing_last, ended, Pipeline,
  new_pipeline, receive, fill, sink_error, store_once, give_back, retry_delay, step_at, worker_step,
  worked, Reach, next,
}
use llm_security_audit_gatew.Events.Counting.{At, Inv, total-le, total, Tokens}
use llm_security_audit_gatew.Events.Slots.{Reach-Inv}
use llm_security_audit_gatew.Events.Fifo.{keeps_accepted}
use llm_security_audit_gatew.Events.Running.{
  from_here, run_worker, work, worker_weight, Live, Running,
}

record Onward (p q : Pipeline) : Type 0 where
  running : Running q
  less : work q < work p
  accepted : q.accepted ≡ p.accepted
  holding : q.holding ≡ p.holding
  capacity : q.capacity ≡ p.capacity
  panicked : q.panicked ≡ p.panicked

-- A step of a running worker leaves less work; where it blocks nothing is left to do.
abbrev OnwardOr : Pipeline → Option Pipeline → Type 0
OnwardOr p none = (p.worker ≡ filling) × (p.ch ≡ []) × (p.batch ≡ [])
OnwardOr p (some q) = Onward p q

-- A step that leaves the sink, the flags and the producers as they are.
onward :
    (p q : Pipeline)
    → Running p
    → Live q.worker
    → work q < work p
    → q.has_sink ≡ p.has_sink
    → q.closing ≡ p.closing
    → q.closed ≡ p.closed
    → q.accepted ≡ p.accepted
    → q.holding ≡ p.holding
    → q.capacity ≡ p.capacity
    → q.panicked ≡ p.panicked
    → Onward p q
onward p q r live less sink ending ended_ch accepted holding capacity panicked = record {
  running = record {
    live = live;
    sink = sink ∙ r.sink;
    not_closing = ending ∙ r.not_closing;
    not_closed = ended_ch ∙ r.not_closed;
  };
  less = less;
  accepted = accepted;
  holding = holding;
  capacity = capacity;
  panicked = panicked;
}

receive-OnwardOr :
    (p : Pipeline) (ch batch : List Event)
    → p.ch ≡ ch
    → p.batch ≡ batch
    → p.worker ≡ filling
    → Running p
    → OnwardOr p (receive ch batch p)
unfolding receive
receive-OnwardOr p (e ∷ rest) batch ec eb ew r =
    onward p _ r (rw ew tt)
      (omega (arith, ap length ec, ap length eb, length-append batch (e ∷ []))) refl refl refl refl
      refl refl refl
receive-OnwardOr p [] [] ec eb ew r = rw r.not_closed (ew, ec, eb)
receive-OnwardOr p [] (e ∷ batch) ec eb ew r =
    subst (λ (b : Bool). Onward p (record p { worker = if b then storing_last else storing }))
      (sym r.not_closed)
      (onward p (record p { worker = storing }) r tt (omega (arith, ap worker_weight ew)) refl refl
        refl refl refl refl refl)

fill-OnwardOr : (p : Pipeline) → p.worker ≡ filling → Running p → OnwardOr p (fill p)
unfolding fill
fill-OnwardOr p ew r = elim (Bool-cases (ltb (length p.batch) 100)) [
  | inl room ↦ rw room (receive-OnwardOr p p.ch p.batch refl refl ew r)
  | inr full ↦
      rw full
        (onward p _ r tt (omega (arith, ap worker_weight ew)) refl refl refl refl refl refl refl)
]

give_back-OnwardOr :
    (p : Pipeline) → p.worker ≡ releasing → Inv p → Running p → OnwardOr p (give_back filling p)
unfolding give_back
give_back-OnwardOr p ew v r = elim (Bool-cases (p.owed == 0)) [
  | inl done ↦
      rw done
        (onward p _ r tt (omega (arith, ap worker_weight ew)) refl refl refl refl refl refl refl)
  | inr more ↦
      rw (more, room more) (onward p _ r r.live (less more) refl refl refl refl refl refl refl)
]
  where
    room : (p.owed == 0) ≡ false → ltb p.slots p.capacity ≡ true
    room more = ground (arith, total-le v)

    less :
        (p.owed == 0) ≡ false → work (record p { owed = p.owed - 1; slots = p.slots + 1 }) < work p
    less more = ground arith

store-Onward :
    (p : Pipeline)
    → p.worker ≡ storing
    → 0 < length p.batch
    → p.owed ≡ 0
    → Running p
    → Onward p (store_once (sink_error p.has_sink none) releasing waiting p)
unfolding store_once
store-Onward p ew some_event o r =
    subst (λ (b : Bool). Onward p (store_once (sink_error b none) releasing waiting p)) (sym r.sink)
      (onward p (store_once none releasing waiting p) r tt (omega (arith, ap worker_weight ew)) refl
        refl refl refl refl refl refl)

step_at-OnwardOr :
    (w : Worker) (p : Pipeline)
    → p.worker ≡ w
    → At w p.owed (length p.batch)
    → Live w
    → Inv p
    → Running p
    → OnwardOr p (step_at w none retry_delay p)
unfolding step_at
step_at-OnwardOr filling p ew a l v r = fill-OnwardOr p ew r
step_at-OnwardOr storing p ew a l v r = store-Onward p ew a.1 a.0 r
step_at-OnwardOr waiting p ew a l v r =
    subst (λ (b : Bool). Onward p (record p { worker = if b then storing_last else storing }))
      (sym r.not_closing)
      (onward p (record p { worker = storing }) r tt (omega (arith, ap worker_weight ew)) refl refl
        refl refl refl refl refl)
step_at-OnwardOr releasing p ew a l v r = give_back-OnwardOr p ew v r
step_at-OnwardOr storing_last p ew a l v r = absurd l
step_at-OnwardOr releasing_last p ew a l v r = absurd l
step_at-OnwardOr ended p ew a l v r = absurd l

-- Everything accepted is stored, and every token that no producer has is free.
pub record Drained (p q : Pipeline) : Type 0 where
  pub all_stored : q.stored ≡ p.accepted
  pub all_accepted : q.accepted ≡ p.accepted
  pub same_capacity : q.capacity ≡ p.capacity
  pub all_free : p.panicked ≡ false → q.slots + length p.holding ≡ p.capacity

drained :
    (p : Pipeline)
    → p.worker ≡ filling
    → p.ch ≡ []
    → p.batch ≡ []
    → p.stored ++ (p.batch ++ p.ch) ≡ p.accepted
    → Inv p
    → Drained p p
drained p ew ec eb kept v = record {
  all_stored = stored_all;
  all_accepted = refl;
  same_capacity = refl;
  all_free = λ e. free e;
}
  where
    stored_all : p.stored ≡ p.accepted
    stored_all =
        sym (append-nil p.stored)
        ∙ sym (ap₂ (λ (x y : List Event). p.stored ++ (x ++ y)) eb ec)
        ∙ kept

    free : p.panicked ≡ false → p.slots + length p.holding ≡ p.capacity
    free e = omega (
      arith,
      subst (λ (b : Bool). Tokens b (total p) p.capacity) e v.tokens,
      subst (λ (w : Worker). At w p.owed (length p.batch)) ew v.at,
      ap length ec,
      ap length eb,
    )

Onward-Drained : {p q r : Pipeline} → Onward p q → Drained q r → Drained p r
Onward-Drained {p} {q} {r} o d = record {
  all_stored = d.all_stored ∙ o.accepted;
  all_accepted = d.all_accepted ∙ o.accepted;
  same_capacity = d.same_capacity ∙ o.capacity;
  all_free = λ e.
      ap (λ (l : List Event). r.slots + length l) (sym o.holding)
      ∙ d.all_free (o.panicked ∙ e)
      ∙ o.capacity;
}

module _ (size : ℤ) (has_sink : Bool) where
  from_here-Drained :
      (p : Pipeline) (run : Pipeline → Pipeline) (o : Option Pipeline)
      → ((q : Pipeline)
          → Reach (new_pipeline size has_sink) q
          → Running q
          → work q < work p
          → Drained q (run q))
      → Reach (new_pipeline size has_sink) p
      → worker_step none retry_delay p ≡ o
      → OnwardOr p o
      → Drained p (from_here run p o)
  from_here-Drained p run none ih r e f =
      drained p f.0 f.1 f.2 (keeps_accepted size has_sink r) (Reach-Inv size has_sink r)
  from_here-Drained p run (some q) ih r e f =
      Onward-Drained f (ih q (next r (worked none retry_delay e)) f.running f.less)

  run_worker-Drained :
      (fuel : ℕ) (p : Pipeline)
      → Reach (new_pipeline size has_sink) p
      → Running p
      → work p < fuel
      → Drained p (run_worker fuel p)
  unfolding run_worker
  run_worker-Drained zero p r g h = elim h [ ]
  run_worker-Drained (suc fuel) p r g h =
      let v = Reach-Inv size has_sink r in
      from_here-Drained p (run_worker fuel) (worker_step none retry_delay p)
        (λ q r' g' less. run_worker-Drained fuel q r' g' (omega arith)) r refl
        (step_at-OnwardOr p.worker p refl v.at g.live v g)

  -- From any reachable state in which the worker is in its loop, the sink is there and stores again
  -- and nobody closes the pipeline, the worker stores within `work p` steps every event that
  -- `Enqueue` accepted, then waits for more, each token free that no producer has.
  pub run_worker_drains :
      (p : Pipeline)
      → Reach (new_pipeline size has_sink) p
      → Running p
      → Drained p (run_worker (suc (work p)) p)
  run_worker_drains p r g = run_worker-Drained (suc (work p)) p r g (omega arith)

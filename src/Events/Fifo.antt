-- ===== src/Events/Fifo.antt =====
-- What the pipeline of internal/events/events.go promises: a bounded FIFO of events in front of
-- durable storage. Tokens, batches, retries and the shutdown are details of it.
use llm_security_audit_gatew.Base.{
  ℕ, ◌<◌, ◌≡◌, refl, sym, ap, ap₂, ◌∙◌, subst, String, ℤ, List, [], ◌∷◌, ◌++◌, length,
  length-append, Option, none, some, Bool, arith, ltb, Bool-cases, inl, inr, ◌==◌,
}
use mathlib.Core.List.{append_assoc}
use llm_security_audit_gatew.Audit.{Event}
use llm_security_audit_gatew.Events.Pipeline.{
  Worker, filling, storing, waiting, releasing, storing_last, releasing_last, ended, Pipeline,
  new_pipeline, send, receive, fill, store_once, give_back, Timer, retry_delay, flush_timer,
  step_at, Step, took, sent, refused, worked, close_begun, closed, Reach, here, next,
}
use llm_security_audit_gatew.Events.Counting.{After, Inv, total-le, length-middle}
use llm_security_audit_gatew.Events.Slots.{Reach-Inv}

-- The specification: the events accepted and not durable, oldest first, the durable ones, and all
-- that were ever accepted.
pub record Queue : Type 0 where
  pub pending : List Event
  pub durable : List Event
  pub accepted : List Event

pub data Move (capacity : ℕ) : Queue → Queue → Type 0 where
  accept :
      (q : Queue) (event : Event)
      → length q.pending < capacity
      → Move capacity q
          (record q { pending = q.pending ++ (event ∷ []); accepted = q.accepted ++ (event ∷ []) })
  persist :
      (oldest rest durable accepted : List Event)
      → Move capacity
          (record { pending = oldest ++ rest; durable = durable; accepted = accepted })
          (record { pending = rest; durable = durable ++ oldest; accepted = accepted })

pub data Run (capacity : ℕ) (s : Queue) : Queue → Type 0 where
  start : Run capacity s s
  move : {t u : Queue} → Run capacity s t → Move capacity t u → Run capacity s u

abbrev pub queue : List Event → List Event → List Event → Queue
queue accepted durable pending = record {
  pending = pending;
  durable = durable;
  accepted = accepted;
}

abbrev pub view : Pipeline → Queue
view p = queue p.accepted p.stored (p.batch ++ p.ch)

-- A step of the code is no move of the specification, or one.
data Simulated (capacity : ℕ) (s : Queue) : Queue → Type 0 where
  stutter : {t : Queue} → t ≡ s → Simulated capacity s t
  once : {t : Queue} → Move capacity s t → Simulated capacity s t

-- What a step does to the view, keeping the capacity.
record Follows (p q : Pipeline) : Type 0 where
  capacity : q.capacity ≡ p.capacity
  simulated : Simulated p.capacity (view p) (view q)

receive-Follows :
    (p : Pipeline) (ch batch : List Event)
    → p.ch ≡ ch
    → p.batch ≡ batch
    → After (Follows p) (receive ch batch p)
unfolding receive
receive-Follows p (e ∷ rest) batch ec eb = record {
  capacity = refl;
  simulated = stutter (
      ap (queue p.accepted p.stored)
        (append_assoc batch (e ∷ []) rest ∙ ap₂ (λ (x y : List Event). x ++ y) (sym eb) (sym ec)));
}
receive-Follows p [] [] ec eb = elim (Bool-cases p.closed) [
  | inl yes_closed ↦ rw yes_closed (record { capacity = refl; simulated = stutter refl })
  | inr open_still ↦ rw open_still tt
]
receive-Follows p [] (e ∷ batch) ec eb = record { capacity = refl; simulated = stutter refl }

fill-Follows : (p : Pipeline) → After (Follows p) (fill p)
unfolding fill
fill-Follows p = elim (Bool-cases (ltb (length p.batch) 100)) [
  | inl room ↦ rw room (receive-Follows p p.ch p.batch refl refl)
  | inr full ↦ rw full (record { capacity = refl; simulated = stutter refl })
]

store_once-Follows :
    (answer : Option String) (on_success on_failure : Worker) (p : Pipeline)
    → Follows p (store_once answer on_success on_failure p)
unfolding store_once
store_once-Follows none on_success on_failure p = record {
  capacity = refl;
  simulated = once (persist p.batch p.ch p.stored p.accepted);
}
store_once-Follows (some message) on_success on_failure p = record {
  capacity = refl;
  simulated = stutter refl;
}

give_back-Follows : (after : Worker) (p : Pipeline) → After (Follows p) (give_back after p)
unfolding give_back
give_back-Follows after p = elim (Bool-cases (p.owed == 0)) [
  | inl done ↦ rw done (record { capacity = refl; simulated = stutter refl })
  | inr more ↦ elim (Bool-cases (ltb p.slots p.capacity)) [
    | inl room ↦ rw (more, room) (record { capacity = refl; simulated = stutter refl })
    | inr full ↦ rw (more, full) tt
  ]
]

step_at-Follows :
    (w : Worker) (answer : Option String) (timer : Timer) (p : Pipeline)
    → After (Follows p) (step_at w answer timer p)
unfolding step_at
step_at-Follows filling answer timer p = fill-Follows p
step_at-Follows storing answer timer p = store_once-Follows _ releasing waiting p
step_at-Follows waiting answer retry_delay p = record { capacity = refl; simulated = stutter refl }
step_at-Follows waiting answer flush_timer p = record { capacity = refl; simulated = stutter refl }
step_at-Follows releasing answer timer p = give_back-Follows filling p
step_at-Follows storing_last answer timer p = store_once-Follows _ releasing_last ended p
step_at-Follows releasing_last answer timer p = give_back-Follows ended p
step_at-Follows ended answer timer p = tt

send-Follows :
    (before : List Event) (event : Event) (after : List Event) (p : Pipeline)
    → p.holding ≡ before ++ (event ∷ after)
    → Inv p
    → Follows p (send before event after p)
send-Follows before event after p e v = elim (Bool-cases p.closed) [
  | inl yes_closed ↦ rw yes_closed (record { capacity = refl; simulated = stutter refl })
  | inr open_still ↦ rw open_still (elim (Bool-cases (ltb (length p.ch) p.capacity)) [
    | inl room ↦ rw room (record { capacity = refl; simulated = once accepted })
    | inr full ↦ rw full (record { capacity = refl; simulated = stutter refl })
  ])
]
  where
    grown : List Event
    grown = p.accepted ++ (event ∷ [])

    accepted : Move p.capacity (view p) (queue grown p.stored (p.batch ++ (p.ch ++ (event ∷ []))))
    accepted =
        subst (λ (l : List Event). Move p.capacity (view p) (queue grown p.stored l))
          (append_assoc p.batch p.ch (event ∷ []))
          (accept (view p) event (
            omega
              (arith, total-le v, length-middle before event after e, length-append p.batch p.ch)))

Step-Follows : {p q : Pipeline} → Step p q → Inv p → Follows p q
Step-Follows (took event free) v = record { capacity = refl; simulated = stutter refl }
Step-Follows {p} (sent before event after e) v = send-Follows before event after p e v
Step-Follows (refused none_left) v = record { capacity = refl; simulated = stutter refl }
Step-Follows {p} (worked answer timer e) v =
    subst (After (Follows p)) e (step_at-Follows p.worker answer timer p)
Step-Follows close_begun v = record { capacity = refl; simulated = stutter refl }
Step-Follows (closed e) v = record { capacity = refl; simulated = stutter refl }

-- The capacity that `NewPipeline` picks.
abbrev pub chosen : ℤ → Bool → ℕ
chosen size has_sink = (new_pipeline size has_sink).capacity

record Refined (capacity : ℕ) (p : Pipeline) : Type 0 where
  same : p.capacity ≡ capacity
  run : Run capacity (queue [] [] []) (view p)

extend :
    {capacity : ℕ} {s t u : Queue} → Run capacity s t → Simulated capacity t u → Run capacity s u
extend {capacity} {s} r (stutter e) = subst (Run capacity s) (sym e) r
extend r (once m) = move r m

Reach-Refined :
    (size : ℤ) (has_sink : Bool) {p : Pipeline}
    → Reach (new_pipeline size has_sink) p
    → Refined (chosen size has_sink) p
unfolding new_pipeline
Reach-Refined size has_sink here = record { same = refl; run = start }
Reach-Refined size has_sink (next {p} {q} r s) =
    let ih = Reach-Refined size has_sink r in
    let f = Step-Follows s (Reach-Inv size has_sink r) in
    record {
      same = f.capacity ∙ ih.same;
      run = extend ih.run (subst (λ (n : ℕ). Simulated n (view p) (view q)) ih.same f.simulated);
    }

-- Whatever producers, the worker, the sink and `Close` do, the events in the batch and the channel
-- and the stored ones are those of a FIFO of the configured capacity that accepts an event only
-- while it holds fewer, behind those it holds, and makes durable its oldest ones in their order.
pub refines_queue :
    (size : ℤ) (has_sink : Bool) {p : Pipeline}
    → Reach (new_pipeline size has_sink) p
    → Run (chosen size has_sink) (record { pending = []; durable = []; accepted = [] }) (view p)
refines_queue size has_sink r = (Reach-Refined size has_sink r).run

Move-conserves :
    {capacity : ℕ} {q r : Queue}
    → Move capacity q r
    → q.durable ++ q.pending ≡ q.accepted
    → r.durable ++ r.pending ≡ r.accepted
Move-conserves (accept q event h) e =
    sym (append_assoc q.durable q.pending (event ∷ []))
    ∙ ap (λ (l : List Event). l ++ (event ∷ [])) e
Move-conserves (persist oldest rest durable accepted) e = append_assoc durable oldest rest ∙ e

Run-conserves :
    {capacity : ℕ} {q : Queue}
    → Run capacity (queue [] [] []) q
    → q.durable ++ q.pending ≡ q.accepted
Run-conserves start = refl
Run-conserves (move r m) = Move-conserves m (Run-conserves r)

-- The stored events, those of the batch and those in the channel are, in this order, the events
-- that `Enqueue` accepted: none is lost, doubled or overtaken, also where stores fail and where
-- the pipeline is closed.
pub keeps_accepted :
    (size : ℤ) (has_sink : Bool) {p : Pipeline}
    → Reach (new_pipeline size has_sink) p
    → p.stored ++ (p.batch ++ p.ch) ≡ p.accepted
keeps_accepted size has_sink r = Run-conserves (refines_queue size has_sink r)

-- ===== src/Events/Shutdown.antt =====
-- internal/events/events.go: the events left in the pipeline's channel at shutdown.
use llm_security_audit_gatew.Base.{
  ℕ, ◌≡◌, refl, sym, subst, String, List, Option, none, some, Bool, true, ltb, Bool-cases, inl, inr,
  ◌==◌, if◌then◌else◌,
}
use llm_security_audit_gatew.Audit.{Event}
use llm_security_audit_gatew.Events.Pipeline.{
  Worker, filling, storing, waiting, releasing, storing_last, releasing_last, ended, Pipeline,
  store_once, give_back, retry_delay, step_at,
}
use llm_security_audit_gatew.Events.Running.{run_worker, run_worker_keeps}
use llm_security_audit_gatew.Events.Counting.{After}

-- On its way out, with the channel's events left behind.
abbrev Leaving : Worker → Bool → Type 0
Leaving waiting closing = closing ≡ true
Leaving storing_last closing = Unit
Leaving releasing_last closing = Unit
Leaving ended closing = Unit
Leaving _ closing = ⊥

record Abandons (ch : List Event) (p : Pipeline) : Type 0 where
  leaving : Leaving p.worker p.closing
  same_ch : p.ch ≡ ch

store_once-Abandons :
    (ch : List Event) (answer : Option String) (p : Pipeline)
    → p.ch ≡ ch
    → Abandons ch (store_once answer releasing_last ended p)
unfolding store_once
store_once-Abandons ch none p e = record { leaving = tt; same_ch = e }
store_once-Abandons ch (some message) p e = record { leaving = tt; same_ch = e }

give_back-Abandons :
    (ch : List Event) (p : Pipeline)
    → p.worker ≡ releasing_last
    → p.ch ≡ ch
    → After (Abandons ch) (give_back ended p)
unfolding give_back
give_back-Abandons ch p ew e = elim (Bool-cases (p.owed == 0)) [
  | inl done ↦ rw done (record { leaving = tt; same_ch = e })
  | inr more ↦ elim (Bool-cases (ltb p.slots p.capacity)) [
    | inl room ↦ rw (more, room) (record { leaving = rw ew tt; same_ch = e })
    | inr full ↦ rw (more, full) tt
  ]
]

step_at-Abandons :
    (ch : List Event) (w : Worker) (p : Pipeline)
    → p.worker ≡ w
    → Leaving w p.closing
    → p.ch ≡ ch
    → After (Abandons ch) (step_at w none retry_delay p)
unfolding step_at
step_at-Abandons ch waiting p ew l e =
    subst (λ (b : Bool). Abandons ch (record p { worker = if b then storing_last else storing }))
      (sym l) (record { leaving = tt; same_ch = e })
step_at-Abandons ch storing_last p ew l e = store_once-Abandons ch _ p e
step_at-Abandons ch releasing_last p ew l e = give_back-Abandons ch p ew e
step_at-Abandons ch ended p ew l e = tt
step_at-Abandons ch filling p ew l e = absurd l
step_at-Abandons ch storing p ew l e = absurd l
step_at-Abandons ch releasing p ew l e = absurd l

-- Where a store failed and the pipeline is being closed, the worker takes no further event from the
-- channel once the retry delay is over: even if the sink stores again, what is in the channel stays
-- there.
pub shutdown_abandons :
    (fuel : ℕ) (p : Pipeline)
    → p.worker ≡ waiting
    → p.closing ≡ true
    → (run_worker fuel p).ch ≡ p.ch
shutdown_abandons fuel p ew c =
    (run_worker_keeps (Abandons p.ch)
      (λ (q : Pipeline) (h : Abandons p.ch q).
        step_at-Abandons p.ch q.worker q refl h.leaving h.same_ch)
      fuel p (record { leaving = rw ew c; same_ch = refl })).same_ch

-- ===== src/Events/Counting.antt =====
-- The tokens of the pipeline of internal/events/events.go.
use llm_security_audit_gatew.Base.{
  ℕ, suc, ◌+◌, ◌≤◌, ◌<◌, ◌≡◌, refl, ap, ◌∙◌, String, ℤ, List, [], ◌∷◌, ◌++◌, length, length-append,
  Option, none, some, Bool, true, false, arith, ltb, Bool-cases, inl, inr, ◌==◌,
}
use llm_security_audit_gatew.Audit.{Event}
use llm_security_audit_gatew.Events.Pipeline.{
  Worker, filling, storing, waiting, releasing, storing_last, releasing_last, ended, Pipeline,
  new_pipeline, receive, fill, sink_error, store_once, give_back, Timer, retry_delay, flush_timer,
  wake, step_at,
}

-- What is owed and how large the batch is, where the worker stands.
abbrev pub At : Worker → ℕ → ℕ → Type 0
At filling owed n = owed ≡ 0
At storing owed n = (owed ≡ 0) × (0 < n)
At waiting owed n = (owed ≡ 0) × (0 < n)
At releasing owed n = n ≡ 0
At storing_last owed n = (owed ≡ 0) × (0 < n)
At releasing_last owed n = n ≡ 0
At ended owed n = owed ≡ 0

-- All the tokens there are: free, with a producer, for an event, owed.
abbrev pub total : Pipeline → ℕ
total p = p.slots + length p.holding + length p.ch + length p.batch + p.owed

-- A producer that panics loses its token.
abbrev pub Tokens : Bool → ℕ → ℕ → Type 0
Tokens true n capacity = n ≤ capacity
Tokens false n capacity = n ≡ capacity

pub record Inv (p : Pipeline) : Type 0 where
  pub tokens : Tokens p.panicked (total p) p.capacity
  pub batch_max : length p.batch ≤ 100
  pub at : At p.worker p.owed (length p.batch)

Tokens-le : (b : Bool) (n capacity : ℕ) → Tokens b n capacity → n ≤ capacity
Tokens-le true n c h = h
Tokens-le false n c h = omega arith

pub total-le : {p : Pipeline} → Inv p → total p ≤ p.capacity
total-le {p} v = Tokens-le p.panicked (total p) p.capacity v.tokens

pub new-Inv : (size : ℤ) (has_sink : Bool) → Inv (new_pipeline size has_sink)
unfolding new_pipeline
new-Inv size has_sink = record { tokens = omega arith; batch_max = omega arith; at = refl }

pub Tokens-same :
    (b : Bool) (capacity : ℕ) {n m : ℕ} → n ≡ m → Tokens b n capacity → Tokens b m capacity
Tokens-same true capacity e h = omega arith
Tokens-same false capacity e h = omega arith

pub length-middle :
    (before : List Event) (event : Event) (after : List Event) {l : List Event}
    → l ≡ before ++ (event ∷ after)
    → length l ≡ suc (length (before ++ after))
length-middle before event after e =
    ap length e ∙ omega (arith, length-append before (event ∷ after), length-append before after)

abbrev pub After : (Pipeline → Type 0) → Option Pipeline → Type 0
After P none = Unit
After P (some q) = P q

receive-Inv :
    (p : Pipeline) (ch batch : List Event)
    → p.ch ≡ ch
    → p.batch ≡ batch
    → p.worker ≡ filling
    → p.owed ≡ 0
    → length batch < 100
    → Inv p
    → After Inv (receive ch batch p)
unfolding receive
receive-Inv p (e ∷ rest) batch ec eb ew o small v = record {
  tokens =
      Tokens-same p.panicked p.capacity
        (omega (arith, ap length ec, ap length eb, length-append batch (e ∷ []))) v.tokens;
  batch_max = omega (arith, length-append batch (e ∷ []));
  at = rw ew o;
}
receive-Inv p [] [] ec eb ew o small v = elim (Bool-cases p.closed) [
  | inl yes_closed ↦ rw yes_closed (record { tokens = v.tokens; batch_max = v.batch_max; at = o })
  | inr open_still ↦ rw open_still tt
]
receive-Inv p [] (e ∷ batch) ec eb ew o small v =
    let more : 0 < length p.batch = omega (arith, ap length eb) in
    elim (Bool-cases p.closed) [
      | inl yes_closed ↦
          rw yes_closed (record { tokens = v.tokens; batch_max = v.batch_max; at = (o, more) })
      | inr open_still ↦
          rw open_still (record { tokens = v.tokens; batch_max = v.batch_max; at = (o, more) })
    ]

fill-Inv : (p : Pipeline) → p.worker ≡ filling → p.owed ≡ 0 → Inv p → After Inv (fill p)
unfolding fill
fill-Inv p ew o v = elim (Bool-cases (ltb (length p.batch) 100)) [
  | inl room ↦ rw room (receive-Inv p p.ch p.batch refl refl ew o (ground arith) v)
  | inr full ↦
      rw full (record { tokens = v.tokens; batch_max = v.batch_max; at = (o, ground arith) })
]

store_once-Inv :
    (answer : Option String) (on_success on_failure : Worker) (p : Pipeline)
    → p.owed ≡ 0
    → ((n : ℕ) → At on_success n 0)
    → At on_failure p.owed (length p.batch)
    → Inv p
    → Inv (store_once answer on_success on_failure p)
unfolding store_once
store_once-Inv none on_success on_failure p o s f v = record {
  tokens = Tokens-same p.panicked p.capacity (omega arith) v.tokens;
  batch_max = omega arith;
  at = s _;
}
store_once-Inv (some message) on_success on_failure p o s f v = record {
  tokens = v.tokens;
  batch_max = v.batch_max;
  at = f;
}

give_back-Inv :
    (after : Worker) (p : Pipeline)
    → length p.batch ≡ 0
    → ((n : ℕ) → At p.worker n 0)
    → At after 0 0
    → Inv p
    → After Inv (give_back after p)
unfolding give_back
give_back-Inv after p b w n v = elim (Bool-cases (p.owed == 0)) [
  | inl done ↦
      rw done (record { tokens = v.tokens; batch_max = v.batch_max; at = rw (zero_owed done, b) n })
  | inr more ↦ elim (Bool-cases (ltb p.slots p.capacity)) [
    | inl room ↦
        rw (more, room)
          (record {
            tokens = Tokens-same p.panicked p.capacity (ground arith) v.tokens;
            batch_max = v.batch_max;
            at = rw b (w _);
          })
    | inr full ↦ rw (more, full) tt
  ]
]
  where
    zero_owed : p.owed == 0 ≡ true → p.owed ≡ 0
    zero_owed h = ground arith

wake-Inv :
    (timer : Timer) (p : Pipeline) → At waiting p.owed (length p.batch) → Inv p → Inv (wake timer p)
wake-Inv flush_timer p w v = record { tokens = v.tokens; batch_max = v.batch_max; at = w }
wake-Inv retry_delay p w v = elim (Bool-cases p.closing) [
  | inl ending ↦ rw ending (record { tokens = v.tokens; batch_max = v.batch_max; at = w })
  | inr running ↦ rw running (record { tokens = v.tokens; batch_max = v.batch_max; at = w })
]

pub step_at-Inv :
    (w : Worker) (answer : Option String) (timer : Timer) (p : Pipeline)
    → p.worker ≡ w
    → At w p.owed (length p.batch)
    → Inv p
    → After Inv (step_at w answer timer p)
unfolding step_at
step_at-Inv filling answer timer p ew a v = fill-Inv p ew a v
step_at-Inv storing answer timer p ew a v =
    store_once-Inv (sink_error p.has_sink answer) releasing waiting p a.0 (λ n. refl) a v
step_at-Inv waiting answer timer p ew a v = wake-Inv timer p a v
step_at-Inv releasing answer timer p ew a v = give_back-Inv filling p a (λ n. rw ew refl) refl v
step_at-Inv storing_last answer timer p ew a v =
    store_once-Inv (sink_error p.has_sink answer) releasing_last ended p a.0 (λ n. refl) a.0 v
step_at-Inv releasing_last answer timer p ew a v = give_back-Inv ended p a (λ n. rw ew refl) refl v
step_at-Inv ended answer timer p ew a v = tt

-- ===== src/Events/Slots.antt =====
-- What the tokens of the pipeline of internal/events/events.go guarantee, in any interleaving.
use llm_security_audit_gatew.Base.{
  suc, ◌≤◌, ◌≡◌, refl, subst, ℤ, List, [], ◌∷◌, ◌++◌, length, length-append, Bool, true, false,
  is_some, arith, ltb, Bool-cases, inl, inr, ◌==◌,
}
use llm_security_audit_gatew.Audit.{Event}
use llm_security_audit_gatew.Events.Pipeline.{
  Worker, Pipeline, new_pipeline, send, give_back, Step, took, sent, refused, worked, close_begun,
  closed, Reach, here, next,
}
use llm_security_audit_gatew.Events.Counting.{
  total, Inv, total-le, new-Inv, Tokens-same, length-middle, After, step_at-Inv,
}

send-Inv :
    (before : List Event) (event : Event) (after : List Event) (p : Pipeline)
    → p.holding ≡ before ++ (event ∷ after)
    → Inv p
    → Inv (send before event after p)
send-Inv before event after p e v =
    let one_less = length-middle before event after e in
    elim (Bool-cases p.closed) [
      | inl yes_closed ↦
          rw yes_closed (record { tokens = Inv-lt one_less; batch_max = v.batch_max; at = v.at })
      | inr open_still ↦ rw open_still (elim (Bool-cases (ltb (length p.ch) p.capacity)) [
        | inl room ↦ rw room (record {
          tokens =
              Tokens-same p.panicked p.capacity
                (omega (arith, one_less, length-append p.ch (event ∷ []))) v.tokens;
          batch_max = v.batch_max;
          at = v.at;
        })
        | inr full ↦ rw full (record {
          tokens = Tokens-same p.panicked p.capacity (omega (arith, one_less)) v.tokens;
          batch_max = v.batch_max;
          at = v.at;
        })
      ])
    ]
  where
    Inv-lt :
        length p.holding ≡ suc (length (before ++ after))
        → total (record p { holding = before ++ after }) ≤ p.capacity
    Inv-lt h = omega (arith, h, total-le v)

Step-Inv : {p q : Pipeline} → Step p q → Inv p → Inv q
Step-Inv {p} (took event free) v = record {
  tokens = Tokens-same p.panicked p.capacity (omega arith) v.tokens;
  batch_max = v.batch_max;
  at = v.at;
}
Step-Inv {p} (sent before event after e) v = send-Inv before event after p e v
Step-Inv (refused none_left) v = record { tokens = v.tokens; batch_max = v.batch_max; at = v.at }
Step-Inv {p} (worked answer timer e) v =
    subst (After Inv) e (step_at-Inv p.worker answer timer p refl v.at v)
Step-Inv close_begun v = record { tokens = v.tokens; batch_max = v.batch_max; at = v.at }
Step-Inv (closed e) v = record { tokens = v.tokens; batch_max = v.batch_max; at = v.at }

-- However producers, the worker, the sink's answers and `Close` interleave, each token of a
-- pipeline is free, with a producer, behind an event of the channel or the batch, or owed by
-- `storeOnce` (a producer that panics loses its own), and a batch has at most 100 events.
pub Reach-Inv :
    (size : ℤ) (has_sink : Bool) {p : Pipeline} → Reach (new_pipeline size has_sink) p → Inv p
Reach-Inv size has_sink here = new-Inv size has_sink
Reach-Inv size has_sink (next r s) = Step-Inv s (Reach-Inv size has_sink r)

-- In a reachable pipeline a producer with a token always gets its event into the open channel: the
-- inner `default` of `Enqueue` is never taken.
pub Reach-send :
    (size : ℤ) (has_sink : Bool) {p : Pipeline} (before : List Event) (event : Event)
    (after : List Event)
    → Reach (new_pipeline size has_sink) p
    → p.holding ≡ before ++ (event ∷ after)
    → p.closed ≡ false
    → ((send before event after p).accepted ≡ p.accepted ++ (event ∷ []))
      × ((send before event after p).slots ≡ p.slots)
Reach-send size has_sink {p} before event after r e opened = rw (opened, room) (refl, refl)
  where
    room : ltb (length p.ch) p.capacity ≡ true
    room = ground (arith, total-le (Reach-Inv size has_sink r), length-middle before event after e)

-- In a reachable pipeline the worker never blocks where it gives the tokens of a batch back.
pub Reach-give_back :
    (size : ℤ) (has_sink : Bool) {p : Pipeline} (after : Worker)
    → Reach (new_pipeline size has_sink) p
    → is_some (give_back after p) ≡ true
unfolding give_back
Reach-give_back size has_sink {p} after r = elim (Bool-cases (p.owed == 0)) [
  | inl done ↦ rw done refl
  | inr more ↦ rw (more, room more) refl
]
  where
    room : (p.owed == 0) ≡ false → ltb p.slots p.capacity ≡ true
    room more = ground (arith, total-le (Reach-Inv size has_sink r))

-- ===== src/Events/Pipeline.antt =====
-- internal/events/events.go: `Pipeline`. `Enqueue` is cut where another goroutine may come between:
-- the token of `slots` is taken, then the event is sent. The worker `run` goes by single receives,
-- calls of the sink and tokens given back; the sink's answer is an argument, `none` for no error.
-- `stored`, `accepted` and `panicked` record what happened; the code does not keep them.
use llm_security_audit_gatew.Base.{
  ℕ, ◌+◌, ◌-◌, ◌<◌, ◌≡◌, String, ℤ, pos, pos_part, ltb_ℤ, List, [], ◌∷◌, ◌++◌, length, Option, none,
  some, Bool, true, false, not, ◌&&◌, ◌||◌, ltb, ◌==◌, str_eq, if◌then◌else◌,
}
use llm_security_audit_gatew.Audit.{Event, redact_evidence}

-- Where `run` stands: in the loop that fills the batch, before `storeOnce` of the retry loop, in
-- the `select` behind a failure, giving tokens back, or before and behind the `storeOnce` that it
-- returns after.
pub data Worker : Type 0 where
  filling : Worker
  storing : Worker
  waiting : Worker
  releasing : Worker
  storing_last : Worker
  releasing_last : Worker
  ended : Worker

pub record Pipeline : Type 0 where
  pub capacity : ℕ
  pub slots : ℕ
  pub holding : List Event  -- redacted events whose `Enqueue` has a token and did not send so far
  pub ch : List Event
  pub batch : List Event
  pub owed : ℕ  -- tokens that `storeOnce` has to give back
  pub worker : Worker
  pub has_sink : Bool
  pub closing : Bool
  pub closed : Bool
  pub last_err : String
  pub saturated : Bool
  pub stored : List Event
  pub accepted : List Event
  pub panicked : Bool

pub record Status : Type 0 where
  pub capacity : ℕ
  pub pending : ℕ
  pub saturated : Bool
  pub last_error : String

unfoldable pub new_pipeline : ℤ → Bool → Pipeline
new_pipeline size has_sink =
    let capacity = if ltb_ℤ size (pos 1) then 1000 else pos_part size in
    record {
      capacity = capacity;
      slots = capacity;
      holding = [];
      ch = [];
      batch = [];
      owed = 0;
      worker = filling;
      has_sink = has_sink;
      closing = false;
      closed = false;
      last_err = "";
      saturated = false;
      stored = [];
      accepted = [];
      panicked = false;
    }

abbrev pub status : Pipeline → Status
status p = record {
  capacity = p.capacity;
  pending = p.capacity - p.slots;
  saturated = p.saturated || p.slots == 0;
  last_error = p.last_err;
}

abbrev pub ready : Pipeline → Bool
ready p = not (status p).saturated && str_eq (status p).last_error ""

-- The first case of `Enqueue`'s outer `select`.
abbrev pub take_slot : Event → Pipeline → Pipeline
take_slot event p = record p { slots = p.slots - 1; holding = redact_evidence event ∷ p.holding }

-- The end of `Enqueue` that drops the event.
abbrev pub refuse : Pipeline → Pipeline
refuse p = record p { saturated = true }

-- The inner `select`, for the event that stands between the others of `holding`: the channel has
-- room for `capacity` events, and a send on a closed channel panics.
abbrev pub send : List Event → Event → List Event → Pipeline → Pipeline
send before event after p =
    let rest = before ++ after in
    if p.closed
    then record p { holding = rest; panicked = true }
    else if ltb (length p.ch) p.capacity
    then record p {
      holding = rest;
      ch = p.ch ++ (event ∷ []);
      accepted = p.accepted ++ (event ∷ []);
    }
    else refuse (record p { holding = rest; slots = p.slots + 1 })

-- The blocking and the polling receive of `run`; `none` is a receive that blocks.
unfoldable pub receive : List Event → List Event → Pipeline → Option Pipeline
receive (event ∷ rest) batch p = some (record p { ch = rest; batch = batch ++ (event ∷ []) })
receive [] [] p = if p.closed then some (record p { worker = ended }) else none
receive [] (e ∷ batch) p = some (record p { worker = if p.closed then storing_last else storing })

unfoldable pub fill : Pipeline → Option Pipeline
unfolding receive
fill p =
    if ltb (length p.batch) 100
    then receive p.ch p.batch p
    else some (record p { worker = storing })

-- What `storeOnce` gets from the sink.
abbrev pub sink_error : Bool → Option String → Option String
sink_error true answer = answer
sink_error false answer = some "audit persistence disabled"

-- `storeOnce` up to the tokens, and where `run` goes on.
unfoldable pub store_once : Option String → Worker → Worker → Pipeline → Pipeline
store_once none on_success on_failure p = record p {
  last_err = "";
  saturated = false;
  stored = p.stored ++ p.batch;
  owed = length p.batch;
  batch = [];
  worker = on_success;
}
store_once (some message) on_success on_failure p = record p {
  last_err = message;
  worker = on_failure;
}

-- A token given back, or the end of that loop; `none` is a send on `slots` that blocks.
unfoldable pub give_back : Worker → Pipeline → Option Pipeline
give_back next p =
    if p.owed == 0
    then some (record p { worker = next })
    else if ltb p.slots p.capacity
    then some (record p { owed = p.owed - 1; slots = p.slots + 1 })
    else none

-- Which case of the `select` behind a failed store fires.
pub data Timer : Type 0 where
  retry_delay : Timer
  flush_timer : Timer

abbrev pub wake : Timer → Pipeline → Pipeline
wake retry_delay p = record p { worker = if p.closing then storing_last else storing }
wake flush_timer p = record p { worker = storing }

unfoldable pub step_at : Worker → Option String → Timer → Pipeline → Option Pipeline
unfolding fill store_once give_back
step_at filling answer timer p = fill p
step_at storing answer timer p =
    some (store_once (sink_error p.has_sink answer) releasing waiting p)
step_at waiting answer timer p = some (wake timer p)
step_at releasing answer timer p = give_back filling p
step_at storing_last answer timer p =
    some (store_once (sink_error p.has_sink answer) releasing_last ended p)
step_at releasing_last answer timer p = give_back ended p
step_at ended answer timer p = none

-- The next step of the worker; `none` where it blocks or has returned.
abbrev pub worker_step : Option String → Timer → Pipeline → Option Pipeline
worker_step answer timer p = step_at p.worker answer timer p

pub data Step (p : Pipeline) : Pipeline → Type 0 where
  took : (event : Event) → 0 < p.slots → Step p (take_slot event p)
  sent :
      (before : List Event) (event : Event) (after : List Event)
      → p.holding ≡ before ++ (event ∷ after)
      → Step p (send before event after p)
  refused : p.slots ≡ 0 → Step p (refuse p)
  worked :
      {q : Pipeline} (answer : Option String) (timer : Timer)
      → worker_step answer timer p ≡ some q
      → Step p q
  close_begun : Step p (record p { closing = true })
  closed : p.closing ≡ true → Step p (record p { closed = true })

pub data Reach (s : Pipeline) : Pipeline → Type 0 where
  here : Reach s s
  next : {p q : Pipeline} → Reach s p → Step p q → Reach s q

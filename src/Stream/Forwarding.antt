-- ===== src/Stream/Forwarding.antt =====
-- What `Copy` of internal/stream/sse.go forwards.
use mathlib.Core.List.{append_assoc, append-nil}
use llm_security_audit_gatew.Base.{
  ℕ, zero, suc, ◌≤◌, ◌<◌, String, ℤ, List, [], ◌∷◌, ◌++◌, Option, none, some, Bool, true, false,
  ◌≡◌, refl, sym, ◌∙◌, ap, arith, length, Bytes, All,
}
use llm_security_audit_gatew.Stream.Copy.{
  CopyEnd, context_done, inspection_blocked, write_failed, finished, too_large_event, source_failed,
  out_of_fuel, World, Copied, limit_or_default, Handled, sent, stopped, after_write, after_inspect,
  after_context, handle_event, stop, with_event, after_event, round, copy_loop, copy,
}
use llm_security_audit_gatew.Stream.Events.{
  Slice, Event, parse_event, ReadError, eof, event_too_large, read_failed, read_event,
}
use llm_security_audit_gatew.Stream.Fragments.{Codec}
use llm_security_audit_gatew.Stream.Reading.{bytes, Facts, read_event-ReadFacts}

abbrev pub raws : List Event → Bytes
raws [] = []
raws (e ∷ es) = e.raw ++ raws es

pub parse_event-raw :
    (codec : Codec) (trim_space : Bytes → Bytes) (raw : Bytes)
    → (parse_event codec trim_space raw).raw ≡ raw
unfolding parse_event
parse_event-raw codec trim_space raw = refl

module _ {S : Type 0} (world : World S) (parse : Bytes → Event)
    (parsed : (raw : Bytes) → (parse raw).raw ≡ raw) where
  open world use {context_error, inspect, write}

  -- The event was parsed from its own bytes and is within the limit.
  pub record Framed (limit : ℕ) (e : Event) : Type 0 where
    pub is_parsed : e ≡ parse e.raw
    pub small : length e.raw ≤ limit

  -- The world's run from `s` to `t` that forwards these events: for each, with the context not done,
  -- the inspector accepts it, and its bytes are written from the state that the inspector left.
  abbrev pub Run : S → List Event → S → Type 0
  Run s [] t = s ≡ t
  Run s (e ∷ es) t =
      (inspected : S) × (after : S) × (context_error s ≡ none)
      × (inspect s e ≡ (inspected, true))
      × (write inspected e.raw ≡ (after, none))
      × Run after es t

  -- The event that the rest of the input begins with.
  abbrev pub Next : Bytes → Event → Type 0
  Next left e = (e ≡ parse e.raw) × ((rest : Bytes) × (left ≡ e.raw ++ rest))

  -- What happens behind the last forwarded event, from `s` to the last state `t`.
  abbrev pub Ends : S → Bytes → CopyEnd → S → Type 0
  Ends s left finished t = (left ≡ []) × (s ≡ t)
  Ends s left (context_done cause) t = (context_error s ≡ some cause) × (s ≡ t)
  Ends s left inspection_blocked t =
      (e : Event) × Next left e × (context_error s ≡ none) × (inspect s e ≡ (t, false))
  Ends s left (write_failed cause) t =
      (e : Event) × (inspected : S) × Next left e
      × (context_error s ≡ none)
      × (inspect s e ≡ (inspected, true))
      × (write inspected e.raw ≡ (t, some cause))
  Ends s left too_large_event t = s ≡ t
  Ends s left (source_failed cause) t = s ≡ t
  Ends s left out_of_fuel t = ⊥

  -- What was forwarded is a prefix of the input, event by event, and the final state of the world is
  -- that of accepting and writing these events, in their order, and of the end that is reported.
  pub record Forwards (s : S) (limit : ℕ) (whole : Bytes) (c : Copied S) : Type 0 where
    pub left : Bytes
    pub last : S
    pub splits : whole ≡ raws c.forwarded ++ left
    pub framed : All (Framed limit) c.forwarded
    pub run : Run s c.forwarded last
    pub ends : Ends last left c.outcome c.state

  abbrev pub Handling : S → Event → Handled S → Type 0
  Handling s e (sent t) =
      (inspected : S) × (context_error s ≡ none)
      × (inspect s e ≡ (inspected, true))
      × (write inspected e.raw ≡ (t, none))
  Handling s e (stopped t why) = (left : Bytes) → Next left e → Ends s left why t

  handle_event-Handling : (s : S) (e : Event) → Handling s e (handle_event world s e)
  unfolding handle_event
  handle_event-Handling s e = in_context (context_error s) refl
    where
      written :
          (inspected : S) (w : S × Option String)
          → context_error s ≡ none
          → inspect s e ≡ (inspected, true)
          → write inspected e.raw ≡ w
          → Handling s e (after_write world w)
      written inspected (t, none) c i w = (inspected, c, i, w)
      written inspected (t, some cause) c i w = λ left next. (e, inspected, next, c, i, w)

      checked :
          (r : S × Bool)
          → context_error s ≡ none
          → inspect s e ≡ r
          → Handling s e (after_inspect world e.raw r)
      checked (t, false) c i = λ left next. (e, next, c, i)
      checked (t, true) c i = written t (write t e.raw) c i refl

      in_context :
          (c : Option String) → context_error s ≡ c → Handling s e (after_context world s e c)
      in_context (some cause) c = λ left next. (c, refl)
      in_context none c = checked (inspect s e) c refl

  -- A copy that ends here has forwarded nothing more.
  stop-Forwards :
      (limit : ℕ) (whole : Bytes) (s t : S) (why : CopyEnd)
      → Ends s whole why t
      → Forwards s limit whole (stop world parse t why)
  stop-Forwards limit whole s t why e = record {
    left = whole;
    last = s;
    splits = refl;
    framed = tt;
    run = refl;
    ends = e;
  }

  -- A copy that forwards an event and then `c`.
  with_event-Forwards :
      (s t : S) (limit : ℕ) (whole raw more : Bytes) (c : Copied S)
      → whole ≡ raw ++ more
      → length raw ≤ limit
      → Handling s (parse raw) (sent t)
      → Forwards t limit more c
      → Forwards s limit whole (with_event world parse (parse raw) c)
  with_event-Forwards s t limit whole raw more c e small (inspected, no_error, accepted, wrote) f =
      record {
        left = f.left;
        last = f.last;
        splits =
            e
            ∙ ap (λ x. raw ++ x) f.splits
            ∙ rw (parsed raw) (sym (append_assoc raw (raws c.forwarded) f.left));
        framed = (
          record { is_parsed = ap parse (sym (parsed raw)); small = rw (parsed raw) small },
          f.framed,
        );
        run = (inspected, t, no_error, accepted, wrote, f.run);
        ends = f.ends;
      }

  parse-Next : (raw more whole : Bytes) → whole ≡ raw ++ more → Next whole (parse raw)
  parse-Next raw more whole e = (ap parse (sym (parsed raw)), (more, rw (parsed raw) e))

  round-Forwards :
      (limit : ℕ) (whole : Bytes) (n : ℕ) (ev : Option Bytes) (er : Option ReadError)
      (unread : List Slice) (again : S → Copied S) (s : S)
      → Facts limit whole n ev er unread
      → (length unread < n → (s' : S) → Forwards s' limit (bytes unread) (again s'))
      → Forwards s limit whole (round world parse ev er again s)
  unfolding round
  round-Forwards limit whole n none none u again s f k = absurd f
  round-Forwards limit whole n none (some eof) u again s f k =
      rw f (stop-Forwards limit [] s s finished (refl, refl))
  round-Forwards limit whole n none (some event_too_large) u again s f k =
      stop-Forwards limit whole s s too_large_event refl
  round-Forwards limit whole n none (some (read_failed m)) u again s f k =
      stop-Forwards limit whole s s (source_failed m) refl
  round-Forwards limit whole n (some raw) none u again s f k =
      sent_on (handle_event world s (parse raw)) (handle_event-Handling s (parse raw))
    where
      sent_on :
          (h : Handled S)
          → Handling s (parse raw) h
          → Forwards s limit whole (after_event world parse (parse raw) none again h)
      sent_on (stopped t why) e =
          stop-Forwards limit whole s t why (e whole (parse-Next raw (bytes u) whole f.0))
      sent_on (sent t) ok =
          with_event-Forwards s t limit whole raw (bytes u) (again t) f.0 f.2 ok (k f.1 t)
  round-Forwards limit whole n (some raw) (some eof) u again s f k =
      sent_last (handle_event world s (parse raw)) (handle_event-Handling s (parse raw))
    where
      sent_last :
          (h : Handled S)
          → Handling s (parse raw) h
          → Forwards s limit whole (after_event world parse (parse raw) (some eof) again h)
      sent_last (stopped t why) e =
          stop-Forwards limit whole s t why
            (e whole (parse-Next raw [] whole (f.0 ∙ sym (append-nil raw))))
      sent_last (sent t) ok =
          with_event-Forwards s t limit whole raw [] (stop world parse t finished)
            (f.0 ∙ sym (append-nil raw)) f.1 ok (stop-Forwards limit [] t t finished (refl, refl))
  round-Forwards limit whole n (some raw) (some event_too_large) u again s f k = absurd f
  round-Forwards limit whole n (some raw) (some (read_failed m)) u again s f k = absurd f

  copy_loop-Forwards :
      (fuel limit : ℕ) (s : S) (slices : List Slice)
      → length slices < fuel
      → Forwards s limit (bytes slices) (copy_loop world parse fuel limit s slices)
  unfolding copy_loop
  copy_loop-Forwards zero limit s slices h = absurd (omega arith)
  copy_loop-Forwards (suc fuel) limit s slices h =
      let r = read_event limit [] slices in
      round-Forwards limit (bytes slices) (length slices) r.event r.error r.unread
        (λ s'. copy_loop world parse fuel limit s' r.unread) s
        (read_event-ReadFacts limit [] slices (omega arith))
        (λ shorter s'. copy_loop-Forwards fuel limit s' r.unread (omega (arith, shorter)))

-- `Copy` never runs out of its rounds. What it forwards is a prefix of the input, cut into events:
-- byte for byte as received, each parsed from its own bytes and at most as long as the limit. The
-- final state of the world is that of accepting and then writing each of these events, in their order
-- and each from the state the one before left, and nothing else but what the end says: an event that
-- the inspector refused, with nothing written, a write that failed, or the context that is done. If
-- the copy ends with no error, the whole input was forwarded.
pub copy-Forwards :
    {S : Type 0} (world : World S) (codec : Codec) (trim_space : Bytes → Bytes)
    (max_event_bytes : ℤ) (s : S) (slices : List Slice)
    → Forwards world
        (parse_event codec trim_space)
        (parse_event-raw codec trim_space)
        s
        (limit_or_default max_event_bytes)
        (bytes slices)
        (copy world (parse_event codec trim_space) max_event_bytes s slices)
unfolding copy
copy-Forwards world codec trim_space max_event_bytes s slices =
    copy_loop-Forwards world (parse_event codec trim_space) (parse_event-raw codec trim_space)
      (suc (length slices)) (limit_or_default max_event_bytes) s slices (omega arith)

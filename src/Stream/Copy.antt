-- ===== src/Stream/Copy.antt =====
-- internal/stream/sse.go: `Copy`. The world of the copy, that is its context, its inspector and its
-- writer over a state of their own, is a parameter.
use llm_security_audit_gatew.Base.{
  ℕ, zero, suc, String, ℤ, pos, pos_part, leb_ℤ, List, [], ◌∷◌, Option, none, some, Bool, true,
  false, length, Bytes, if◌then◌else◌,
}
use llm_security_audit_gatew.Stream.Events.{
  Slice, Event, ReadError, eof, event_too_large, read_failed, read_event,
}

-- How `Copy` ends.
pub data CopyEnd : Type 0 where
  finished : CopyEnd
  context_done : String → CopyEnd
  inspection_blocked : CopyEnd
  write_failed : String → CopyEnd
  too_large_event : CopyEnd
  source_failed : String → CopyEnd
  out_of_fuel : CopyEnd

pub record World (S : Type 0) : Type 0 where
  pub context_error : S → Option String
  pub inspect : S → Event → S × Bool
  pub write : S → Bytes → S × Option String

-- What a copy did: its state, how it ended, and the events whose write succeeded.
pub record Copied (S : Type 0) : Type 0 where
  pub state : S
  pub outcome : CopyEnd
  pub forwarded : List Event

abbrev pub end_of : ReadError → CopyEnd
end_of eof = finished
end_of event_too_large = too_large_event
end_of (read_failed e) = source_failed e

abbrev pub limit_or_default : ℤ → ℕ
limit_or_default n = if leb_ℤ n (pos 0) then 262144 else pos_part n

-- What happened to one event: its write succeeded, or the copy ends.
pub data Handled (S : Type 0) : Type 0 where
  sent : S → Handled S
  stopped : S → CopyEnd → Handled S

module _ {S : Type 0} (world : World S) where
  open world use {context_error, inspect, write}

  abbrev pub after_write : S × Option String → Handled S
  after_write (s, none) = sent s
  after_write (s, some e) = stopped s (write_failed e)

  abbrev pub after_inspect : Bytes → S × Bool → Handled S
  after_inspect raw (s, false) = stopped s inspection_blocked
  after_inspect raw (s, true) = after_write (write s raw)

  abbrev pub after_context : S → Event → Option String → Handled S
  after_context s e (some cause) = stopped s (context_done cause)
  after_context s e none = after_inspect e.raw (inspect s e)

  -- The body of `if event != nil`.
  unfoldable pub handle_event : S → Event → Handled S
  handle_event s e = after_context s e (context_error s)

  module _ (parse : Bytes → Event) where
    abbrev pub stop : S → CopyEnd → Copied S
    stop s e = record { state = s; outcome = e; forwarded = [] }

    -- The end of a round: on an error of `readEvent` the copy ends, else the loop goes on.
    abbrev pub next_round : Option ReadError → (S → Copied S) → S → Copied S
    next_round (some e) again s = stop s (end_of e)
    next_round none again s = again s

    abbrev pub with_event : Event → Copied S → Copied S
    with_event e c = record c { forwarded = e ∷ c.forwarded }

    abbrev pub after_event : Event → Option ReadError → (S → Copied S) → Handled S → Copied S
    after_event e error again (stopped s why) = stop s why
    after_event e error again (sent s) = with_event e (next_round error again s)

    -- One round of the loop, behind `readEvent`.
    unfoldable pub round : Option Bytes → Option ReadError → (S → Copied S) → S → Copied S
    round none error again s = next_round error again s
    round (some raw) error again s =
        after_event (parse raw) error again (handle_event s (parse raw))

    -- `Copy` from one round of its loop on. Every round that goes on reads a slice, so as many
    -- rounds as there are slices, and one more, are enough.
    unfoldable pub copy_loop : ℕ → ℕ → S → List Slice → Copied S
    copy_loop zero limit s slices = record { state = s; outcome = out_of_fuel; forwarded = [] }
    copy_loop (suc fuel) limit s slices =
        let r = read_event limit [] slices in
        round r.event r.error (λ s'. copy_loop fuel limit s' r.unread) s

    -- `Copy`.
    unfoldable pub copy : ℤ → S → List Slice → Copied S
    copy max_event_bytes s slices =
        copy_loop (suc (length slices)) (limit_or_default max_event_bytes) s slices

-- ===== src/Stream/Examples.antt =====
-- The theorems on the stream, with a decoder that finds no fragments.
use llm_security_audit_gatew.Base.{
  ℕ, String, pos, List, [], ◌∷◌, ◌++◌, none, true, ◌+◌, ◌≡◌, refl, arith, Bytes,
}
use llm_security_audit_gatew.Stream.Channels.{feed_all, feed_channel_sees}
use llm_security_audit_gatew.Stream.Copy.{World, limit_or_default, copy}
use llm_security_audit_gatew.Stream.Events.{Slice, line, end, parse_event}
use llm_security_audit_gatew.Stream.Forwarding.{Forwards, parse_event-raw, copy-Forwards}
use llm_security_audit_gatew.Stream.Fragments.{Codec}
use llm_security_audit_gatew.Stream.Reading.{bytes}
use llm_security_audit_gatew.Stream.Windows.{new_windows, feed_channel}

abbrev no_codec : Codec
no_codec = record { unmarshal = λ _. none; unmarshal_string = λ _. none; itoa = λ _. "0" }

-- Counts the writes and accepts every event.
abbrev counting : World ℕ
counting = record {
  context_error = λ _. none;
  inspect = λ s _. (s, true);
  write = λ s _. (s + 1, none);
}

abbrev two_events : List Slice
two_events =
    line (b'd' ∷ b'a' ∷ b't' ∷ b'a' ∷ b':' ∷ b'x' ∷ b'\n' ∷ [])
    ∷ line (b'\n' ∷ [])
    ∷ end (b'd' ∷ b'a' ∷ b't' ∷ b'a' ∷ [])
    ∷ []

copy-Forwards_example :
    Forwards counting
      (parse_event no_codec (λ b. b))
      (parse_event-raw no_codec (λ b. b))
      0
      (limit_or_default (pos 64))
      (bytes two_events)
      (copy counting (parse_event no_codec (λ b. b)) (pos 64) 0 two_events)
copy-Forwards_example = copy-Forwards counting no_codec (λ b. b) (pos 64) 0 two_events

-- Two channels in turn; the first spells "bad" over two chunks.
abbrev interleaved : List (String × Bytes)
interleaved = ("a", b'b' ∷ []) ∷ ("b", b'z' ∷ []) ∷ []

feed_channel_sees_example :
    (a : Bytes) × ((feed_channel "a"
        (b'a' ∷ b'd' ∷ [])
        (feed_all interleaved (new_windows (pos 2)))).1
      ≡ a ++ ((b'b' ∷ b'a' ∷ b'd' ∷ []) ++ []))
feed_channel_sees_example =
    feed_channel_sees (pos 2) interleaved "a" (b'a' ∷ b'd' ∷ []) [] (b'b' ∷ b'a' ∷ b'd' ∷ []) []
      refl (omega arith) (omega arith)

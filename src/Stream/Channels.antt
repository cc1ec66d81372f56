-- ===== src/Stream/Channels.antt =====
-- What the inspection of internal/stream/sse.go sees of each channel, whatever is interleaved.
use mathlib.Core.List.{append_assoc, append-nil}
use llm_security_audit_gatew.Base.{
  suc, ◌≤◌, ◌<◌, String, ℤ, List, [], ◌∷◌, ◌++◌, length, length-append, lookup, lookup-insert,
  str_eq, eq_iff, ◌≡◌, refl, sym, ◌∙◌, ap, subst, inl, inr, Bool-cases, arith, Bytes, if◌then◌else◌,
}
use llm_security_audit_gatew.Stream.Windows.{
  window_or_default, new_scanner, feed, Windows, new_windows, scanner_or_new, feed_channel,
}
use llm_security_audit_gatew.Stream.Rolling.{
  Remembers, feed-EndsWith, feed-Remembers, feed-window, suffix-suffix,
}

-- All bytes that a channel was fed, by chunks of many channels in turn.
abbrev pub fed_to : String → List (String × Bytes) → Bytes
fed_to ch [] = []
fed_to ch ((k, c) ∷ cs) = if str_eq k ch then c ++ fed_to ch cs else fed_to ch cs

unfoldable pub feed_all : List (String × Bytes) → Windows → Windows
feed_all [] w = w
feed_all ((k, c) ∷ cs) w = feed_all cs (feed_channel k c w).0

-- Every channel remembers what it was fed, and no other's.
record Separate (w : Windows) (fed : String → Bytes) : Type 0 where
  window_pos : 0 < w.window
  same_window : (ch : String) → (scanner_or_new w.window (lookup ch w.by_key)).window ≡ w.window
  remembers : (ch : String) → Remembers (scanner_or_new w.window (lookup ch w.by_key)) (fed ch)

abbrev with_chunk : String → Bytes → (String → Bytes) → String → Bytes
with_chunk k c fed ch = if str_eq k ch then fed ch ++ c else fed ch

feed_channel-Separate :
    (k : String) (c : Bytes) (w : Windows) (fed : String → Bytes)
    → Separate w fed
    → Separate (feed_channel k c w).0 (with_chunk k c fed)
unfolding feed_channel
feed_channel-Separate k c w fed v = record {
  window_pos = v.window_pos;
  same_window = λ ch. rw lookup-insert (elim (Bool-cases (str_eq k ch)) [
    | inl e ↦ rw e (feed-window (scanner_or_new w.window (lookup k w.by_key)) c ∙ v.same_window k)
    | inr e ↦ rw e (v.same_window ch)
  ]);
  remembers = λ ch. rw lookup-insert (elim (Bool-cases (str_eq k ch)) [
    | inl e ↦ rw e (
        subst (λ x. Remembers (feed (scanner_or_new w.window (lookup k w.by_key)) c).0 (fed x ++ c))
          ((eq_iff k ch).0 e) (feed-Remembers _ (fed k) c (v.remembers k)))
    | inr e ↦ rw e (v.remembers ch)
  ]);
}

feed_all-Separate :
    (cs : List (String × Bytes)) (w : Windows) (fed : String → Bytes)
    → Separate w fed
    → Separate (feed_all cs w) (λ ch. fed ch ++ fed_to ch cs)
unfolding feed_all
feed_all-Separate [] w fed v = record {
  window_pos = v.window_pos;
  same_window = v.same_window;
  remembers = λ ch. rw append-nil (v.remembers ch);
}
feed_all-Separate ((k, c) ∷ cs) w fed v =
    let rest = feed_all-Separate cs (feed_channel k c w).0 _ (feed_channel-Separate k c w fed v) in
    record {
      window_pos = rest.window_pos;
      same_window = rest.same_window;
      remembers = λ ch. subst (Remembers _) (regroup ch) (rest.remembers ch);
    }
  where
    regroup :
        (ch : String) → with_chunk k c fed ch ++ fed_to ch cs ≡ fed ch ++ fed_to ch ((k, c) ∷ cs)
    regroup ch = elim (Bool-cases (str_eq k ch)) [
      | inl e ↦ rw e (append_assoc (fed ch) c (fed_to ch cs))
      | inr e ↦ rw e refl
    ]

new_windows-Separate : (w : ℤ) → Separate (new_windows w) (λ _. [])
unfolding new_windows new_scanner lookup
new_windows-Separate w = record {
  window_pos = ground arith;
  same_window = λ ch. ground arith;
  remembers = λ ch. record {
    ends = record { before = []; splits = refl; enough = omega arith };
    bounded = omega arith;
  };
}

feed_all-window : (cs : List (String × Bytes)) (w : Windows) → (feed_all cs w).window ≡ w.window
unfolding feed_all feed_channel
feed_all-window [] w = refl
feed_all-window ((k, c) ∷ cs) w = feed_all-window cs (feed_channel k c w).0

new_windows-window : (w : ℤ) → (new_windows w).window ≡ window_or_default w
unfolding new_windows
new_windows-window w = refl

-- The text that the inspection gets for a chunk is the end of all that its channel was fed, this
-- chunk included and no other channel's bytes: all of it, or at least the last `window` bytes
-- before the chunk. So any text `p` of at most `window` + 1 bytes that the channel completes
-- within this chunk, with `y` behind it, stands whole in the inspected text, though it may have
-- been split over any number of events.
pub feed_channel_sees :
    (w : ℤ) (cs : List (String × Bytes)) (ch : String) (chunk x p y : Bytes)
    → fed_to ch cs ++ chunk ≡ x ++ (p ++ y)
    → length p ≤ suc (window_or_default w)
    → length y < length chunk
    → (a : Bytes) × ((feed_channel ch chunk (feed_all cs (new_windows w))).1 ≡ a ++ (p ++ y))
unfolding feed_channel
feed_channel_sees w cs ch chunk x p y e small ends =
    let v = feed_all-Separate cs (new_windows w) (λ _. []) (new_windows-Separate w) in
    let seen = feed-EndsWith _ (fed_to ch cs) chunk (v.remembers ch) in
    suffix-suffix x seen.before (p ++ y) _ (sym seen.splits ∙ e) (
      omega (
        arith,
        seen.enough,
        v.same_window ch,
        feed_all-window cs (new_windows w),
        new_windows-window w,
        ap length e,
        length-append x (p ++ y),
        length-append p y,
      ))

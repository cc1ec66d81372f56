-- ===== src/Stream/Reading.antt =====
-- What `readEvent` of internal/stream/sse.go takes from its input.
use mathlib.Core.List.{append_assoc, append-nil}
use llm_security_audit_gatew.Base.{
  ℕ, suc, ◌+◌, ◌≤◌, ◌<◌, List, [], ◌∷◌, ◌++◌, Option, none, some, false, ◌&&◌, ltb, ◌≡◌, refl, sym,
  ◌∙◌, inl, inr, Bool-cases, arith, length, length-append, Bytes,
}
use llm_security_audit_gatew.Stream.Events.{
  trim_last, Slice, line, full, end, broken, is_blank_line, ReadError, eof, event_too_large,
  read_failed, Read, at_eof, read_event,
}

-- The bytes of the input, up to its end or its error.
abbrev pub bytes : List Slice → Bytes
bytes [] = []
bytes (line l ∷ rest) = l ++ bytes rest
bytes (full l ∷ rest) = l ++ bytes rest
bytes (end l ∷ rest) = l
bytes (broken l e ∷ rest) = l

-- What a result of `readEvent` says of the input `whole`, of `n` slices.
abbrev pub Facts : ℕ → Bytes → ℕ → Option Bytes → Option ReadError → List Slice → Type 0
Facts limit whole n (some e) none unread =
    (whole ≡ e ++ bytes unread) × (length unread < n) × (length e ≤ limit)
Facts limit whole n (some e) (some eof) unread = (whole ≡ e) × (length e ≤ limit)
Facts limit whole n none (some eof) unread = whole ≡ []
Facts limit whole n none (some _) unread = Unit
Facts limit whole n _ _ unread = ⊥

abbrev pub ReadFacts : ℕ → Bytes → ℕ → Read → Type 0
ReadFacts limit whole n r = Facts limit whole n r.event r.error r.unread

within :
    (limit : ℕ) (raw l : Bytes)
    → (ltb 0 (length l) && ltb limit (length raw + length l)) ≡ false
    → length raw ≤ limit
    → length (raw ++ l) ≤ limit
within limit raw l h k = ground (arith, length-append raw l)

at_eof-ReadFacts :
    (limit : ℕ) (whole raw : Bytes) (n : ℕ) (rest : List Slice)
    → whole ≡ raw
    → length raw ≤ limit
    → ReadFacts limit whole n (at_eof raw rest)
at_eof-ReadFacts limit whole [] n rest e h = e
at_eof-ReadFacts limit whole (b ∷ raw) n rest e h = (e, h)

weaken-Facts :
    (limit : ℕ) (whole whole' : Bytes) (n : ℕ) (r : Read)
    → whole' ≡ whole
    → ReadFacts limit whole n r
    → ReadFacts limit whole' (suc n) r
weaken-Facts limit whole whole' n r e f = go r.event r.error f
  where
    go :
        (ev : Option Bytes) (er : Option ReadError)
        → Facts limit whole n ev er r.unread
        → Facts limit whole' (suc n) ev er r.unread
    go (some x) none f = (e ∙ f.0, omega (arith, f.1), f.2)
    go (some x) (some eof) f = (e ∙ f.0, f.1)
    go (some x) (some event_too_large) f = f
    go (some x) (some (read_failed m)) f = f
    go none none f = f
    go none (some eof) f = e ∙ f
    go none (some event_too_large) f = tt
    go none (some (read_failed m)) f = tt

pub read_event-ReadFacts :
    (limit : ℕ) (raw : Bytes) (slices : List Slice)
    → length raw ≤ limit
    → ReadFacts limit (raw ++ bytes slices) (length slices) (read_event limit raw slices)
unfolding read_event
read_event-ReadFacts limit raw [] h = at_eof-ReadFacts limit _ raw 0 [] (append-nil raw) h
read_event-ReadFacts limit raw (line l ∷ rest) h =
    elim (Bool-cases (ltb 0 (length l) && ltb limit (length raw + length l))) [
      | inl big ↦ rw big tt
      | inr small ↦ elim (Bool-cases (ltb 0 (length l) && is_blank_line l)) [
        | inl blank ↦
            rw (small, blank)
              (sym (append_assoc raw l (bytes rest)), omega arith, within limit raw l small h)
        | inr more ↦
            rw (small, more)
              (weaken-Facts limit _ _ _ _ (sym (append_assoc raw l (bytes rest)))
                (read_event-ReadFacts limit (raw ++ l) rest (within limit raw l small h)))
      ]
    ]
read_event-ReadFacts limit raw (full l ∷ rest) h =
    elim (Bool-cases (ltb 0 (length l) && ltb limit (length raw + length l))) [
      | inl big ↦ rw big tt
      | inr small ↦ rw small (
          weaken-Facts limit _ _ _ _ (sym (append_assoc raw l (bytes rest)))
            (read_event-ReadFacts limit (raw ++ l) rest (within limit raw l small h)))
    ]
read_event-ReadFacts limit raw (end l ∷ rest) h =
    elim (Bool-cases (ltb 0 (length l) && ltb limit (length raw + length l))) [
      | inl big ↦ rw big tt
      | inr small ↦
          rw small (at_eof-ReadFacts limit _ (raw ++ l) _ rest refl (within limit raw l small h))
    ]
read_event-ReadFacts limit raw (broken l e ∷ rest) h =
    elim (Bool-cases (ltb 0 (length l) && ltb limit (length raw + length l))) [
      | inl big ↦ rw big tt
      | inr small ↦ rw small tt
    ]

-- A line that fills the reader's buffer is cut off there: when its newline comes alone in the next
-- slice, `readEvent` takes that slice for a blank line and ends the event, whatever the line held
-- and whatever follows.
pub read_event_cuts :
    (limit : ℕ) (raw body : Bytes) (rest : List Slice)
    → length raw + length body + 1 ≤ limit
    → read_event limit raw (full body ∷ line (b'\n' ∷ []) ∷ rest)
      ≡ record { event = some ((raw ++ body) ++ (b'\n' ∷ [])); error = none; unread = rest }
unfolding read_event is_blank_line trim_last
read_event_cuts limit raw body rest h = rw (fits, fits_newline) refl
  where
    fits : (ltb 0 (length body) && ltb limit (length raw + length body)) ≡ false
    fits = ground arith

    fits_newline : ltb limit (length (raw ++ body) + 1) ≡ false
    fits_newline = ground (arith, length-append raw body)

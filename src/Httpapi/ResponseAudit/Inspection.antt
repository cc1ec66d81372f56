-- ===== src/Httpapi/ResponseAudit/Inspection.antt =====
-- What the inspection of a streamed response in internal/httpapi/handler.go lets pass, event by event.
use mathlib.Core.List.{append_assoc, append-nil}
use llm_security_audit_gatew.Base.{
  ℕ, suc, ◌≤◌, ◌<◌, String, ℤ, List, [], ◌∷◌, ◌++◌, map, Bool, true, false, str_eq, ◌≡◌, ◌≢◌, refl,
  ap, sym, ◌∙◌, arith, eq_iff, length, All, Bytes, inl, inr, Bool-cases,
}
use llm_security_audit_gatew.Audit.{Input, Event}
use llm_security_audit_gatew.Policy.{block}
use llm_security_audit_gatew.Config.{Config}
use llm_security_audit_gatew.Httpapi.Emit.{Stamp, Assessment, emit_metadata}
use llm_security_audit_gatew.Httpapi.RequestAudit.{decision_of}
use llm_security_audit_gatew.Httpapi.ResponseAudit.{
  Session, new_session, inspect_fragments, assess_text, inspect, passed,
}
use llm_security_audit_gatew.Stream.Channels.{fed_to, feed_all, feed_channel_sees}
use llm_security_audit_gatew.Stream.Fragments.{Fragment}
use llm_security_audit_gatew.Stream.Windows.{window_or_default, new_windows, feed_channel}

abbrev pub chunk_of : Fragment → String × Bytes
chunk_of f = (f.channel, f.text)

abbrev pub NotBlocked : Event → Type 0
NotBlocked e = e.decision ≢ block

-- The new events of an inspection: none blocked where it lets the fragments pass, else the newest
-- one blocked and none before it.
abbrev pub Trail : Bool → List Event → Type 0
Trail true es = All NotBlocked es
Trail false [] = ⊥
Trail false (e ∷ es) = (e.decision ≡ block) × All NotBlocked es

-- The fragments of one event after the other.
abbrev pub joined : List (List Fragment) → List Fragment
joined [] = []
joined (fs ∷ calls) = fs ++ joined calls

joined-append : (xs ys : List (List Fragment)) → joined (xs ++ ys) ≡ joined xs ++ joined ys
joined-append [] ys = refl
joined-append (fs ∷ xs) ys =
    ap (λ x. fs ++ x) (joined-append xs ys) ∙ sym (append_assoc fs (joined xs) (joined ys))

abbrev pub next_call : Session × Bool → (Session → Session × Bool) → Session × Bool
next_call (s, false) again = (s, false)
next_call (s, true) again = again s

module _ (config : Config) (stamp : ℕ → Stamp) (input : Input) (normalize : Bytes → Bytes)
    (assess : ℕ → Input → Assessment) where
  -- `inspect` as the copy of a stream calls it, once for each event and until it refuses one.
  unfoldable pub inspect_all : List (List Fragment) → Session → Session × Bool
  inspect_all [] s = (s, true)
  inspect_all (fs ∷ calls) s =
      next_call (inspect config stamp input normalize assess fs s) (λ s'. inspect_all calls s')

  inspect_fragments-append :
      (xs ys : List Fragment) (s : Session)
      → inspect_fragments config stamp input normalize assess (xs ++ ys) s
        ≡ next_call
            (inspect_fragments config stamp input normalize assess xs s)
            (λ s'. inspect_fragments config stamp input normalize assess ys s')
  unfolding inspect_fragments
  inspect_fragments-append [] ys s = refl
  inspect_fragments-append (f ∷ xs) ys s =
      let (windows, text) = feed_channel f.channel f.text s.windows in
      let a = assess_text config stamp input normalize assess s.assessed text in
      let s' = record s { windows = windows } in
      elim (Bool-cases (str_eq (decision_of a) block)) [
        | inl bad ↦ rw bad refl
        | inr good ↦ rw good (
            inspect_fragments-append xs ys (passed config stamp input normalize assess f text a s'))
      ]

  -- Events inspected one after the other are inspected as one list of fragments.
  inspect_all-joined :
      (calls : List (List Fragment)) (s : Session)
      → config.audit_enabled ≡ true
      → inspect_all calls s ≡ inspect_fragments config stamp input normalize assess (joined calls) s
  unfolding inspect_all
  inspect_all-joined [] s enabled = unfold inspect_fragments in refl
  inspect_all-joined (fs ∷ calls) s enabled =
      ap (λ r. next_call r (λ s'. inspect_all calls s')) (on s)
      ∙ again (inspect_fragments config stamp input normalize assess fs s)
          (λ s'. inspect_all-joined calls s' enabled)
      ∙ sym (inspect_fragments-append fs (joined calls) s)
    where
      on :
          (s : Session)
          → inspect config stamp input normalize assess fs s
            ≡ inspect_fragments config stamp input normalize assess fs s
      on s = unfold inspect in rw enabled refl

      again :
          (r : Session × Bool)
          → ((s' : Session)
              → inspect_all calls s'
                ≡ inspect_fragments config stamp input normalize assess (joined calls) s')
          → next_call r (λ s'. inspect_all calls s')
            ≡ next_call r
                (λ s'. inspect_fragments config stamp input normalize assess (joined calls) s')
      again (s', false) ih = refl
      again (s', true) ih = ih s'

  inspect_all_off :
      (calls : List (List Fragment)) (s : Session)
      → config.audit_enabled ≡ false
      → inspect_all calls s ≡ (s, true)
  unfolding inspect_all inspect
  inspect_all_off [] s off = refl
  inspect_all_off (fs ∷ calls) s off = rw off (inspect_all_off calls s off)

  inspect_fragments-Trail :
      (fs : List Fragment) (s : Session)
      → ((n : ℕ) → (stamp n).pipeline ≡ true)
      → All NotBlocked s.emitted
      → Trail
          (inspect_fragments config stamp input normalize assess fs s).1
          (inspect_fragments config stamp input normalize assess fs s).0.emitted
  unfolding inspect_fragments
  inspect_fragments-Trail [] s piped h = h
  inspect_fragments-Trail (f ∷ fs) s piped h =
      let (windows, text) = feed_channel f.channel f.text s.windows in
      let a = assess_text config stamp input normalize assess s.assessed text in
      let s' = record s { windows = windows } in
      elim (Bool-cases (str_eq (decision_of a) block)) [
        | inl bad ↦ unfold emit_metadata in rw (bad, piped s.assessed) (refl, h)
        | inr good ↦ rw good (
            inspect_fragments-Trail fs (passed config stamp input normalize assess f text a s')
              piped
              (unfold emit_metadata in
                rw (piped s.assessed) (ground (arith, eq_iff (decision_of a) block), h)))
      ]

  -- A fragment whose text is blocked ends the inspection.
  refuses_here :
      (f : Fragment) (after : List Fragment) (s : Session)
      → decision_of (
          assess_text config stamp input normalize assess s.assessed
            (feed_channel f.channel f.text s.windows).1)
        ≡ block
      → (inspect_fragments config stamp input normalize assess (f ∷ after) s).1 ≡ false
  unfolding inspect_fragments
  refuses_here f after s h = rw ((eq_iff _ block).1 h) refl

  refuses_from :
      (before : List Fragment) (f : Fragment) (after : List Fragment) (s : Session)
      → ((n : ℕ)
          → decision_of (
              assess_text config stamp input normalize assess n
                (feed_channel f.channel f.text (feed_all (map chunk_of before) s.windows)).1)
            ≡ block)
      → (inspect_fragments config stamp input normalize assess (before ++ f ∷ after) s).1 ≡ false
  unfolding inspect_fragments feed_all
  refuses_from [] f after s h = refuses_here f after s (h s.assessed)
  refuses_from (b ∷ before) f after s h =
      let (windows, text) = feed_channel b.channel b.text s.windows in
      let a = assess_text config stamp input normalize assess s.assessed text in
      let s' = record s { windows = windows } in
      elim (Bool-cases (str_eq (decision_of a) block)) [
        | inl bad ↦ rw bad refl
        | inr good ↦
            rw good (
              refuses_from before f after (passed config stamp input normalize assess b text a s')
                h)
      ]

-- The trail of an inspected stream, event after event from a new session on, where there is a
-- pipeline: while its events pass, no audit event says `block`; when one is stopped, the newest audit
-- event, and only that one, says `block`.
pub inspect-Trail :
    (config : Config) (stamp : ℕ → Stamp) (input : Input) (normalize : Bytes → Bytes)
    (assess : ℕ → Input → Assessment) (window : ℤ) (calls : List (List Fragment))
    → ((n : ℕ) → (stamp n).pipeline ≡ true)
    → let r = inspect_all config stamp input normalize assess calls (new_session window) in
      Trail r.1 r.0.emitted
inspect-Trail config stamp input normalize assess window calls piped =
    elim (Bool-cases config.audit_enabled) [
      | inr off ↦
          rw (inspect_all_off config stamp input normalize assess calls (new_session window) off) tt
      | inl on ↦
          rw (inspect_all-joined config stamp input normalize assess calls (new_session window) on)
            (inspect_fragments-Trail config stamp input normalize assess (joined calls)
              (new_session window) piped tt)
    ]

-- With the audit enabled, if every text that contains `p`, however much stands around it, is
-- decided `block` at any time, and a fragment completes `p` in its channel, at most `window` + 1 bytes
-- long and split over any number of earlier fragments, of this event and of the ones before it in the
-- stream, with other channels' fragments in between, then the inspection refuses this event, or one
-- before it: the stream does not pass.
pub inspect_refuses :
    (config : Config) (stamp : ℕ → Stamp) (input : Input) (normalize : Bytes → Bytes)
    (assess : ℕ → Input → Assessment) (window : ℤ) (earlier : List (List Fragment))
    (before : List Fragment) (f : Fragment) (after : List Fragment) (x p y : Bytes)
    → config.audit_enabled ≡ true
    → ((n : ℕ) (u v : Bytes)
        → decision_of (assess_text config stamp input normalize assess n (u ++ (p ++ v))) ≡ block)
    → fed_to f.channel (map chunk_of (joined earlier ++ before)) ++ f.text ≡ x ++ (p ++ y)
    → length p ≤ suc (window_or_default window)
    → length y < length f.text
    → (inspect_all config stamp input normalize assess
        (earlier ++ (before ++ f ∷ after) ∷ [])
        (new_session window)).1
      ≡ false
inspect_refuses config stamp input normalize assess window earlier before f after x p y enabled bad
      e small ends =
    rw
      (
        inspect_all-joined config stamp input normalize assess
            (earlier ++ (before ++ f ∷ after) ∷ []) (new_session window) enabled,
        one_list,
      )
      (refuses_from config stamp input normalize assess (joined earlier ++ before) f after
        (new_session window) blocked)
  where
    one_list :
        joined (earlier ++ (before ++ f ∷ after) ∷ []) ≡ (joined earlier ++ before) ++ f ∷ after
    one_list =
        joined-append earlier ((before ++ f ∷ after) ∷ [])
        ∙ ap (λ z. joined earlier ++ z) (append-nil (before ++ f ∷ after))
        ∙ sym (append_assoc (joined earlier) before (f ∷ after))

    blocked :
        (n : ℕ)
        → decision_of (
            assess_text config stamp input normalize assess n
              (feed_channel f.channel f.text
                (feed_all (map chunk_of (joined earlier ++ before)) (new_windows window))).1)
          ≡ block
    blocked n =
        let (u, seen) =
          feed_channel_sees window (map chunk_of (joined earlier ++ before)) f.channel f.text x p y
            e small ends in
        rw seen (bad n u y)

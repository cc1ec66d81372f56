-- ===== src/Httpapi/ResponseAudit.antt =====
-- internal/httpapi/handler.go: `inspect` of `proxy`, which looks at the fragments of a streamed
-- response, and `inspectNonStream`. What the rules and the resolver say of
-- a text may change over time, so the assessment also takes the number of texts assessed before;
-- `normalize.Text` is `normalize`.
use llm_security_audit_gatew.Base.{
  ℕ, ◌+◌, String, ℤ, List, [], ◌∷◌, ◌++◌, none, Bool, true, false, not, ◌&&◌, str_eq, Bytes,
  if◌then◌else◌,
}
use llm_security_audit_gatew.Audit.{Input, Event}
use llm_security_audit_gatew.Policy.{Decision, allow, block}
use llm_security_audit_gatew.Config.{Config}
use llm_security_audit_gatew.Httpapi.Emit.{Stamp, Assessment, ShadowJob, emit_metadata}
use llm_security_audit_gatew.Httpapi.RequestAudit.{decision_of}
use llm_security_audit_gatew.Stream.Fragments.{Fragment}
use llm_security_audit_gatew.Stream.Windows.{Windows, new_windows, feed_channel}
pub mod Inspection

-- What the inspection of one response has done so far.
pub record Session : Type 0 where
  pub windows : Windows
  pub assessed : ℕ
  pub emitted : List Event
  pub shadow : List ShadowJob
  pub termination_code : String
  pub canceled : Bool

abbrev pub new_session : ℤ → Session
new_session window = record {
  windows = new_windows window;
  assessed = 0;
  emitted = [];
  shadow = [];
  termination_code = "";
  canceled = false;
}

module _ (config : Config) (stamp : ℕ → Stamp) (input : Input) (normalize : Bytes → Bytes)
    (assess : ℕ → Input → Assessment) where
  -- `responseInput`, with the text to inspect.
  abbrev pub response_input : Bytes → Input
  response_input text = record input { direction = "response"; text = normalize text }

  abbrev pub assess_text : ℕ → Bytes → Assessment
  assess_text n text = assess n (response_input text)

  abbrev pub metadata : String → List (String × String)
  metadata channel = ("sse", "true") ∷ ("sse_channel", channel) ∷ []

  abbrev pub terminated : String → List (String × String)
  terminated channel =
      metadata channel ++ (("stream_termination_reason", "stream_policy_blocked") ∷ [])

  abbrev pub shadow_if : Decision → Assessment → Bytes → Bytes → List ShadowJob
  shadow_if decision a text body =
      if str_eq decision allow && not (str_eq config.auditor_url "")
      then record { input = response_input text; assessment = a; body = body } ∷ []
      else []

  -- The end of the loop's body on a fragment that is blocked, and on one that is not.
  abbrev pub stopped : Fragment → Bytes → Assessment → Session → Session
  stopped f text a s = record s {
    assessed = s.assessed + 1;
    emitted =
        emit_metadata (stamp s.assessed) (response_input text) a block none "" f.text
          (terminated f.channel)
        ++ s.emitted;
    termination_code = "stream_policy_blocked";
    canceled = true;
  }

  abbrev pub passed : Fragment → Bytes → Assessment → Session → Session
  passed f text a s = record s {
    assessed = s.assessed + 1;
    emitted =
        emit_metadata (stamp s.assessed) (response_input text) a (decision_of a) none "" f.text
          (metadata f.channel)
        ++ s.emitted;
    shadow = shadow_if (decision_of a) a text f.text ++ s.shadow;
  }

  -- The loop over the fragments; the newest event stands first.
  unfoldable pub inspect_fragments : List Fragment → Session → Session × Bool
  inspect_fragments [] s = (s, true)
  inspect_fragments (f ∷ fs) s =
      let (windows, text) = feed_channel f.channel f.text s.windows in
      let a = assess_text s.assessed text in
      let s' = record s { windows = windows } in
      let rest = inspect_fragments fs (passed f text a s') in
      if str_eq (decision_of a) block then (stopped f text a s', false) else rest

  unfoldable pub inspect : List Fragment → Session → Session × Bool
  unfolding inspect_fragments
  inspect fragments s =
      if not config.audit_enabled then (s, true) else inspect_fragments fragments s

  -- `inspectNonStream`, on the whole body.
  unfoldable pub inspect_non_stream : Bytes → Session → Session × Bool
  inspect_non_stream chunk s =
      let a = assess_text s.assessed chunk in
      if not config.audit_enabled then (s, true) else (
        record s {
          assessed = s.assessed + 1;
          emitted =
              emit_metadata (stamp s.assessed) (response_input chunk) a (decision_of a) none ""
                chunk []
              ++ s.emitted;
          shadow = shadow_if (decision_of a) a chunk chunk ++ s.shadow;
        },
        not (str_eq (decision_of a) block),
      )

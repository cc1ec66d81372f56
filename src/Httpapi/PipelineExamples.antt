-- ===== src/Httpapi/PipelineExamples.antt =====
-- The theorems on the request pipeline, with rules that block the byte `x`.
use llm_security_audit_gatew.Base.{
  List, ℕ, String, pos, [], ◌∷◌, ◌++◌, none, some, Bool, true, false, not, ◌&&◌, ◌||◌, ◌==◌, str_eq,
  ◌≡◌, ◌≢◌, ◌⊎◌, refl, arith, Bytes, if◌then◌else◌,
}
use llm_security_audit_gatew.Base.Result.{Result, ok, err}
use llm_security_audit_gatew.Audit.{Input, Match, ModelResult}
use llm_security_audit_gatew.Policy.{
  default_policy, normalized, decide, decide_normal, elevate, elevate_matches, block, monitor,
}
use llm_security_audit_gatew.Config.{Config}
use llm_security_audit_gatew.Config.Load.{Host, configured, env_bool}
use llm_security_audit_gatew.Httpapi.AuthThrottle.{new_auth_throttle}
use llm_security_audit_gatew.Httpapi.Decode.{whole, read_bounded}
use llm_security_audit_gatew.Httpapi.Decode.Limits.{Bounded, read_bounded-Bounded}
use llm_security_audit_gatew.Httpapi.Emit.{Stamp, Assessment}
use llm_security_audit_gatew.Httpapi.Front.{Request, Services, proxy}
use llm_security_audit_gatew.Httpapi.Front.Admission.{Admits, proxy-Admits}
use llm_security_audit_gatew.Httpapi.RequestAudit.{
  decision_of, audit_request, on_decision, after_auditor, proceed,
}
use llm_security_audit_gatew.Httpapi.RequestAudit.Trail.{
  Recorded, audit_request-Recorded, Passes, audit_request-Passes,
}
use llm_security_audit_gatew.Httpapi.ResponseAudit.{assess_text, new_session}
use llm_security_audit_gatew.Httpapi.ResponseAudit.Inspection.{
  Trail, inspect_all, inspect-Trail, inspect_refuses,
}
use llm_security_audit_gatew.Stream.Fragments.{Fragment}

-- A model is configured, and the gateway fails closed on its errors.
abbrev host : Host
host = record {
  getenv = λ key. if str_eq key "AUDITOR_URL" || str_eq key "AUDIT_FAIL_CLOSED" then "true" else "";
  atoi = λ _. none;
  parse_bool = λ _. some true;
  to_lower = λ s. s;
  trim_space = λ s. s;
  split_commas = λ s. s ∷ [];
  quote = λ s. s;
}

abbrev config : Config
config = configured host

audits : config.audit_enabled ≡ true
unfolding configured env_bool
audits = refl

abbrev stamp : Stamp
stamp = record {
  pipeline = true;
  event_id = "e1";
  event_time = 7;
  latency_ms = 0;
  sha256_hex = λ _. "00";
}

abbrev input : Input
input = record {
  request_id = "r1";
  tenant_id = "acme";
  api_key_id = "k1";
  direction = "request";
  model = "m";
  path = "/v1/chat/completions";
  text = b'x' ∷ [];
}

abbrev has_x : Bytes → Bool
has_x [] = false
has_x (c ∷ cs) = c == b'x' || has_x cs

has_x_append : (u v : Bytes) → has_x (u ++ (b'x' ∷ v)) ≡ true
has_x_append [] v = refl
has_x_append (c ∷ u) v = ground (arith, has_x_append u v)

abbrev blocking : Match
blocking = record {
  rule_id = "1";
  name = "x";
  severity = "high";
  action = "block";
  weight = pos 10;
  evidence = "x";
}

abbrev assess : ℕ → Input → Assessment
assess n i = record {
  verdict = record { score = pos 10; matches = if has_x i.text then blocking ∷ [] else [] };
  rule_version = "v1";
  configured = default_policy;
}

blocks :
    (n : ℕ) (u v : Bytes)
    → decision_of
        (assess_text config (λ _. stamp) input (λ bs. bs) assess n (u ++ ((b'x' ∷ []) ++ v)))
      ≡ block
unfolding elevate elevate_matches decide decide_normal normalized
blocks n u v = rw (has_x_append u v) refl

-- Between the thresholds of the default policy.
abbrev suspicious : Assessment
suspicious = record {
  verdict = record { score = pos 50; matches = [] };
  rule_version = "v1";
  configured = default_policy;
}

abbrev clean : Result String ModelResult
clean = ok (record {
  verdict = "allow";
  score = pos 3;
  categories = [];
  evidence = "";
  model = "m";
  version = "1";
  latency = 1;
})

audit_request-Recorded_example :
    Recorded stamp input (audit_request config stamp input suspicious [] (err "timeout"))
audit_request-Recorded_example =
    audit_request-Recorded config stamp input suspicious [] (err "timeout") audits

lets_pass : (audit_request config stamp input suspicious [] clean).refusal ≡ none
unfolding audit_request on_decision after_auditor proceed elevate elevate_matches decide
    decide_normal normalized configured env_bool
lets_pass = refl

audit_request-Passes_example :
    (decision_of suspicious ≢ block)
    × (((str_eq (decision_of suspicious) monitor && not (str_eq config.auditor_url "")) ≡ false)
        ⊎ Passes config suspicious clean)
audit_request-Passes_example =
    audit_request-Passes config stamp input suspicious [] clean audits lets_pass

abbrev fragment : String → Bytes → Fragment
fragment channel text = record { channel = channel; text = text }

abbrev two_events : List (List Fragment)
two_events = (fragment "a" (b'o' ∷ []) ∷ []) ∷ (fragment "b" (b'x' ∷ []) ∷ []) ∷ []

inspect-Trail_example :
    Trail
      (inspect_all config (λ _. stamp) input (λ bs. bs) assess two_events (new_session (pos 4))).1
      (inspect_all config
        (λ _. stamp)
        input
        (λ bs. bs)
        assess
        two_events
        (new_session (pos 4))).0.emitted
inspect-Trail_example =
    inspect-Trail config (λ _. stamp) input (λ bs. bs) assess (pos 4) two_events (λ _. refl)

abbrev spelled : List (List Fragment)
spelled =
    ((fragment "a" (b'o' ∷ []) ∷ []) ∷ []) ++ (([] ++ fragment "a" (b'x' ∷ b'y' ∷ []) ∷ []) ∷ [])

inspect_refuses_example :
    (inspect_all config (λ _. stamp) input (λ bs. bs) assess spelled (new_session (pos 4))).1
    ≡ false
inspect_refuses_example =
    inspect_refuses config (λ _. stamp) input (λ bs. bs) assess (pos 4)
      ((fragment "a" (b'o' ∷ []) ∷ []) ∷ []) [] (fragment "a" (b'x' ∷ b'y' ∷ [])) [] (b'o' ∷ [])
      (b'x' ∷ []) (b'y' ∷ []) audits blocks refl (omega arith) (omega arith)

read_bounded-Bounded_example :
    Bounded 2 (whole (1 ∷ 2 ∷ 3 ∷ [])) (read_bounded 2 (whole (1 ∷ 2 ∷ 3 ∷ [])))
read_bounded-Bounded_example = read_bounded-Bounded 2 (whole (1 ∷ 2 ∷ 3 ∷ []))

abbrev services : Services
services = record {
  identities =
      some (λ _. ok (record { api_key_id = "k1"; tenant_id = "acme"; upstream_id = "u1" }));
  upstreams = some (λ _. some true);
  limiter = λ _. none;
  new_id = "r1";
  decoders = record {
    normal = λ s. s;
    gzip = λ _. none;
    zlib = λ _. none;
    flate = λ bs. whole bs;
    brotli = λ bs. whole bs;
  };
  normalize = λ bs. bs;
  model_of = λ _. "m";
  assess = λ i. assess 0 i;
  auditor = λ _. clean;
  stamp = stamp;
}

abbrev request : Request
request = record {
  method = "POST";
  ip = "203.0.113.9";
  path = "/v1/chat/completions";
  authorization = "Bearer agw";
  content_encoding = "";
  request_id = "";
  body = b'o' ∷ b'k' ∷ [];
}

proxy-Admits_example :
    Admits config services 5 request
      (new_auth_throttle 30 60)
      (proxy config services 5 request (new_auth_throttle 30 60)).answer
proxy-Admits_example = proxy-Admits config services 5 request (new_auth_throttle 30 60)

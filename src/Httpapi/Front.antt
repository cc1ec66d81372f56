-- ===== src/Httpapi/Front.antt =====
-- internal/httpapi/handler.go: `proxy` from its first guard to the start of the upstream exchange.
-- The identity service, the upstream store, the rate limiter, the decoders, the normalizer and the
-- rules answer through a record.
use llm_security_audit_gatew.Base.{
  ℕ, String, ℤ, pos, ltb_ℤ, List, [], ◌∷◌, Option, none, some, Bool, true, false, not, str_eq,
  concat, length, Bytes, if◌then◌else◌,
}
use llm_security_audit_gatew.Base.Result.{Result, ok, err}
use llm_security_audit_gatew.Audit.{Input, ModelResult}
use llm_security_audit_gatew.Config.{Config}
use llm_security_audit_gatew.Httpapi.AuthThrottle.{AuthThrottle, blocked, fail}
use llm_security_audit_gatew.Httpapi.Decode.{
  DecodeError, Decoders, max_decoded_body_bytes, decode_audited_body, encoding_error,
}
use llm_security_audit_gatew.Httpapi.Emit.{Stamp, Assessment}
use llm_security_audit_gatew.Httpapi.RequestAudit.{Audited, audit_request}
pub mod Admission

pub record Identity : Type 0 where
  pub api_key_id : String
  pub tenant_id : String
  pub upstream_id : String

pub data AuthError : Type 0 where
  invalid_key : AuthError
  unavailable : AuthError

pub record Request : Type 0 where
  pub method : String
  pub ip : String
  pub path : String
  pub authorization : String
  pub content_encoding : String
  pub request_id : String
  pub body : Bytes

-- What the handler asks, the answers of one request. `upstreams` says whether the bound upstream
-- is enabled, and `limiter` whether the request is allowed; both are `none` on an error. The two
-- outer options are nil fields of the handler.
pub record Services : Type 0 where
  pub identities : Option (String → Result AuthError Identity)
  pub upstreams : Option (String → Option Bool)
  pub limiter : String → Option Bool
  pub new_id : String
  pub decoders : Decoders
  pub normalize : Bytes → Bytes
  pub model_of : Bytes → String
  pub assess : Input → Assessment
  pub auditor : Input → Result String ModelResult
  pub stamp : Stamp

-- An error answer by its status and code, or the exchange with the upstream.
pub data Answer : Type 0 where
  refused : ℕ → String → Answer
  forward : Input → Bytes → Answer

pub record Handled : Type 0 where
  pub throttle : AuthThrottle
  pub audited : Option Audited
  pub answer : Answer

module _ (config : Config) (services : Services) (now : ℕ) (request : Request) where
  open services use {
    identities, upstreams, limiter, new_id, decoders, normalize, model_of, assess, auditor, stamp,
  }

  abbrev pub answered : AuthThrottle → ℕ → String → Handled
  answered t status code = record { throttle = t; audited = none; answer = refused status code }

  abbrev pub input_of : Identity → Bytes → Input
  input_of identity body = record {
    request_id = if str_eq request.request_id "" then new_id else request.request_id;
    tenant_id = identity.tenant_id;
    api_key_id = identity.api_key_id;
    direction = "request";
    model = model_of body;
    path = request.path;
    text = normalize body;
  }

  abbrev pub audit_of : Identity → Bytes → Audited
  audit_of identity body =
      let input = input_of identity body in
      audit_request config stamp input (assess input) body (auditor input)

  abbrev pub answer_of : Input → Bytes → Option String → Answer
  answer_of input body (some code) = refused 403 code
  answer_of input body none = forward input body

  abbrev pub after_decode : AuthThrottle → Identity → Result DecodeError Bytes → Handled
  after_decode t identity (err e) = answered t (encoding_error e).0 (encoding_error e).1
  after_decode t identity (ok body) = record {
    throttle = t;
    audited = some (audit_of identity body);
    answer = answer_of (input_of identity body) body (audit_of identity body).refusal;
  }

  abbrev pub on_size : AuthThrottle → Identity → Bool → Handled
  on_size t identity true = answered t 413 "request_too_large"
  on_size t identity false =
      after_decode t identity
        (decode_audited_body decoders max_decoded_body_bytes request.body request.content_encoding)

  -- An error of the limiter lets the request pass.
  abbrev pub on_limit : AuthThrottle → Identity → Option Bool → Handled
  on_limit t identity (some false) = answered t 429 "rate_limit_exceeded"
  on_limit t identity (some true) =
      on_size t identity (ltb_ℤ config.max_body_bytes (pos (length request.body)))
  on_limit t identity none =
      on_size t identity (ltb_ℤ config.max_body_bytes (pos (length request.body)))

  abbrev pub on_bound : AuthThrottle → Identity → Option Bool → Handled
  on_bound t identity (some true) =
      on_limit t identity (limiter (concat (identity.tenant_id ∷ ":" ∷ request.path ∷ [])))
  on_bound t identity (some false) = answered t 503 "upstream_unavailable"
  on_bound t identity none = answered t 503 "upstream_unavailable"

  abbrev pub on_upstreams : AuthThrottle → Identity → Option (String → Option Bool) → Handled
  on_upstreams t identity none = answered t 503 "upstream_unavailable"
  on_upstreams t identity (some bound) = on_bound t identity (bound identity.api_key_id)

  abbrev pub on_identity : AuthThrottle → Result AuthError Identity → Handled
  on_identity t (ok identity) = on_upstreams t identity upstreams
  on_identity t (err unavailable) = answered t 503 "identity_unavailable"
  on_identity t (err invalid_key) = answered (fail now request.ip t) 401 "invalid_api_key"

  abbrev pub on_throttle : (String → Result AuthError Identity) → AuthThrottle × Bool → Handled
  on_throttle authenticate (t, true) = answered t 429 "auth_throttled"
  on_throttle authenticate (t, false) = on_identity t (authenticate request.authorization)

  abbrev pub on_identities : AuthThrottle → Option (String → Result AuthError Identity) → Handled
  on_identities t none = answered t 503 "identity_unavailable"
  on_identities t (some authenticate) = on_throttle authenticate (blocked now request.ip t)

  unfoldable pub proxy : AuthThrottle → Handled
  proxy t =
      if not (str_eq request.method "POST") then answered t 405 "" else on_identities t identities

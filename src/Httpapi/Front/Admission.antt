-- ===== src/Httpapi/Front/Admission.antt =====
-- Which requests `proxy` of internal/httpapi/handler.go forwards.
use llm_security_audit_gatew.Base.{
  ℕ, String, pos, ltb_ℤ, [], ◌∷◌, Option, none, some, Bool, true, false, not, str_eq, concat,
  length, Bytes, ◌≡◌, ◌≢◌, refl, Bool-cases, inl, inr,
}
use llm_security_audit_gatew.Base.Result.{Result, ok, err}
use llm_security_audit_gatew.Audit.{Input}
use llm_security_audit_gatew.Config.{Config}
use llm_security_audit_gatew.Httpapi.AuthThrottle.{AuthThrottle, blocked}
use llm_security_audit_gatew.Httpapi.Decode.{
  DecodeError, max_decoded_body_bytes, decode_audited_body,
}
use llm_security_audit_gatew.Httpapi.RequestAudit.{audit_request}
use llm_security_audit_gatew.Httpapi.Front.{
  Identity, AuthError, invalid_key, unavailable, Request, Services, Answer, refused, forward,
  input_of, audit_of, answer_of, after_decode, on_size, on_limit, on_bound, on_upstreams,
  on_identity, on_throttle, on_identities, proxy,
}

module _ (config : Config) (services : Services) (now : ℕ) (request : Request)
    (before : AuthThrottle) where
  open services use {identities, upstreams, limiter, decoders, assess, auditor, stamp}

  -- What was asked and answered before a request is forwarded.
  pub record Admitted (input : Input) (body : Bytes) : Type 0 where
    pub authenticate : String → Result AuthError Identity
    pub identity : Identity
    pub bound : String → Option Bool
    pub serving : identities ≡ some authenticate
    pub not_throttled : (blocked now request.ip before).1 ≡ false
    pub authenticated : authenticate request.authorization ≡ ok identity
    pub has_upstreams : upstreams ≡ some bound
    pub enabled : bound identity.api_key_id ≡ some true
    pub within_rate : limiter (concat (identity.tenant_id ∷ ":" ∷ request.path ∷ [])) ≢ some false
    pub within_size : ltb_ℤ config.max_body_bytes (pos (length request.body)) ≡ false
    pub decoded :
        decode_audited_body decoders max_decoded_body_bytes request.body request.content_encoding
        ≡ ok body
    pub of_tenant : input.tenant_id ≡ identity.tenant_id
    pub passed :
        (audit_request config stamp input (assess input) body (auditor input)).refusal ≡ none

  abbrev pub Admits : Answer → Type 0
  Admits (refused status code) = Unit
  Admits (forward input body) = Admitted input body

  module _ (authenticate : String → Result AuthError Identity)
      (serving : identities ≡ some authenticate)
      (not_throttled : (blocked now request.ip before).1 ≡ false) (t : AuthThrottle) where
    module _ (identity : Identity)
        (authenticated : authenticate request.authorization ≡ ok identity)
        (bound : String → Option Bool) (has_upstreams : upstreams ≡ some bound)
        (enabled : bound identity.api_key_id ≡ some true) where
      decoded-Admits :
          (r : Result DecodeError Bytes)
          → limiter (concat (identity.tenant_id ∷ ":" ∷ request.path ∷ [])) ≢ some false
          → ltb_ℤ config.max_body_bytes (pos (length request.body)) ≡ false
          → decode_audited_body decoders max_decoded_body_bytes request.body
              request.content_encoding
            ≡ r
          → Admits (after_decode config services now request t identity r).answer
      decoded-Admits (err e) rate size d = tt
      decoded-Admits (ok body) rate size d =
          go (audit_of config services now request identity body).refusal refl
        where
          go :
              (o : Option String)
              → (audit_of config services now request identity body).refusal ≡ o
              → Admits (
                  answer_of config services now request
                    (input_of config services now request identity body)
                    body
                    o)
          go (some code) e = tt
          go none e = record {
            authenticate = authenticate;
            identity = identity;
            bound = bound;
            serving = serving;
            not_throttled = not_throttled;
            authenticated = authenticated;
            has_upstreams = has_upstreams;
            enabled = enabled;
            within_rate = rate;
            within_size = size;
            decoded = d;
            of_tenant = refl;
            passed = e;
          }

      sized-Admits :
          (big : Bool)
          → limiter (concat (identity.tenant_id ∷ ":" ∷ request.path ∷ [])) ≢ some false
          → ltb_ℤ config.max_body_bytes (pos (length request.body)) ≡ big
          → Admits (on_size config services now request t identity big).answer
      sized-Admits true rate e = tt
      sized-Admits false rate e = decoded-Admits _ rate e refl

      limited-Admits :
          (o : Option Bool)
          → limiter (concat (identity.tenant_id ∷ ":" ∷ request.path ∷ [])) ≡ o
          → Admits (on_limit config services now request t identity o).answer
      limited-Admits (some false) e = tt
      limited-Admits (some true) e = sized-Admits _ (λ h. cc) refl
      limited-Admits none e = sized-Admits _ (λ h. cc) refl

    bound-Admits :
        (identity : Identity)
        → authenticate request.authorization ≡ ok identity
        → (bound : String → Option Bool) → upstreams ≡ some bound
        → (o : Option Bool) → bound identity.api_key_id ≡ o
        → Admits (on_bound config services now request t identity o).answer
    bound-Admits identity a bound u (some true) e = limited-Admits identity a bound u e _ refl
    bound-Admits identity a bound u (some false) e = tt
    bound-Admits identity a bound u none e = tt

    upstreams-Admits :
        (identity : Identity)
        → authenticate request.authorization ≡ ok identity
        → (o : Option (String → Option Bool)) → upstreams ≡ o
        → Admits (on_upstreams config services now request t identity o).answer
    upstreams-Admits identity a none e = tt
    upstreams-Admits identity a (some bound) e = bound-Admits identity a bound e _ refl

    identity-Admits :
        (r : Result AuthError Identity)
        → authenticate request.authorization ≡ r
        → Admits (on_identity config services now request t r).answer
    identity-Admits (ok identity) e = upstreams-Admits identity e upstreams refl
    identity-Admits (err unavailable) e = tt
    identity-Admits (err invalid_key) e = tt

  throttle-Admits :
      (authenticate : String → Result AuthError Identity)
      → identities ≡ some authenticate
      → (r : AuthThrottle × Bool) → (blocked now request.ip before).1 ≡ r.1
      → Admits (on_throttle config services now request authenticate r).answer
  throttle-Admits authenticate s (t, true) e = tt
  throttle-Admits authenticate s (t, false) e = identity-Admits authenticate s e t _ refl

  identities-Admits :
      (o : Option (String → Result AuthError Identity))
      → identities ≡ o
      → Admits (on_identities config services now request before o).answer
  identities-Admits none e = tt
  identities-Admits (some authenticate) e =
      throttle-Admits authenticate e (blocked now request.ip before) refl

-- A request is forwarded only for an address that is not throttled, under a key that the identity
-- service accepted, to an enabled upstream bound to that very key, within the rate and the size
-- allowed; what is forwarded is the decoded body, for the key's tenant, and the audit, where it is
-- enabled, did not refuse it.
pub proxy-Admits :
    (config : Config) (services : Services) (now : ℕ) (request : Request) (t : AuthThrottle)
    → Admits config services now request t (proxy config services now request t).answer
unfolding proxy
proxy-Admits config services now request t =
    elim (Bool-cases (not (str_eq request.method "POST"))) [
      | inl other ↦ rw other tt
      | inr post ↦ rw post (identities-Admits config services now request t _ refl)
    ]

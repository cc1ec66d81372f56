-- ===== src/Proxy/Upstream/Responses.antt =====
-- internal/proxy/proxy.go: what of an upstream's answer reaches the client.
use llm_security_audit_gatew.Base.{
  ℕ, ◌≡◌, ℤ, [], Option, none, some, Bool, true, false, erase, Bytes, length,
}
use llm_security_audit_gatew.Base.Result.{Result, ok}
use llm_security_audit_gatew.Stream.Events.{Event}
use llm_security_audit_gatew.Stream.Copy.{World}
use llm_security_audit_gatew.Proxy.Upstream.{
  Headers, Upstream, Request, Body, Response, Libraries, Exchange, is_gzip, is_stream,
}
use llm_security_audit_gatew.Base.{is_some, ◌≤◌, ◌⊎◌}
use llm_security_audit_gatew.Stream.Copy.{copy}
use llm_security_audit_gatew.Proxy.Upstream.{
  Outcome, completed, unavailable, escapes_boundary, failed, too_large, blocked,
}

-- An error says whether the response had begun.
abbrev pub Marked : Outcome → Bool → Type 0
Marked completed began = began ≡ true
Marked unavailable began = began ≡ false
Marked escapes_boundary began = began ≡ false
Marked (failed e) began = Unit
Marked too_large began = began ≡ false
Marked (blocked started code) began = began ≡ started

module _ (l : Libraries) (max : ℕ) (inspect : Bytes → Bool) {S : Type 0} (world : World S)
    (parse : Bytes → Event) (start : S) (max_event : ℤ) where
  -- The upstream's answer, unpacked where it is a gzip that the transport left.
  abbrev pub Unpacked : Response → Headers → Body → Type 0
  Unpacked response headers body =
      ((is_gzip l response ≡ false) × (headers ≡ response.headers) × (body ≡ response.body))
      ⊎ ((is_gzip l response ≡ true)
          × (headers ≡ erase "Content-Encoding" response.headers)
          × (l.gunzip response.body ≡ ok body))

  -- What the client got of it: the events of a copy, or every byte.
  abbrev pub Content : Headers → Body → Exchange → Type 0
  Content headers body e =
      ((is_stream l headers ≡ true)
        × (e.body ≡ [])
        × (e.events ≡ (copy world parse max_event start body.slices).forwarded))
      ⊎ ((is_stream l headers ≡ false)
          × (e.events ≡ [])
          × (e.body ≡ body.content)
          × (body.read_error ≡ none)
          × (inspect e.body ≡ true)
          × (length e.body ≤ max))

  pub record Answered (e : Exchange) (status : ℕ) (headers : Headers) : Type 0 where
    pub request : Request
    pub response : Response
    pub body : Body
    pub asked : e.request ≡ some request
    pub sent : l.send request ≡ ok response
    pub same_status : status ≡ response.status
    pub unpacked : Unpacked response headers body
    pub content : Content headers body e

  abbrev pub Begun : Exchange → Option (ℕ × Headers) → Type 0
  Begun e none = (e.body ≡ []) × (e.events ≡ [])
  Begun e (some (status, headers)) = Answered e status headers

  pub record Vetted (e : Exchange) : Type 0 where
    pub begun : Begun e e.started
    pub marked : Marked e.outcome (is_some e.started)

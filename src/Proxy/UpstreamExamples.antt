-- ===== src/Proxy/UpstreamExamples.antt =====
-- internal/proxy/proxy.go: the properties at a call that is answered.
use llm_security_audit_gatew.Base.{ℕ, pos, [], ◌∷◌, none, true, false, Bytes}
use llm_security_audit_gatew.Base.Result.{ok}
use llm_security_audit_gatew.Stream.Events.{Event}
use llm_security_audit_gatew.Stream.Copy.{World}
use llm_security_audit_gatew.Proxy.Upstream.{Upstream, Headers, Libraries, do_upstream}
use llm_security_audit_gatew.Proxy.Upstream.Requests.{EnabledOr, do_upstream-Confined}

abbrev libraries : Libraries
libraries = record {
  trim_space = λ s. s;
  trim_slashes = λ s. s;
  join_path = λ base path. ok path;
  parsed_path = λ target. ok "v1/models";
  clean = λ path. path;
  canonical = λ key. key;
  to_lower = λ s. s;
  contains = λ s part. false;
  new_request = λ method path query. none;
  send = λ request. ok (record {
    status = 200;
    headers = [];
    uncompressed = false;
    body = record { slices = []; content = b'{' ∷ b'}' ∷ []; read_error = none };
  });
  gunzip = λ body. ok body;
}

abbrev plain : World ℕ
plain = record {
  context_error = λ s. none;
  inspect = λ s event. (s, true);
  write = λ s raw. (s, none);
}

abbrev upstream : Upstream
upstream = record { base_url = "https://api.example"; api_key = "sk"; enabled = true }

abbrev headers : Headers
headers = ("Cookie", "a" ∷ []) ∷ ("Accept", "b" ∷ []) ∷ []

abbrev event_of : Bytes → Event
event_of raw = record { raw = raw; payload = raw; done = false; fragments = [] }

do_upstream-Confined_example :
    EnabledOr libraries upstream
      (do_upstream libraries plain event_of 0
        (pos 64)
        64
        (λ b. true)
        (λ b. none)
        upstream
        "GET"
        "/v1/models"
        ""
        []
        headers).request
do_upstream-Confined_example =
    do_upstream-Confined libraries plain event_of 0 (pos 64) 64 (λ b. true) (λ b. none) upstream
      "GET" "/v1/models" "" [] headers

-- ===== src/Proxy/Ssrf/Dialing.antt =====
-- What the guard of internal/proxy/ssrf.go lets the gateway contact.
use llm_security_audit_gatew.Base.{
  ◌++◌, ◌<◌, ◌≤◌, length-append, All-append, String, List, [], ◌∷◌, Option, none, some, Bool, true,
  false, not, ◌&&◌, str_eq, eq_iff, length, ◌≡◌, ◌≢◌, refl, inl, inr, Bool-cases, arith, Bytes, All,
  if◌then◌else◌,
}
use llm_security_audit_gatew.Base.Result.{Result, ok, err}
use llm_security_audit_gatew.Proxy.Ssrf.Address.{classify_ip, reason_of, deny_reason}
use llm_security_audit_gatew.Proxy.Ssrf.Guard.{
  Url, Net, TargetPolicy, first_reason, DialError, dial_failed, Dialed, refuse, attempt, dial_each,
  dial_resolved, dial_literal, dial_split, dial_context, check_parsed, check_host, validate_target,
  redirect_policy,
}

-- An address that may be tried under the policy.
pub record Permitted (p : TargetPolicy) (ip : Bytes) : Type 0 where
  pub no_reason : deny_reason p.allow_private_networks ip ≡ ""
  pub no_metadata : classify_ip ip ≢ "metadata"

reason_of-metadata :
    (allowed : Bool) (category : String) → reason_of allowed category ≡ "" → category ≢ "metadata"
unfolding reason_of
reason_of-metadata allowed category h e = cc (rw e at h)

permit :
    (p : TargetPolicy) (ip : Bytes)
    → not (str_eq (deny_reason p.allow_private_networks ip) "") ≡ false
    → Permitted p ip
unfolding deny_reason
permit p ip h = record {
  no_reason = passed;
  no_metadata = reason_of-metadata p.allow_private_networks (classify_ip ip) passed;
}
  where
    passed : deny_reason p.allow_private_networks ip ≡ ""
    passed = (eq_iff (deny_reason p.allow_private_networks ip) "").0 (ground arith)

abbrev pub ConnectedSafely : TargetPolicy → Result DialError Bytes → Type 0
ConnectedSafely p (ok ip) = Permitted p ip
ConnectedSafely p (err e) = Unit

-- Every address that was tried was permitted, and so is the one that was connected.
pub record Safe (p : TargetPolicy) (r : Dialed) : Type 0 where
  pub tried_permitted : All (Permitted p) r.tried
  pub connected : ConnectedSafely p r.outcome

-- An empty reason is not one of a test that has a text to give.
skip : (b : Bool) (s r : String) → str_eq s "" ≡ false → (if b then s else r) ≡ "" → r ≡ ""
skip true s r h e = cc (rw e at h)
skip false s r h e = e

empty_reason : (s : String) → s ≡ "" → not (str_eq s "") ≡ true → ⊥
empty_reason s e b = cc (rw e at b)

module _ (net : Net) (p : TargetPolicy) where
  open net use {parse_url, parse_ip, split_host_port, lookup_ip_addr, dial, to_lower}

  attempt-Safe :
      (ip : Bytes) (o : Option String) (later : DialError → Dialed)
      → Permitted p ip
      → ((e : DialError) → Safe p (later e))
      → Safe p (attempt net p ip o later)
  attempt-Safe ip none later h k = record { tried_permitted = (h, tt); connected = h }
  attempt-Safe ip (some e) later h k = record {
    tried_permitted = (h, (k (dial_failed e)).tried_permitted);
    connected = (k (dial_failed e)).connected;
  }

  refuse-Safe : (e : DialError) → Safe p (refuse net p e)
  refuse-Safe e = record { tried_permitted = tt; connected = tt }

  dial_each-Safe :
      (port : String) (ips : List Bytes) (last : DialError) → Safe p (dial_each net p port ips last)
  unfolding dial_each
  dial_each-Safe port [] last = refuse-Safe last
  dial_each-Safe port (ip ∷ ips) last =
      elim (Bool-cases (not (str_eq (deny_reason p.allow_private_networks ip) ""))) [
        | inl bad ↦ rw bad (refuse-Safe _)
        | inr good ↦ rw good (
            attempt-Safe ip (dial ip port) (dial_each net p port ips) (permit p ip good)
              (λ e. dial_each-Safe port ips e))
      ]

  dial_resolved-Safe :
      (port : String) (r : Result String (List Bytes)) → Safe p (dial_resolved net p port r)
  dial_resolved-Safe port (err e) = refuse-Safe _
  dial_resolved-Safe port (ok []) = refuse-Safe _
  dial_resolved-Safe port (ok (ip ∷ ips)) = dial_each-Safe port (ip ∷ ips) _

  dial_literal-Safe :
      (host port : String) (o : Option Bytes) → Safe p (dial_literal net p host port o)
  dial_literal-Safe host port none = dial_resolved-Safe port (lookup_ip_addr host)
  dial_literal-Safe host port (some ip) =
      elim (Bool-cases (not (str_eq (deny_reason p.allow_private_networks ip) ""))) [
        | inl bad ↦ rw bad (refuse-Safe _)
        | inr good ↦
            rw good (attempt-Safe ip (dial ip port) (refuse net p) (permit p ip good) refuse-Safe)
      ]

  dial_split-Safe : (o : Option (String × String)) → Safe p (dial_split net p o)
  dial_split-Safe none = refuse-Safe _
  dial_split-Safe (some (host, port)) = dial_literal-Safe host port (parse_ip host)

  -- Whatever the resolver answers and the network does, `DialContext` tries and connects only
  -- addresses that the policy gives no reason against, and none of them is a cloud metadata
  -- address, also where private networks are allowed.
  pub dial_context-Safe : (address : String) → Safe p (dial_context net p address)
  unfolding dial_context
  dial_context-Safe address = dial_split-Safe (split_host_port address)

  first_reason-Permitted :
      (ips : List Bytes) → first_reason p.allow_private_networks ips ≡ "" → All (Permitted p) ips
  unfolding first_reason
  first_reason-Permitted [] h = tt
  first_reason-Permitted (ip ∷ ips) h =
      elim (Bool-cases (not (str_eq (deny_reason p.allow_private_networks ip) ""))) [
        | inl bad ↦ absurd (empty_reason _ (rw bad at h) bad)
        | inr good ↦ (permit p ip good, first_reason-Permitted ips (rw good at h))
      ]

  passed_checks :
      (url : Url)
      → check_parsed net p (some url) ≡ ""
      → check_host net p url.hostname (parse_ip url.hostname) ≡ ""
  passed_checks url h = skip (str_eq url.hostname "") "host is required" _ refl (
      skip url.has_user "user info is not allowed" _ refl (
        skip (not (str_eq url.scheme "http") && not (str_eq url.scheme "https"))
          "scheme must be http or https" _ refl h))

  -- A configured URL with a host name that resolves is accepted only if every address that the
  -- name resolves to is permitted.
  pub validate_target-Permitted :
      (raw_url : String) (url : Url) (ips : List Bytes)
      → validate_target net p raw_url ≡ none
      → parse_url raw_url ≡ some url
      → parse_ip url.hostname ≡ none
      → lookup_ip_addr url.hostname ≡ ok ips
      → All (Permitted p) ips
  unfolding validate_target
  validate_target-Permitted raw_url url ips h parsed name found = first_reason-Permitted ips (
      rw found at (
        rw name at (
          passed_checks url (
            rw parsed at ((eq_iff (check_parsed net p (parse_url raw_url)) "").0 (ground arith))))))

  -- The requests that `net/http` makes behind the first, oldest first: each one passed the policy
  -- against the first and those before it.
  pub data Followed (first : Url) : List Url → Type 0 where
    started : Followed first []
    redirected :
        {later : List Url}
        → Followed first later
        → (req : Url) → redirect_policy net p req first later ≡ none
        → Followed first (later ++ (req ∷ []))

  abbrev pub Stays : Url → Url → Type 0
  Stays first req =
      (to_lower req.scheme ≡ to_lower first.scheme) × (to_lower req.host ≡ to_lower first.host)

  redirect_policy-Stays :
      (req first : Url) (later : List Url)
      → redirect_policy net p req first later ≡ none
      → (length later < 2) × Stays first req
  unfolding redirect_policy
  redirect_policy-Stays req first later h = ground (
    arith,
    eq_iff (to_lower req.scheme) (to_lower first.scheme),
    eq_iff (to_lower req.host) (to_lower first.host),
  )

  -- However a server redirects, a client makes at most two requests behind the first, and each of
  -- them has the scheme and the host of the first, up to letter case.
  pub Followed-Stays :
      {first : Url} {later : List Url}
      → Followed first later
      → (length later ≤ 2) × All (Stays first) later
  Followed-Stays started = (omega arith, tt)
  Followed-Stays {first} (redirected {later = later} f req h) =
      let stays = redirect_policy-Stays req first later h in
      (
        omega (arith, length-append later (req ∷ []), stays.0),
        All-append (Stays first) later (req ∷ []) (Followed-Stays f).1 (stays.1, tt),
      )

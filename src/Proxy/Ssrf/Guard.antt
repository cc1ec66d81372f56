-- ===== src/Proxy/Ssrf/Guard.antt =====
-- internal/proxy/ssrf.go: `ValidateTarget`, the redirect policy and the dialer. `net/url`,
-- `net.ParseIP`, `net.SplitHostPort`, the resolver and the network are parameters; log lines are
-- left out.
use llm_security_audit_gatew.Base.{
  String, List, [], ◌∷◌, Option, none, some, Bool, not, ◌&&◌, leb, length, str_eq, concat, Bytes,
  if◌then◌else◌,
}
use llm_security_audit_gatew.Base.Result.{Result, ok, err}
use llm_security_audit_gatew.Proxy.Ssrf.Address.{deny_reason}

pub record Url : Type 0 where
  pub scheme : String
  pub has_user : Bool
  pub host : String
  pub hostname : String

-- The packages that the guard calls.
pub record Net : Type 0 where
  pub parse_url : String → Option Url  -- of the trimmed text
  pub parse_ip : String → Option Bytes
  pub split_host_port : String → Option (String × String)
  pub lookup_ip_addr : String → Result String (List Bytes)
  pub dial : Bytes → String → Option String  -- an address and a port; `none` is a connection
  pub to_lower : String → String

pub record TargetPolicy : Type 0 where
  pub allow_private_networks : Bool

-- The first reason against one of the addresses, "" where there is none.
unfoldable pub first_reason : Bool → List Bytes → String
first_reason allowed [] = ""
first_reason allowed (ip ∷ ips) =
    let rest = first_reason allowed ips in
    if not (str_eq (deny_reason allowed ip) "") then deny_reason allowed ip else rest

-- Why a dial did not connect.
pub data DialError : Type 0 where
  denied : String → DialError
  dial_failed : String → DialError

-- What a dial did: the connected address or the error, and the addresses that it tried.
pub record Dialed : Type 0 where
  pub outcome : Result DialError Bytes
  pub tried : List Bytes

module _ (net : Net) (p : TargetPolicy) where
  open net use {parse_url, parse_ip, split_host_port, lookup_ip_addr, dial, to_lower}

  abbrev pub check_resolved : Result String (List Bytes) → String
  check_resolved (err e) = ""
  check_resolved (ok ips) = first_reason p.allow_private_networks ips

  abbrev pub check_host : String → Option Bytes → String
  check_host host (some ip) = deny_reason p.allow_private_networks ip
  check_host host none = check_resolved (lookup_ip_addr host)

  abbrev pub check_parsed : Option Url → String
  check_parsed none = "malformed URL"
  check_parsed (some url) =
      if not (str_eq url.scheme "http") && not (str_eq url.scheme "https")
      then "scheme must be http or https"
      else if url.has_user
      then "user info is not allowed"
      else if str_eq url.hostname ""
      then "host is required"
      else check_host url.hostname (parse_ip url.hostname)

  unfoldable pub check_url : String → String
  check_url raw_url = check_parsed (parse_url raw_url)

  unfoldable pub validate_target : String → Option String
  unfolding check_url
  validate_target raw_url =
      let reason = check_url raw_url in
      if str_eq reason ""
      then none
      else some (concat ("upstream target not allowed: " ∷ reason ∷ []))

  -- `redirectPolicy`: the new request, the first request, and those made after it. `net/http` calls
  -- it with at least the first.
  unfoldable pub redirect_policy : Url → Url → List Url → Option String
  redirect_policy req first later =
      if leb 3 (length (first ∷ later))
      then some "more than 3 redirects"
      else if not (str_eq (to_lower req.scheme) (to_lower first.scheme))
      then some "redirect changed the scheme"
      else if not (str_eq (to_lower req.host) (to_lower first.host))
      then some "redirect changed the host"
      else none

  abbrev pub refuse : DialError → Dialed
  refuse e = record { outcome = err e; tried = [] }

  abbrev pub and_tried : Bytes → Dialed → Dialed
  and_tried ip r = record r { tried = ip ∷ r.tried }

  -- What a dial of one address gives, before the addresses behind it.
  abbrev pub attempt : Bytes → Option String → (DialError → Dialed) → Dialed
  attempt ip none later = record { outcome = ok ip; tried = ip ∷ [] }
  attempt ip (some e) later = and_tried ip (later (dial_failed e))

  -- The loop of `DialContext` over the resolved addresses, with the last error.
  unfoldable pub dial_each : String → List Bytes → DialError → Dialed
  dial_each port [] last_error = refuse last_error
  dial_each port (ip ∷ ips) last_error =
      let dialed = attempt ip (dial ip port) (dial_each port ips) in
      if not (str_eq (deny_reason p.allow_private_networks ip) "")
      then refuse (denied (deny_reason p.allow_private_networks ip))
      else dialed

  abbrev pub dial_resolved : String → Result String (List Bytes) → Dialed
  dial_resolved port (err e) = refuse (denied "unresolvable host")
  dial_resolved port (ok []) = refuse (denied "unresolvable host")
  dial_resolved port (ok (ip ∷ ips)) = dial_each port (ip ∷ ips) (denied "no dialable address")

  abbrev pub dial_literal : String → String → Option Bytes → Dialed
  dial_literal host port (some ip) =
      if not (str_eq (deny_reason p.allow_private_networks ip) "")
      then refuse (denied (deny_reason p.allow_private_networks ip))
      else attempt ip (dial ip port) (λ e. refuse e)
  dial_literal host port none = dial_resolved port (lookup_ip_addr host)

  abbrev pub dial_split : Option (String × String) → Dialed
  dial_split none = refuse (denied "malformed dial address")
  dial_split (some (host, port)) = dial_literal host port (parse_ip host)

  unfoldable pub dial_context : String → Dialed
  unfolding dial_each
  dial_context address = dial_split (split_host_port address)

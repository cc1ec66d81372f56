-- ===== src/Proxy/Examples.antt =====
-- The theorems on the SSRF guard, with a network of two addresses.
use llm_security_audit_gatew.Base.{
  ◌≤◌, All, List, [], ◌∷◌, none, some, false, not, length, str_eq, ◌≡◌, refl, arith, Bytes,
}
use llm_security_audit_gatew.Base.Result.{ok}
use llm_security_audit_gatew.Proxy.Ssrf.Address.{
  quad, to4, classify_v4, classify_ip, deny_reason, is_unspecified_v4, is_loopback_v4,
  is_metadata_v4, is_private_v4, is_link_local_v4, is_multicast_v4, is_reserved_ipv4,
}
use llm_security_audit_gatew.Proxy.Ssrf.Dialing.{
  Safe, dial_context-Safe, Stays, started, redirected, Followed-Stays,
}
use llm_security_audit_gatew.Proxy.Ssrf.Guard.{
  Url, Net, TargetPolicy, first_reason, dial_context, validate_target, redirect_policy,
}
use llm_security_audit_gatew.Proxy.Ssrf.Ranges.{in_refused_range, classify_v4-ranges}

abbrev public_ip : Bytes
public_ip = 93 ∷ 184 ∷ 216 ∷ 34 ∷ []

abbrev private_ip : Bytes
private_ip = 10 ∷ 0 ∷ 0 ∷ 1 ∷ []

abbrev target : Url
target = record {
  scheme = "https";
  has_user = false;
  host = "api.example";
  hostname = "api.example";
}

-- The name resolves to a public address, then to what the argument says; every dial connects.
abbrev net_of : List Bytes → Net
net_of others = record {
  parse_url = λ _. some target;
  parse_ip = λ _. none;
  split_host_port = λ _. some ("api.example", "443");
  lookup_ip_addr = λ _. ok (public_ip ∷ others);
  dial = λ _ _. none;
  to_lower = λ s. s;
}

abbrev production : TargetPolicy
production = record { allow_private_networks = false }

public_ok : deny_reason false public_ip ≡ ""
unfolding deny_reason classify_ip to4 classify_v4 is_unspecified_v4 is_loopback_v4 is_metadata_v4
    is_private_v4 is_link_local_v4 is_multicast_v4 is_reserved_ipv4
public_ok = refl

private_denied : deny_reason false private_ip ≡ "private or loopback network"
unfolding deny_reason classify_ip to4 classify_v4 is_unspecified_v4 is_loopback_v4 is_metadata_v4
    is_private_v4 is_link_local_v4 is_multicast_v4 is_reserved_ipv4
private_denied = refl

dial_context-Safe_example :
    Safe production (dial_context (net_of (private_ip ∷ [])) production "api.example:443")
dial_context-Safe_example =
    dial_context-Safe (net_of (private_ip ∷ [])) production "api.example:443"

accepted : validate_target (net_of []) production "https://api.example" ≡ none
unfolding validate_target first_reason deny_reason classify_ip to4 classify_v4 is_unspecified_v4
    is_loopback_v4 is_metadata_v4 is_private_v4 is_link_local_v4 is_multicast_v4 is_reserved_ipv4
accepted = refl

Followed-Stays_example :
    (length (target ∷ target ∷ []) ≤ 2)
    × All (Stays (net_of []) production target) (target ∷ target ∷ [])
unfolding redirect_policy
Followed-Stays_example =
    Followed-Stays (net_of []) production {first = target}
      (redirected (redirected started target refl) target refl)

classify_v4-ranges_example :
    str_eq (classify_v4 (quad 172 20 0 1)) "" ≡ not (in_refused_range (quad 172 20 0 1))
classify_v4-ranges_example = classify_v4-ranges (quad 172 20 0 1) (omega arith)

-- ===== src/Proxy/Ssrf/Address.antt =====
-- internal/proxy/ssrf.go: `classifyIP` and `denyReason`, with the methods of `net.IP` that they
-- call. An address is its bytes, 4 or 16 of them.
use llm_security_audit_gatew.Base.{
  ℕ, zero, suc, ◌+◌, ◌-◌, ◌*◌, ◌/◌, ◌^◌, String, [], ◌∷◌, Option, none, some, Bool, true, false,
  ◌&&◌, ◌||◌, ◌==◌, str_eq, get_elem?, Bytes, if◌then◌else◌,
}

-- The four bytes of an IPv4 address.
pub record Quad : Type 0 where
  pub a : ℕ
  pub b : ℕ
  pub c : ℕ
  pub d : ℕ

abbrev pub quad : ℕ → ℕ → ℕ → ℕ → Quad
quad a b c d = record { a = a; b = b; c = c; d = d }

-- `IP.To4`: four bytes, or the IPv4-mapped form ::ffff:a.b.c.d.
unfoldable pub to4 : Bytes → Option Quad
to4 (a ∷ b ∷ c ∷ d ∷ []) = some (quad a b c d)
to4 (z0 ∷ z1 ∷ z2 ∷ z3 ∷ z4 ∷ z5 ∷ z6 ∷ z7 ∷ z8 ∷ z9 ∷ x ∷ y ∷ a ∷ b ∷ c ∷ d ∷ []) =
    if z0 == 0
      && z1 == 0
      && z2 == 0
      && z3 == 0
      && z4 == 0
      && z5 == 0
      && z6 == 0
      && z7 == 0
      && z8 == 0
      && z9 == 0
      && x == 255
      && y == 255
    then some (quad a b c d)
    else none
to4 ip = none

abbrev pub quad_eq : Quad → Quad → Bool
quad_eq p q = p.a == q.a && p.b == q.b && p.c == q.c && p.d == q.d

-- An IPv4 address as a number.
abbrev pub value : Quad → ℕ
value q = ((q.a * 256 + q.b) * 256 + q.c) * 256 + q.d

-- `block.Contains(ip)` for the block of the first `bits` bits of `base`.
abbrev pub contains : Quad → ℕ → Quad → Bool
contains base bits ip = (value ip / 2 ^ (32 - bits)) == (value base / 2 ^ (32 - bits))

-- `isReservedIPv4`.
unfoldable pub is_reserved_ipv4 : Quad → Bool
is_reserved_ipv4 ip =
    contains (quad 0 0 0 0) 8 ip
    || contains (quad 100 64 0 0) 10 ip
    || contains (quad 192 0 0 0) 24 ip
    || contains (quad 192 0 2 0) 24 ip
    || contains (quad 198 18 0 0) 15 ip
    || contains (quad 198 51 100 0) 24 ip
    || contains (quad 203 0 113 0) 24 ip
    || contains (quad 240 0 0 0) 4 ip

-- `IsPrivate`, `IsLinkLocalUnicast`, and the two multicast methods on four bytes.
unfoldable pub is_private_v4 : Quad → Bool
is_private_v4 q = q.a == 10 || (q.a == 172 && (q.b / 16) == 1) || (q.a == 192 && q.b == 168)

unfoldable pub is_link_local_v4 : Quad → Bool
is_link_local_v4 q = q.a == 169 && q.b == 254

unfoldable pub is_multicast_v4 : Quad → Bool
is_multicast_v4 q =
    (q.a == 224 && q.b == 0 && q.c == 0) || (q.a / 16) == 14 || quad_eq q (quad 255 255 255 255)

unfoldable pub is_metadata_v4 : Quad → Bool
is_metadata_v4 q = quad_eq q (quad 169 254 169 254) || quad_eq q (quad 168 63 129 16)

unfoldable pub is_unspecified_v4 : Quad → Bool
is_unspecified_v4 q = quad_eq q (quad 0 0 0 0)

unfoldable pub is_loopback_v4 : Quad → Bool
is_loopback_v4 q = q.a == 127

-- The IPv4 cases of `classifyIP`, in the order of the switch.
unfoldable pub classify_v4 : Quad → String
classify_v4 q =
    if is_unspecified_v4 q
    then "unspecified"
    else if is_loopback_v4 q
    then "loopback"
    else if is_metadata_v4 q
    then "metadata"
    else if is_private_v4 q
    then "private"
    else if is_link_local_v4 q
    then "link-local"
    else if is_multicast_v4 q
    then "multicast"
    else if is_reserved_ipv4 q
    then "reserved"
    else ""

-- The byte at a place; there is none past the end.
abbrev pub byte : Bytes → ℕ → ℕ
byte ip i = elim (get_elem? ip i) [ none ↦ 0 | some b ↦ b ]

abbrev pub starts_as : Bytes → Bytes → Bool
starts_as [] ip = true
starts_as (p ∷ ps) [] = false
starts_as (p ∷ ps) (b ∷ bs) = p == b && starts_as ps bs

-- `n` zero bytes, then `rest`.
abbrev pub zeros : ℕ → Bytes → Bytes
zeros zero rest = rest
zeros (suc n) rest = 0 ∷ zeros n rest

abbrev pub aws_metadata : Bytes
aws_metadata = 0xfd ∷ 0x00 ∷ 0x0e ∷ 0xc2 ∷ zeros 10 (0x02 ∷ 0x54 ∷ [])

-- `isReservedIPv6`: 100::/64, 2001:2::/48 and 2001:db8::/32.
unfoldable pub is_reserved_ipv6 : Bytes → Bool
is_reserved_ipv6 ip =
    starts_as (0x01 ∷ zeros 7 []) ip
    || starts_as (0x20 ∷ 0x01 ∷ 0x00 ∷ 0x02 ∷ 0x00 ∷ 0x00 ∷ []) ip
    || starts_as (0x20 ∷ 0x01 ∷ 0x0d ∷ 0xb8 ∷ []) ip

-- The IPv6 cases of `classifyIP`; two addresses of 16 bytes are equal where one starts as the other.
unfoldable pub classify_v6 : Bytes → String
classify_v6 ip =
    if starts_as (zeros 15 (1 ∷ [])) ip
    then "loopback"
    else if starts_as aws_metadata ip
    then "metadata"
    else if starts_as (zeros 16 []) ip
    then "unspecified"
    else if byte ip 0 == 0xfe && (byte ip 1 / 64) == 2
    then "link-local"
    else if (byte ip 0 / 2) == 126
    then "private"
    else if byte ip 0 == 0xff
    then "multicast"
    else if is_reserved_ipv6 ip
    then "reserved"
    else ""

-- `classifyIP`; the nil slice is the empty list.
abbrev pub classify_as : Bytes → Option Quad → String
classify_as ip (some q) = classify_v4 q
classify_as ip none = classify_v6 ip

unfoldable pub classify_ip : Bytes → String
classify_ip [] = "invalid"
classify_ip (x ∷ xs) = classify_as (x ∷ xs) (to4 (x ∷ xs))

-- The `switch` of `denyReason`, on the category.
unfoldable pub reason_of : Bool → String → String
reason_of allow_private_networks category =
    if str_eq category ""
    then ""
    else if str_eq category "metadata"
    then "cloud metadata endpoint"
    else if str_eq category "loopback" || str_eq category "private" || str_eq category "link-local"
    then (if allow_private_networks then "" else "private or loopback network")
    else "non-routable address"

unfoldable pub deny_reason : Bool → Bytes → String
unfolding reason_of
deny_reason allow_private_networks ip = reason_of allow_private_networks (classify_ip ip)

-- ===== src/Proxy/Ssrf/Ranges.antt =====
-- The IPv4 classes of internal/proxy/ssrf.go against a table of address ranges.
use llm_security_audit_gatew.Base.{
  ℕ, ◌<◌, String, [], ◌∷◌, Bool, true, false, not, ◌&&◌, ◌||◌, leb, str_eq, ◌≡◌, refl, ◌∙◌, ap,
  arith, if◌then◌else◌,
}
use llm_security_audit_gatew.Proxy.Ssrf.Address.{
  Quad, quad, to4, value, is_reserved_ipv4, is_private_v4, is_link_local_v4, is_multicast_v4,
  is_metadata_v4, is_unspecified_v4, is_loopback_v4, classify_v4, classify_ip, zeros,
}

pub record IsQuad (q : Quad) : Type 0 where
  pub a_byte : q.a < 256
  pub b_byte : q.b < 256
  pub c_byte : q.c < 256
  pub d_byte : q.d < 256

-- The addresses from `first` to `last`, both included.
unfoldable pub between : Quad → Quad → Quad → Bool
between first last q = leb (value first) (value q) && leb (value q) (value last)

-- Loopback, the Azure platform address, the private blocks, link-local (with the metadata
-- address), multicast, and the special-use blocks.
unfoldable pub in_refused_range : Quad → Bool
in_refused_range q =
    between (quad 127 0 0 0) (quad 127 255 255 255) q
    || between (quad 168 63 129 16) (quad 168 63 129 16) q
    || between (quad 10 0 0 0) (quad 10 255 255 255) q
    || between (quad 172 16 0 0) (quad 172 31 255 255) q
    || between (quad 192 168 0 0) (quad 192 168 255 255) q
    || between (quad 169 254 0 0) (quad 169 254 255 255) q
    || between (quad 224 0 0 0) (quad 239 255 255 255) q
    || between (quad 0 0 0 0) (quad 0 255 255 255) q
    || between (quad 100 64 0 0) (quad 100 127 255 255) q
    || between (quad 192 0 0 0) (quad 192 0 0 255) q
    || between (quad 192 0 2 0) (quad 192 0 2 255) q
    || between (quad 198 18 0 0) (quad 198 19 255 255) q
    || between (quad 198 51 100 0) (quad 198 51 100 255) q
    || between (quad 203 0 113 0) (quad 203 0 113 255) q
    || between (quad 240 0 0 0) (quad 255 255 255 255) q

if_text :
    (b : Bool) (s r : String)
    → str_eq s "" ≡ false
    → str_eq (if b then s else r) "" ≡ (not b && str_eq r "")
if_text true s r h = h
if_text false s r h = refl

classify_v4-tests :
    (q : Quad)
    → str_eq (classify_v4 q) "" ≡ (
        not (is_unspecified_v4 q)
        && (not (is_loopback_v4 q)
            && (not (is_metadata_v4 q)
                && (not (is_private_v4 q)
                    && (not (is_link_local_v4 q)
                        && (not (is_multicast_v4 q) && (not (is_reserved_ipv4 q) && true)))))))
unfolding classify_v4
classify_v4-tests q =
    if_text (is_unspecified_v4 q) "unspecified" _ refl
    ∙ ap (λ x. not (is_unspecified_v4 q) && x)
        (if_text (is_loopback_v4 q) "loopback" _ refl
          ∙ ap (λ x. not (is_loopback_v4 q) && x)
              (if_text (is_metadata_v4 q) "metadata" _ refl
                ∙ ap (λ x. not (is_metadata_v4 q) && x)
                    (if_text (is_private_v4 q) "private" _ refl
                      ∙ ap (λ x. not (is_private_v4 q) && x)
                          (if_text (is_link_local_v4 q) "link-local" _ refl
                            ∙ ap (λ x. not (is_link_local_v4 q) && x)
                                (if_text (is_multicast_v4 q) "multicast" _ refl
                                  ∙ ap (λ x. not (is_multicast_v4 q) && x)
                                      (if_text (is_reserved_ipv4 q) "reserved" "" refl))))))

module _ (q : Quad) (v : IsQuad q) where
  loopback_range : is_loopback_v4 q ≡ between (quad 127 0 0 0) (quad 127 255 255 255) q
  unfolding is_loopback_v4 between
  loopback_range = ground arith

  unspecified_range :
      (is_unspecified_v4 q || between (quad 0 0 0 0) (quad 0 255 255 255) q)
      ≡ between (quad 0 0 0 0) (quad 0 255 255 255) q
  unfolding is_unspecified_v4 between
  unspecified_range = ground arith

  private_range : is_private_v4 q ≡ (
      between (quad 10 0 0 0) (quad 10 255 255 255) q
      || between (quad 172 16 0 0) (quad 172 31 255 255) q
      || between (quad 192 168 0 0) (quad 192 168 255 255) q)
  unfolding is_private_v4 between
  private_range = ground arith

  metadata_range : (is_metadata_v4 q || is_link_local_v4 q) ≡ (
      between (quad 168 63 129 16) (quad 168 63 129 16) q
      || between (quad 169 254 0 0) (quad 169 254 255 255) q)
  unfolding is_metadata_v4 is_link_local_v4 between
  metadata_range = ground arith

  multicast_range : (is_multicast_v4 q || between (quad 240 0 0 0) (quad 255 255 255 255) q) ≡ (
      between (quad 224 0 0 0) (quad 239 255 255 255) q
      || between (quad 240 0 0 0) (quad 255 255 255 255) q)
  unfolding is_multicast_v4 between
  multicast_range = ground arith

  reserved_range : is_reserved_ipv4 q ≡ (
      between (quad 0 0 0 0) (quad 0 255 255 255) q
      || between (quad 100 64 0 0) (quad 100 127 255 255) q
      || between (quad 192 0 0 0) (quad 192 0 0 255) q
      || between (quad 192 0 2 0) (quad 192 0 2 255) q
      || between (quad 198 18 0 0) (quad 198 19 255 255) q
      || between (quad 198 51 100 0) (quad 198 51 100 255) q
      || between (quad 203 0 113 0) (quad 203 0 113 255) q
      || between (quad 240 0 0 0) (quad 255 255 255 255) q)
  unfolding is_reserved_ipv4 between
  reserved_range = ground arith

  -- An IPv4 address is acceptable as a public target exactly when it lies in none of the ranges of
  -- the table.
  pub classify_v4-ranges : str_eq (classify_v4 q) "" ≡ not (in_refused_range q)
  unfolding in_refused_range
  classify_v4-ranges =
      classify_v4-tests q
      ∙ ground (
        arith, loopback_range, unspecified_range, private_range, metadata_range, multicast_range,
        reserved_range,
      )

-- The IPv4-mapped IPv6 form of an address is judged as the address itself.
pub classify_ip-mapped :
    (a b c d : ℕ)
    → classify_ip (zeros 10 (255 ∷ 255 ∷ a ∷ b ∷ c ∷ d ∷ [])) ≡ classify_ip (a ∷ b ∷ c ∷ d ∷ [])
unfolding classify_ip to4
classify_ip-mapped a b c d = refl

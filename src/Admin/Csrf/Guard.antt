-- ===== src/Admin/Csrf/Guard.antt =====
-- internal/httpapi/admin.go: what a request needs to write.
use text.Mathlib.TextEquality.{eq_iff}
use llm_security_audit_gatew.Base.{
  ◌≡◌, ◌≢◌, refl, sym, String, List, [], ◌∷◌, Option, none, some, Bool, true, false, ◌&&◌, ◌||◌,
  str_eq, arith, Bool-cases, inl, inr, ◌⊎◌,
}
use llm_security_audit_gatew.Admin.Csrf.{
  Origin, Write, or_else, is_safe, same_origin, matches_entry, is_trusted, origin_judged,
  origin_parsed, origin_allowed, csrf,
}

module _ (parse : String → Option Origin) (trim_space : String → String)
    (equal_fold : String → String → Bool) where
  -- An entry of the list names this origin.
  abbrev pub Listed : Origin → List String → Type 0
  Listed origin [] = ⊥
  Listed origin (trusted ∷ rest) =
      ((entry : Origin) × (parse (trim_space trusted) ≡ some entry)
        × (equal_fold entry.scheme origin.scheme ≡ true)
        × (equal_fold entry.host origin.host ≡ true))
      ⊎ Listed origin rest

  -- With a list, an origin has to be on it, whatever the other headers are; without one, it has to
  -- agree with the forwarded headers, which a client can set unless a proxy in front overwrites them,
  -- and with the request itself where they are absent.
  abbrev pub Welcome : List String → Write → Origin → Type 0
  Welcome [] w origin =
      (equal_fold origin.scheme (or_else w.forwarded_proto w.protocol) ≡ true)
      × (equal_fold origin.host (or_else w.forwarded_host w.host) ≡ true)
  Welcome (trusted ∷ rest) w origin = Listed origin (trusted ∷ rest)

  abbrev pub Genuine : List String → Write → Type 0
  Genuine trusted w =
      (is_safe w.method ≡ true)
      ⊎ (((origin : Origin) × (parse w.origin ≡ some origin) × Welcome trusted w origin)
          ⊎ ((w.origin ≡ "") × (w.csrf_cookie ≢ "") × (w.csrf_header ≡ w.csrf_cookie)))

  is_trusted-Listed :
      (origin : Origin) (trusted : List String)
      → is_trusted parse trim_space equal_fold origin trusted ≡ true
      → Listed origin trusted
  unfolding is_trusted
  is_trusted-Listed origin [] h = absurd cc
  is_trusted-Listed origin (trusted ∷ rest) h =
      from (parse (trim_space trusted)) refl h (is_trusted-Listed origin rest)
    where
      from :
          (entry : Option Origin)
          → parse (trim_space trusted) ≡ entry
          → (matches_entry parse trim_space equal_fold origin entry
              || is_trusted parse trim_space equal_fold origin rest)
            ≡ true
          → (is_trusted parse trim_space equal_fold origin rest ≡ true → Listed origin rest)
          → Listed origin (trusted ∷ rest)
      from none e h later = inr (later h)
      from (some entry) e h later =
          elim (Bool-cases
            (equal_fold entry.scheme origin.scheme && equal_fold entry.host origin.host)) [
              | inl same ↦ inl (entry, e, ground arith, ground arith)
              | inr other ↦ inr (later (ground arith))
            ]

  origin_judged-Welcome :
      (trusted : List String) (w : Write) (origin : Origin)
      → origin_judged parse trim_space equal_fold trusted w origin ≡ true
      → Welcome trusted w origin
  unfolding same_origin
  origin_judged-Welcome [] w origin h = (ground arith, ground arith)
  origin_judged-Welcome (trusted ∷ rest) w origin h = is_trusted-Listed origin (trusted ∷ rest) h

  origin_allowed-Welcome :
      (trusted : List String) (w : Write) (found : Option Origin)
      → parse w.origin ≡ found
      → origin_parsed parse trim_space equal_fold trusted w found ≡ true
      → (origin : Origin) × (parse w.origin ≡ some origin) × Welcome trusted w origin
  origin_allowed-Welcome trusted w none e h = absurd cc
  origin_allowed-Welcome trusted w (some origin) e h =
      (origin, e, origin_judged-Welcome trusted w origin (ground arith))

  -- A request of the administration goes on only if its method is a safe one, or its `Origin` parses
  -- and is on the list of trusted origins (where the list is empty, has the scheme and host of
  -- `X-Forwarded-Proto` and `X-Forwarded-Host`, or of the connection and `Host` where those are absent),
  -- or it has no `Origin` and its token, not empty, equals the cookie's.
  pub csrf-Genuine :
      (trusted : List String) (w : Write)
      → csrf parse trim_space equal_fold trusted w ≡ true
      → Genuine trusted w
  unfolding csrf origin_allowed
  csrf-Genuine trusted w h = elim (Bool-cases (is_safe w.method)) [
    | inl safe ↦ inl safe
    | inr unsafe ↦ inr (elim (Bool-cases (str_eq w.origin "")) [
      | inl absent ↦ inr (
        (eq_iff w.origin "").0 absent,
        token-Set (ground arith),
        sym ((eq_iff w.csrf_cookie w.csrf_header).0 (ground arith)),
      )
      | inr present ↦ inl (origin_allowed-Welcome trusted w (parse w.origin) refl (ground arith))
    ])
  ]
    where
      token-Set : str_eq w.csrf_cookie "" ≡ false → w.csrf_cookie ≢ ""
      token-Set set e = ground (arith, eq_iff w.csrf_cookie "")

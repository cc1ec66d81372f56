-- ===== src/Admin/Csrf.antt =====
-- internal/httpapi/admin.go: csrf, originAllowed, sameOrigin and cookieSecure. The parser of URLs, `TrimSpace` and
-- `EqualFold` are parameters.
use llm_security_audit_gatew.Base.{
  String, List, [], ◌∷◌, Option, none, some, Bool, true, false, not, ◌&&◌, ◌||◌, str_eq,
  if◌then◌else◌,
}
pub mod Guard

-- What `url.Parse` gives of an origin.
pub record Origin : Type 0 where
  pub scheme : String
  pub host : String

-- The parts of a request that the check reads, "" for a header or cookie that is not there;
-- `protocol` is the scheme of the connection.
pub record Write : Type 0 where
  pub method : String
  pub origin : String
  pub host : String
  pub forwarded_host : String
  pub forwarded_proto : String
  pub protocol : String
  pub csrf_cookie : String
  pub csrf_header : String

abbrev pub or_else : String → String → String
or_else value other = if str_eq value "" then other else value

abbrev pub is_safe : String → Bool
is_safe method = str_eq method "GET" || (str_eq method "HEAD" || str_eq method "OPTIONS")

module _ (parse : String → Option Origin) (trim_space : String → String)
    (equal_fold : String → String → Bool) where
  abbrev pub is_same : Origin → String → String → Bool
  is_same origin scheme host = equal_fold origin.scheme scheme && equal_fold origin.host host

  -- `sameOrigin`.
  unfoldable pub same_origin : Write → Origin → Bool
  same_origin w origin =
      if str_eq origin.scheme "" || str_eq origin.host ""
      then false
      else is_same origin (or_else w.forwarded_proto w.protocol) (or_else w.forwarded_host w.host)

  abbrev pub matches_entry : Origin → Option Origin → Bool
  matches_entry origin none = false
  matches_entry origin (some entry) =
      equal_fold entry.scheme origin.scheme && equal_fold entry.host origin.host

  unfoldable pub is_trusted : Origin → List String → Bool
  is_trusted origin [] = false
  is_trusted origin (trusted ∷ rest) =
      matches_entry origin (parse (trim_space trusted)) || is_trusted origin rest

  abbrev pub origin_judged : List String → Write → Origin → Bool
  origin_judged [] w origin = same_origin w origin
  origin_judged (trusted ∷ rest) w origin = is_trusted origin (trusted ∷ rest)

  abbrev pub origin_parsed : List String → Write → Option Origin → Bool
  origin_parsed trusted w none = false
  origin_parsed trusted w (some origin) =
      if str_eq origin.scheme "" || str_eq origin.host ""
      then false
      else origin_judged trusted w origin

  -- `originAllowed`.
  unfoldable pub origin_allowed : List String → Write → Bool
  unfolding same_origin is_trusted
  origin_allowed trusted w = origin_parsed trusted w (parse w.origin)

  -- `csrf`: whether the request goes on.
  unfoldable pub csrf : List String → Write → Bool
  unfolding origin_allowed
  csrf trusted w =
      if is_safe w.method
      then true
      else if not (str_eq w.origin "")
      then origin_allowed trusted w
      else not (str_eq w.csrf_cookie "")
        && (not (str_eq w.csrf_header "") && str_eq w.csrf_cookie w.csrf_header)

  -- `cookieSecure`; `protocol` is "https" where the connection is TLS.
  abbrev pub is_https : Option Origin → Bool
  is_https none = false
  is_https (some origin) = equal_fold origin.scheme "https"

  abbrev pub any_https : List String → Bool
  any_https [] = false
  any_https (trusted ∷ rest) = is_https (parse trusted) || any_https rest

  unfoldable pub cookie_secure : String → List String → Write → Bool
  cookie_secure mode trusted w =
      if str_eq mode "always"
      then true
      else if str_eq mode "never"
      then false
      else if str_eq w.protocol "https" || equal_fold w.forwarded_proto "https"
      then true
      else any_https trusted

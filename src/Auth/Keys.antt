-- ===== src/Auth/Keys.antt =====
-- internal/auth/apikey.go: the keys' format, `Authenticate`, `CreateForUpstream` and
-- `ValidTenantID`. Splitting, UUIDs, base64, SHA-256 and the random bytes are parameters.
use llm_security_audit_gatew.Base.{
  ℕ, suc, String, List, [], ◌∷◌, Option, none, some, Bool, true, false, not, ◌&&◌, ◌||◌, ◌==◌,
  str_eq, ◌++◌, ltb, leb, length, concat, starts_with, trim_prefix, Bytes, if◌then◌else◌,
}
use llm_security_audit_gatew.Base.Result.{Result, ok, err}
use llm_security_audit_gatew.Httpapi.Front.{Identity, AuthError, invalid_key, unavailable}
use llm_security_audit_gatew.Stream.Events.{bytes_eq}

pub record KeyRecord : Type 0 where
  pub id : String
  pub tenant_id : String
  pub upstream_id : String
  pub display_name : String
  pub prefix : String
  pub created_at : ℕ
  pub revoked_at : Option ℕ
  pub key_digest : Bytes
  pub key_salt : Bytes

pub record Codecs : Type 0 where
  pub split_dots : String → List String
  pub is_uuid : String → Bool
  pub decode_raw_url : String → Option Bytes
  pub encode_raw_url : Bytes → String
  pub sha256 : Bytes → Bytes
  pub bytes_of : String → Bytes

abbrev pub secret_byte_length : ℕ
secret_byte_length = 32

-- The characters that the loop of `ValidTenantID` accepts. A character outside ASCII is refused,
-- and so are its bytes, which are at least 128.
unfoldable pub is_mark : ℕ → Bool
is_mark c = c == b'.' || c == b'-' || c == b'_'

unfoldable pub is_alphanumeric : ℕ → Bool
is_alphanumeric c = leb b'a' c && leb c b'z' || leb b'A' c && leb c b'Z' || leb b'0' c && leb c b'9'

-- The loop of `ValidTenantID` from a position on.
unfoldable pub valid_from : ℕ → Bytes → Bool
valid_from i [] = true
valid_from i (c ∷ cs) =
    let rest = valid_from (suc i) cs in
    if is_alphanumeric c || is_mark c then (if i == 0 && is_mark c then false else rest) else false

unfoldable pub valid_tenant_id : Bytes → Bool
unfolding valid_from
valid_tenant_id value =
    if length value == 0 || ltb 128 (length value) then false else valid_from 0 value

module _ (codecs : Codecs) where
  open codecs use {split_dots, is_uuid, decode_raw_url, encode_raw_url, sha256, bytes_of}

  unfoldable pub digest_salted : String → Bytes → Bytes
  digest_salted key salt = sha256 (salt ++ bytes_of key)

  abbrev pub with_secret : String → String → Option Bytes → Option (String × String)
  with_secret key id none = none
  with_secret key id (some secret) =
      if not (length secret == secret_byte_length) then none else some (key, id)

  abbrev pub parse_parts : String → List String → Option (String × String)
  parse_parts key (prefix ∷ id ∷ secret ∷ []) =
      if not (str_eq prefix "agw") || not (is_uuid id)
      then none
      else with_secret key id (decode_raw_url secret)
  parse_parts key _ = none

  -- `ParseBearerKey`: the key and its id; every error is `ErrInvalidKey`.
  unfoldable pub parse_bearer_key : String → Option (String × String)
  parse_bearer_key authorization =
      let key = trim_prefix authorization "Bearer " in
      if not (starts_with authorization "Bearer ") then none else parse_parts key (split_dots key)

  abbrev pub is_active : Option ℕ → Bool
  is_active none = true
  is_active (some instant) = false

  unfoldable pub verified : String → KeyRecord → Bool
  verified key r =
      is_active r.revoked_at
      && ltb 0 (length r.key_digest)
      && ltb 0 (length r.key_salt)
      && bytes_eq r.key_digest (digest_salted key r.key_salt)

  abbrev pub identity_of : KeyRecord → Identity
  identity_of r = record { api_key_id = r.id; tenant_id = r.tenant_id; upstream_id = r.upstream_id }

  abbrev pub on_record : String → Result String (Option KeyRecord) → Result AuthError Identity
  on_record key (err e) = err unavailable
  on_record key (ok none) = err invalid_key
  on_record key (ok (some r)) = if verified key r then ok (identity_of r) else err invalid_key

  abbrev pub on_key :
      (String → Result String (Option KeyRecord))
      → Option (String × String)
      → Result AuthError Identity
  on_key find none = err invalid_key
  on_key find (some (key, id)) = on_record key (find id)

  -- `Authenticate`; the store is asked by the id in the key.
  unfoldable pub authenticate :
      (String → Result String (Option KeyRecord)) → String → Result AuthError Identity
  authenticate find authorization = on_key find (parse_bearer_key authorization)

  -- `CreateForUpstream` up to the store, with a fresh id, secret and salt: the key and its record.
  unfoldable pub create_for_upstream :
      String → Bytes → Bytes → ℕ → String → String → String → Result String (String × KeyRecord)
  create_for_upstream id secret salt now tenant_id upstream_id display_name =
      let key = concat ("agw" ∷ "." ∷ id ∷ "." ∷ encode_raw_url secret ∷ []) in
      if not (valid_tenant_id (bytes_of tenant_id))
      then err "invalid tenant_id"
      else if str_eq upstream_id ""
      then err "upstream_id is required"
      else if not (is_uuid upstream_id)
      then err "invalid upstream_id"
      else ok (
        key,
        record {
          id = id;
          tenant_id = tenant_id;
          upstream_id = upstream_id;
          display_name = display_name;
          prefix = concat ("agw" ∷ "." ∷ id ∷ "." ∷ []);
          created_at = now;
          revoked_at = none;
          key_digest = digest_salted key salt;
          key_salt = salt;
        },
      )

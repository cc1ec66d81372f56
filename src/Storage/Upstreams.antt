-- ===== src/Storage/Upstreams.antt =====
-- internal/storage/admin_upstreams.go: upstreams and the gateway keys bound to them, as two tables.
-- The functions of the libraries on texts and URLs and the cipher are parameters. `now()`, new ids
-- and the faults of the database are arguments; a transaction that meets a fault leaves the tables
-- as they were.
pub mod Writes
pub mod Deletion
pub mod Rows
pub mod Lifecycle
pub mod Sweep
pub mod Ids
pub mod Steps
pub mod Changes
pub mod Terminal
mod Examples
use llm_security_audit_gatew.Base.{
  ℕ, String, List, [], ◌∷◌, Option, none, some, Bool, true, false, not, ◌&&◌, ◌||◌, str_eq, leb,
  if◌then◌else◌, Bytes,
}
use llm_security_audit_gatew.Base.Result.{Result, ok, err, ◌>>=◌}
use llm_security_audit_gatew.Auth.Keys.{KeyRecord}

pub record UpstreamRow : Type 0 where
  pub id : String
  pub name : String
  pub base_url : String
  pub api_key_ciphertext : Option Bytes
  pub enabled : Bool
  pub lifecycle_state : String
  pub delete_requested_at : Option ℕ
  pub purge_after : Option ℕ
  pub created_at : ℕ
  pub updated_at : ℕ

pub record Db : Type 0 where
  pub upstreams : List UpstreamRow
  pub keys : List KeyRecord

pub data StorageError : Type 0 where
  disabled : StorageError
  validation : String → StorageError
  invalid_upstream_url : StorageError
  duplicate_upstream_name : StorageError
  upstream_not_found : StorageError
  upstream_deleting : StorageError
  upstream_disabled : StorageError
  encryption_key_required : StorageError
  cipher : String → StorageError
  database : String → StorageError

-- `crypto.Key`.
pub record Cipher : Type 0 where
  pub encrypt : String → Result StorageError Bytes
  pub decrypt : Bytes → Result StorageError String

abbrev pub active : String
active = "active"

abbrev pub disabled_state : String
disabled_state = "disabled"

abbrev pub deleting : String
deleting = "deleting"

unfoldable pub upstream_lifecycle : Bool → String
upstream_lifecycle enabled = if enabled then active else disabled_state

-- `SELECT ... WHERE id=`.
unfoldable pub upstream_of : String → List UpstreamRow → Option UpstreamRow
upstream_of id [] = none
upstream_of id (row ∷ rows) = if str_eq row.id id then some row else upstream_of id rows

unfoldable pub key_of : String → List KeyRecord → Option KeyRecord
key_of id [] = none
key_of id (row ∷ rows) = if str_eq row.id id then some row else key_of id rows

abbrev pub is_none : {A : Type 0} → Option A → Bool
is_none none = true
is_none (some a) = false

-- What `url.Parse` finds.
pub record Url : Type 0 where
  pub scheme : String
  pub host : String
  pub has_user : Bool

abbrev pub usable : Option Url → Bool
usable none = false
usable (some url) =
    (str_eq url.scheme "https" || str_eq url.scheme "http")
    && not (str_eq url.host "")
    && not url.has_user

-- `strings.TrimSpace`, `strings.TrimRight(_, "/")`, `len` and `url.Parse`.
pub record Texts : Type 0 where
  pub trim_space : String → String
  pub trim_slashes : String → String
  pub byte_length : String → ℕ
  pub parse_url : String → Option Url

unfoldable pub validate_upstream_url : Texts → String → Option StorageError
validate_upstream_url t raw =
    if usable (t.parse_url (t.trim_space raw)) then none else some invalid_upstream_url

-- A `nil` ciphertext is stored as NULL.
unfoldable pub encrypt_secret : String → Option Cipher → Result StorageError (Option Bytes)
encrypt_secret secret none = if str_eq secret "" then ok none else err encryption_key_required
encrypt_secret secret (some key) =
    if str_eq secret "" then ok none else (key.encrypt secret >>= λ bytes. ok (some bytes))

-- The ciphertext of a row, opened.
unfoldable pub open_secret : Option Bytes → Option Cipher → Result StorageError String
open_secret none key = ok ""
open_secret (some []) key = ok ""
open_secret (some (b ∷ bytes)) none = err encryption_key_required
open_secret (some (b ∷ bytes)) (some key) = key.decrypt (b ∷ bytes)

pub record UpstreamSecret : Type 0 where
  pub row : UpstreamRow
  pub api_key : String

abbrev pub with_secret :
    UpstreamRow → Result StorageError String → Result StorageError UpstreamSecret
with_secret row (ok secret) = ok (record { row = row; api_key = secret })
with_secret row (err e) = err e

abbrev pub secret_of : Option UpstreamRow → Option Cipher → Result StorageError UpstreamSecret
secret_of none key = err upstream_not_found
secret_of (some row) key = with_secret row (open_secret row.api_key_ciphertext key)

unfoldable pub get_upstream : String → Option Cipher → Db → Result StorageError UpstreamSecret
unfolding upstream_of open_secret
get_upstream id key db = secret_of (upstream_of id db.upstreams) key

-- `JOIN ... WHERE k.revoked_at IS NULL AND u.lifecycle_state='active' AND u.enabled`.
abbrev pub routed : Option UpstreamRow → Option UpstreamRow
routed none = none
routed (some row) = if str_eq row.lifecycle_state active && row.enabled then some row else none

abbrev pub bound : Option KeyRecord → List UpstreamRow → Option UpstreamRow
bound none rows = none
bound (some key) rows =
    if is_none key.revoked_at then routed (upstream_of key.upstream_id rows) else none

unfoldable pub get_upstream_for_gateway_key :
    String → Option Cipher → Db → Result StorageError UpstreamSecret
unfolding upstream_of key_of open_secret
get_upstream_for_gateway_key key_id key db =
    secret_of (bound (key_of key_id db.keys) db.upstreams) key

unfoldable pub has_upstream_secrets : List UpstreamRow → Bool
has_upstream_secrets [] = false
has_upstream_secrets (row ∷ rows) =
    not (is_none row.api_key_ciphertext) || has_upstream_secrets rows

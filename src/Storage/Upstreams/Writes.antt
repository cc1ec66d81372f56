-- ===== src/Storage/Upstreams/Writes.antt =====
-- internal/storage/admin_upstreams.go and postgres.go: the statements that create and change
-- upstreams and gateway keys. The triggers of the migrations change nothing that these write.
use llm_security_audit_gatew.Base.{
  ℕ, ltb, String, List, [], ◌∷◌, ◌++◌, map, Option, none, some, Bool, false, not, ◌&&◌, ◌||◌,
  str_eq, if◌then◌else◌, Bytes,
}
use llm_security_audit_gatew.Base.Result.{Result, ok, err}
use llm_security_audit_gatew.Auth.Keys.{KeyRecord}
use llm_security_audit_gatew.Storage.Upstreams.{
  UpstreamRow, Db, StorageError, validation, duplicate_upstream_name, upstream_not_found,
  upstream_deleting, upstream_disabled, database, Cipher, active, disabled_state, deleting,
  upstream_lifecycle, upstream_of, key_of, Texts, validate_upstream_url, encrypt_secret,
}

-- What an administrator asks for, the texts trimmed by the function that takes it.
pub record Draft : Type 0 where
  pub name : String
  pub base_url : String
  pub api_key : String
  pub enabled : Bool

abbrev pub trimmed : Texts → Draft → Draft
trimmed t d = record d {
  name = t.trim_space d.name;
  base_url = t.trim_slashes (t.trim_space d.base_url);
}

abbrev url_error : Option StorageError → Option StorageError
url_error none = none
url_error (some e) = some (validation "invalid upstream URL")

-- The checks that `CreateUpstream` and `UpdateUpstream` begin with.
unfoldable pub check_draft : Texts → Draft → Option StorageError
unfolding validate_upstream_url
check_draft t d =
    if str_eq d.name "" || ltb 128 (t.byte_length d.name)
    then some (validation "upstream name must be 1..128 characters")
    else url_error (validate_upstream_url t d.base_url)

-- A unique index refuses a row: its name is that of another one, or its id is taken.
abbrev pub clashes : String → String → List UpstreamRow → Bool
clashes id name [] = false
clashes id name (row ∷ rows) =
    (str_eq row.name name && not (str_eq row.id id)) || clashes id name rows

abbrev pub new_row : ℕ → String → Draft → Option Bytes → UpstreamRow
new_row now id d ciphertext = record {
  id = id;
  name = d.name;
  base_url = d.base_url;
  api_key_ciphertext = ciphertext;
  enabled = d.enabled;
  lifecycle_state = upstream_lifecycle d.enabled;
  delete_requested_at = none;
  purge_after = none;
  created_at = now;
  updated_at = now;
}

abbrev pub insert_upstream :
    Option String → UpstreamRow → Db → Option UpstreamRow → Result StorageError UpstreamRow × Db
insert_upstream (some fault) row db there = (err (database fault), db)
insert_upstream none row db (some other) = (err duplicate_upstream_name, db)
insert_upstream none row db none =
    if clashes row.id row.name db.upstreams
    then (err duplicate_upstream_name, db)
    else (ok row, record db { upstreams = db.upstreams ++ (row ∷ []) })

abbrev pub create_encrypted :
    ℕ
    → String
    → Draft
    → Option String
    → Result StorageError (Option Bytes)
    → Db
    → Result StorageError UpstreamRow × Db
create_encrypted now id d fault (err e) db = (err e, db)
create_encrypted now id d fault (ok ciphertext) db =
    insert_upstream fault (new_row now id d ciphertext) db (upstream_of id db.upstreams)

abbrev pub create_checked :
    ℕ
    → String
    → Draft
    → Option Cipher
    → Option String
    → Option StorageError
    → Db
    → Result StorageError UpstreamRow × Db
create_checked now id d key fault (some e) db = (err e, db)
create_checked now id d key fault none db =
    create_encrypted now id d fault (encrypt_secret d.api_key key) db

-- `CreateUpstream`; `id` is the one that the database draws.
unfoldable pub create_upstream :
    Texts
    → ℕ
    → String
    → Draft
    → Option Cipher
    → Option String
    → Db
    → Result StorageError UpstreamRow × Db
unfolding check_draft
create_upstream t now id d key fault db =
    let d' = trimmed t d in create_checked now id d' key fault (check_draft t d') db

-- `lifecycle_state IN ('active','disabled')`.
abbrev pub is_editable : UpstreamRow → Bool
is_editable row = str_eq row.lifecycle_state active || str_eq row.lifecycle_state disabled_state

-- The `SET` of `UpdateUpstream`; `none` keeps the stored secret.
abbrev pub update_row : ℕ → String → Draft → Option (Option Bytes) → UpstreamRow → UpstreamRow
update_row now id d ciphertext row =
    if str_eq row.id id && is_editable row
    then record row {
      name = d.name;
      base_url = d.base_url;
      api_key_ciphertext = elim ciphertext [ none ↦ row.api_key_ciphertext | some c ↦ c ];
      enabled = d.enabled;
      lifecycle_state = upstream_lifecycle d.enabled;
      updated_at = now;
    }
    else row

-- What the second query of `UpdateUpstream` says where the first found no row.
abbrev pub no_rows : Option UpstreamRow → StorageError
no_rows none = upstream_not_found
no_rows (some row) =
    if str_eq row.lifecycle_state deleting then upstream_deleting else upstream_not_found

abbrev pub update_found :
    ℕ
    → String
    → Draft
    → Option (Option Bytes)
    → Db
    → Option UpstreamRow
    → Result StorageError UpstreamRow × Db
update_found now id d ciphertext db none = (err upstream_not_found, db)
update_found now id d ciphertext db (some row) =
    if not (is_editable row)
    then (err (no_rows (some row)), db)
    else if clashes id d.name db.upstreams
    then (err duplicate_upstream_name, db)
    else (
      ok (update_row now id d ciphertext row),
      record db { upstreams = map (update_row now id d ciphertext) db.upstreams },
    )

abbrev pub update_encrypted :
    ℕ
    → String
    → Draft
    → Option String
    → Result StorageError (Option (Option Bytes))
    → Db
    → Result StorageError UpstreamRow × Db
update_encrypted now id d fault (err e) db = (err e, db)
update_encrypted now id d (some fault) (ok ciphertext) db = (err (database fault), db)
update_encrypted now id d none (ok ciphertext) db =
    update_found now id d ciphertext db (upstream_of id db.upstreams)

-- A key that is given replaces the stored one.
abbrev pub new_secret :
    Result StorageError (Option Bytes) → Result StorageError (Option (Option Bytes))
new_secret (ok c) = ok (some c)
new_secret (err e) = err e

abbrev pub update_checked :
    ℕ
    → String
    → Draft
    → Option Cipher
    → Option String
    → Option StorageError
    → Db
    → Result StorageError UpstreamRow × Db
update_checked now id d key fault (some e) db = (err e, db)
update_checked now id d key fault none db =
    update_encrypted now id d fault
      (if str_eq d.api_key "" then ok none else new_secret (encrypt_secret d.api_key key)) db

unfoldable pub update_upstream :
    Texts
    → ℕ
    → String
    → Draft
    → Option Cipher
    → Option String
    → Db
    → Result StorageError UpstreamRow × Db
unfolding check_draft
update_upstream t now id d key fault db =
    let d' = trimmed t d in update_checked now id d' key fault (check_draft t d') db

-- `CreateGatewayAPIKey`, by what the locked row of its upstream says.
abbrev pub insert_key :
    ℕ → KeyRecord → Db → Option UpstreamRow → Option KeyRecord → Result StorageError KeyRecord × Db
insert_key now key db none there = (err upstream_not_found, db)
insert_key now key db (some row) there =
    if str_eq row.lifecycle_state deleting
    then (err upstream_deleting, db)
    else if not (str_eq row.lifecycle_state active) || not row.enabled
    then (err upstream_disabled, db)
    else elim there [
      | some other ↦ (err (database "duplicate key"), db)
      | none ↦
          let key' = record key { created_at = now; revoked_at = none } in
          (ok key', record db { keys = db.keys ++ (key' ∷ []) })
    ]

unfoldable pub create_gateway_api_key :
    ℕ → KeyRecord → Option String → Db → Result StorageError KeyRecord × Db
create_gateway_api_key now key (some fault) db = (err (database fault), db)
create_gateway_api_key now key none db =
    insert_key now key db (upstream_of key.upstream_id db.upstreams) (key_of key.id db.keys)

-- `COALESCE(revoked_at,now())`.
abbrev pub coalesce : Option ℕ → ℕ → ℕ
coalesce none now = now
coalesce (some at) now = at

abbrev pub revoke_row : ℕ → String → KeyRecord → KeyRecord
revoke_row now id key =
    if str_eq key.id id then record key { revoked_at = some (coalesce key.revoked_at now) } else key

-- `RevokeGatewayAPIKey`: the tables, where the statement reaches them.
unfoldable pub revoke_gateway_api_key : ℕ → String → Db → Option KeyRecord × Db
revoke_gateway_api_key now id db =
    let keys = map (revoke_row now id) db.keys in (key_of id keys, record db { keys = keys })

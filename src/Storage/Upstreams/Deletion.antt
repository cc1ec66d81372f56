-- ===== src/Storage/Upstreams/Deletion.antt =====
-- internal/storage/admin_upstreams.go: the deletion of an upstream, its request and the sweep that
-- purges what is due. `faults` says what the statements of a transaction met.
use llm_security_audit_gatew.Base.{
  ℕ, zero, suc, ◌+◌, String, ℤ, pos, pos_part, ltb_ℤ, leb_ℤ, List, [], ◌∷◌, map, length, Option,
  none, some, Bool, true, false, not, ◌&&◌, ◌||◌, str_eq, leb, if◌then◌else◌,
}
use llm_security_audit_gatew.Base.Result.{Result, ok, err}
use llm_security_audit_gatew.Base.Tables.{where_rows, order_by}
use llm_security_audit_gatew.Auth.Keys.{KeyRecord}
use llm_security_audit_gatew.Storage.Upstreams.{
  UpstreamRow, Db, StorageError, upstream_not_found, database, deleting, upstream_of, is_none,
}

-- The end of a transaction: it commits, it fails before its `SELECT` is answered, or behind that.
pub data Ending : Type 0 where
  commits : Ending
  fails_early : String → Ending
  fails_late : String → Ending

pub record UpstreamDeletion : Type 0 where
  pub row : UpstreamRow
  pub transitioned : Bool
  pub revoked_keys : ℕ

abbrev pub deleting_row : ℕ → ℕ → UpstreamRow → UpstreamRow
deleting_row now purge_after row = record row {
  lifecycle_state = deleting;
  enabled = false;
  delete_requested_at = some now;
  purge_after = some purge_after;
  api_key_ciphertext = none;
  updated_at = now;
}

abbrev pub delete_row : ℕ → ℕ → String → UpstreamRow → UpstreamRow
delete_row now purge_after id row =
    if str_eq row.id id then deleting_row now purge_after row else row

-- `WHERE upstream_id=$1 AND revoked_at IS NULL`.
abbrev pub is_live_of : String → KeyRecord → Bool
is_live_of id key = str_eq key.upstream_id id && is_none key.revoked_at

abbrev pub revoke_of : ℕ → String → KeyRecord → KeyRecord
revoke_of now id key = if is_live_of id key then record key { revoked_at = some now } else key

abbrev pub request_found :
    ℕ → ℕ → String → Ending → Db → Option UpstreamRow → Result StorageError UpstreamDeletion × Db
request_found now grace id (fails_early fault) db row = (err (database fault), db)
request_found now grace id commits db none = (err upstream_not_found, db)
request_found now grace id (fails_late fault) db none = (err upstream_not_found, db)
request_found now grace id (fails_late fault) db (some row) = (err (database fault), db)
request_found now grace id commits db (some row) =
    if str_eq row.lifecycle_state deleting
    then (ok (record { row = row; transitioned = false; revoked_keys = 0 }), db)
    else (
      ok (record {
        row = deleting_row now (now + grace) row;
        transitioned = true;
        revoked_keys = length (where_rows (is_live_of id) db.keys);
      }),
      record {
        upstreams = map (delete_row now (now + grace) id) db.upstreams;
        keys = map (revoke_of now id) db.keys;
      },
    )

-- `RequestUpstreamDeletion`; a period of at most 0 stands for the default of 24 hours.
unfoldable pub request_upstream_deletion :
    ℕ → ℤ → String → Ending → Db → Result StorageError UpstreamDeletion × Db
unfolding upstream_of
request_upstream_deletion now grace id ending db =
    let grace' = if leb_ℤ grace (pos 0) then 86_400_000_000_000 else pos_part grace in
    request_found now grace' id ending db (upstream_of id db.upstreams)

-- `delete_requested_at IS NOT NULL AND purge_after IS NOT NULL AND purge_after >= ...`.
abbrev pub well_dated : Option ℕ → Option ℕ → Bool
well_dated none purge = false
well_dated (some requested) none = false
well_dated (some requested) (some purge) = leb requested purge

abbrev pub due_by : ℕ → Option ℕ → Bool
due_by now none = false
due_by now (some purge) = leb purge now

unfoldable pub is_due : ℕ → UpstreamRow → Bool
is_due now row =
    str_eq row.lifecycle_state deleting
    && well_dated row.delete_requested_at row.purge_after
    && due_by now row.purge_after

unfoldable pub is_malformed : UpstreamRow → Bool
is_malformed row =
    str_eq row.lifecycle_state deleting && not (well_dated row.delete_requested_at row.purge_after)

pub record Backlog : Type 0 where
  pub pending : ℕ
  pub due : ℕ
  pub malformed : ℕ

-- The counts of `GetUpstreamDeletionBacklog`.
unfoldable pub deletion_backlog : ℕ → List UpstreamRow → Backlog
unfolding is_due is_malformed
deletion_backlog now rows = record {
  pending = length (where_rows (λ (row : UpstreamRow). str_eq row.lifecycle_state deleting) rows);
  due = length (where_rows (is_due now) rows);
  malformed = length (where_rows is_malformed rows);
}

-- `ORDER BY purge_after`, of rows that have one.
abbrev pub purge_key : UpstreamRow → ℕ
purge_key row = elim row.purge_after [ none ↦ 0 | some purge ↦ purge ]

abbrev pub first_id : List UpstreamRow → Option String
first_id [] = none
first_id (row ∷ rows) = some row.id

-- The `SELECT` of a round of the sweep; `locked` tells the rows that it skips.
unfoldable pub next_due : ℕ → (String → Bool) → List UpstreamRow → Option String
unfolding is_due
next_due now locked rows = first_id (
    order_by purge_key
      (where_rows (λ (row : UpstreamRow). is_due now row && not (locked row.id)) rows))

-- `DELETE FROM gateway_api_keys WHERE upstream_id=$1 AND revoked_at IS NOT NULL` leaves these.
abbrev pub is_kept_key : String → KeyRecord → Bool
is_kept_key id key = not (str_eq key.upstream_id id) || is_none key.revoked_at

-- `DELETE FROM upstream_configs WHERE id=$1 AND lifecycle_state='deleting'` leaves these.
abbrev pub is_kept_row : String → UpstreamRow → Bool
is_kept_row id row = not (str_eq row.id id && str_eq row.lifecycle_state deleting)

-- `ON DELETE RESTRICT` of the keys' reference.
abbrev pub is_referenced : String → List KeyRecord → Bool
is_referenced id [] = false
is_referenced id (key ∷ keys) = str_eq key.upstream_id id || is_referenced id keys

abbrev pub purge : String → Db → Db
purge id db = record {
  upstreams = where_rows (is_kept_row id) db.upstreams;
  keys = where_rows (is_kept_key id) db.keys;
}

-- What the sweep did, and the error that ended it.
pub record Sweep : Type 0 where
  pub db : Db
  pub finalized : ℕ
  pub error : Option StorageError

-- The transaction of a round: the tables behind it, or why it was rolled back.
abbrev pub finalize_one : String → Ending → Db → Result StorageError Db
finalize_one id (fails_early fault) db = err (database fault)
finalize_one id (fails_late fault) db = err (database fault)
finalize_one id commits db =
    if is_referenced id (purge id db).keys
    then err (database "violates foreign key constraint")
    else ok (purge id db)

abbrev pub sweep_end : Db → ℕ → Option StorageError → Sweep
sweep_end db finalized error = record { db = db; finalized = finalized; error = error }

-- The loop of `FinalizeDueUpstreamDeletionsResult` with `room` upstreams to go up to its limit.
-- The ending of each round comes from `endings`, by the number of upstreams purged before.
abbrev pub after_purge : (Db → Sweep) → Db → ℕ → Result StorageError Db → Sweep
after_purge continue db finalized (err e) = sweep_end db finalized (some e)
after_purge continue db finalized (ok db') = continue db'

abbrev pub after_select : (Db → Sweep) → Ending → Db → ℕ → Option String → Sweep
after_select continue (fails_early fault) db finalized o =
    sweep_end db finalized (some (database fault))
after_select continue commits db finalized none = sweep_end db finalized none
after_select continue (fails_late fault) db finalized none = sweep_end db finalized none
after_select continue commits db finalized (some id) =
    after_purge continue db finalized (finalize_one id commits db)
after_select continue (fails_late fault) db finalized (some id) =
    after_purge continue db finalized (finalize_one id (fails_late fault) db)

unfoldable pub sweep : ℕ → ℕ → (String → Bool) → (ℕ → Ending) → ℕ → Db → Sweep
unfolding next_due
sweep zero now locked endings finalized db = sweep_end db finalized none
sweep (suc room) now locked endings finalized db =
    after_select (sweep room now locked endings (finalized + 1)) (endings finalized) db finalized
      (next_due now locked db.upstreams)

unfoldable pub finalize_due : ℤ → ℕ → (String → Bool) → (ℕ → Ending) → Db → Sweep
unfolding sweep
finalize_due limit now locked endings db =
    sweep (if ltb_ℤ limit (pos 1) then 100 else pos_part limit) now locked endings 0 db

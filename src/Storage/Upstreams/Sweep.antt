-- ===== src/Storage/Upstreams/Sweep.antt =====
-- internal/storage/admin_upstreams.go: the request of a deletion and the sweep keep the tables well
-- formed, and the foreign key never stops the sweep.
use llm_security_audit_gatew.Base.{
  ℕ, ◌+◌, ◌≡◌, refl, String, ℤ, List, [], ◌∷◌, map, Option, none, some, true, false, arith, All,
  str_eq, eq_iff, Bool-cases, inl, inr, leb,
}
use llm_security_audit_gatew.Base.Result.{Result, ok, err}
use llm_security_audit_gatew.Base.Tables.{where_rows, All-imp, All-map, All-and, All-where_rows}
use llm_security_audit_gatew.Auth.Keys.{KeyRecord}
use llm_security_audit_gatew.Storage.Upstreams.{
  UpstreamRow, Db, StorageError, deleting, upstream_of,
}
use llm_security_audit_gatew.Storage.Upstreams.Deletion.{
  Ending, commits, fails_early, fails_late, delete_row, is_live_of, revoke_of, request_found,
  request_upstream_deletion, is_kept_key, is_kept_row, is_referenced, purge, finalize_one,
}
use llm_security_audit_gatew.Storage.Upstreams.Rows.{
  RowOk, Holds, BoundOk, Sound, map_row, upstream_of-map, HasId, upstream_of-HasId,
  upstream_of-where_rows, Holds-imp,
}

pub delete_row-id :
    (now purge_after : ℕ) (id : String) (row : UpstreamRow)
    → (delete_row now purge_after id row).id ≡ row.id
delete_row-id now purge_after id row = elim (Bool-cases (str_eq row.id id)) [
  | inl this ↦ rw this refl
  | inr other ↦ rw other refl
]

delete_row-RowOk :
    (now grace : ℕ) (id : String) (row : UpstreamRow)
    → RowOk row
    → RowOk (delete_row now (now + grace) id row)
delete_row-RowOk now grace id row h = elim (Bool-cases (str_eq row.id id)) [
  | inl this ↦ rw this (record { enabled_iff = refl; dated = later; erased = refl })
  | inr other ↦ rw other h
]
  where
    later : leb now (now + grace) ≡ true
    later = ground arith

-- The live keys of the upstream are revoked, and the rows of all others stay.
request-BoundOk :
    (now purge_after : ℕ) (id : String) (rows : List UpstreamRow) (key : KeyRecord)
    → BoundOk rows key
    → BoundOk (map (delete_row now purge_after id) rows) (revoke_of now id key)
request-BoundOk now purge_after id rows key h = elim (Bool-cases (is_live_of id key)) [
  | inl live ↦
      rw live (
        Holds-imp (some now) (found key.upstream_id) (revoked (upstream_of key.upstream_id rows) h))
  | inr left ↦ rw left (
      Holds-imp key.revoked_at (found key.upstream_id)
        (kept left (upstream_of key.upstream_id rows) (upstream_of-HasId key.upstream_id rows) h))
]
  where
    found :
        (j : String)
        → upstream_of j (map (delete_row now purge_after id) rows)
          ≡ map_row (delete_row now purge_after id) (upstream_of j rows)
    found j =
        upstream_of-map (delete_row now purge_after id) (delete_row-id now purge_after id) j rows

    revoked :
        (o : Option UpstreamRow)
        → Holds key.revoked_at o
        → Holds (some now) (map_row (delete_row now purge_after id) o)
    revoked none h = h
    revoked (some row) h = refl

    kept :
        is_live_of id key ≡ false
        → (o : Option UpstreamRow) → HasId key.upstream_id o
        → Holds key.revoked_at o
        → Holds key.revoked_at (map_row (delete_row now purge_after id) o)
    kept left none i h = h
    kept left (some row) i h = elim (Bool-cases (str_eq row.id id)) [
      | inl this ↦ rw this (ground (arith, eq_iff row.id id, eq_iff key.upstream_id id))
      | inr other ↦ rw other h
    ]

request_found-Sound :
    (now grace : ℕ) (id : String) (ending : Ending) (db : Db) (o : Option UpstreamRow)
    → Sound db
    → Sound (request_found now grace id ending db o).1
request_found-Sound now grace id (fails_early fault) db o v = v
request_found-Sound now grace id commits db none v = v
request_found-Sound now grace id (fails_late fault) db none v = v
request_found-Sound now grace id (fails_late fault) db (some row) v = v
request_found-Sound now grace id commits db (some row) v =
    elim (Bool-cases (str_eq row.lifecycle_state deleting)) [
      | inl already ↦ rw already v
      | inr first ↦ rw first (record {
        rows_ok = All-map RowOk (delete_row now (now + grace) id) db.upstreams (
            All-imp RowOk (λ (row : UpstreamRow). RowOk (delete_row now (now + grace) id row))
              db.upstreams (delete_row-RowOk now grace id) v.rows_ok);
        keys_ok =
            All-map (BoundOk (map (delete_row now (now + grace) id) db.upstreams))
              (revoke_of now id) db.keys
              (All-imp (BoundOk db.upstreams) _ db.keys
                (request-BoundOk now (now + grace) id db.upstreams) v.keys_ok);
      })
    ]

pub request_upstream_deletion-Sound :
    (now : ℕ) (grace : ℤ) (id : String) (ending : Ending) (db : Db)
    → Sound db
    → Sound (request_upstream_deletion now grace id ending db).1
unfolding request_upstream_deletion
request_upstream_deletion-Sound now grace id ending db v =
    request_found-Sound now _ id ending db (upstream_of id db.upstreams) v

not_referenced :
    (id : String) (keys : List KeyRecord)
    → is_referenced id keys ≡ false
    → All (λ (key : KeyRecord). str_eq key.upstream_id id ≡ false) keys
not_referenced id [] h = tt
not_referenced id (key ∷ keys) h = elim (Bool-cases (str_eq key.upstream_id id)) [
  | inl this ↦ absurd (referenced (rw this at h))
  | inr other ↦ (other, not_referenced id keys (rw other at h))
]
  where
    referenced : true ≡ false → ⊥
    referenced e = cc

purge-BoundOk :
    (id : String) (rows : List UpstreamRow) (key : KeyRecord)
    → BoundOk rows key × (str_eq key.upstream_id id ≡ false)
    → BoundOk (where_rows (is_kept_row id) rows) key
purge-BoundOk id rows key (h, other) =
    Holds-imp key.revoked_at (upstream_of-where_rows (is_kept_row id) key.upstream_id kept rows) h
  where
    kept : (row : UpstreamRow) → row.id ≡ key.upstream_id → is_kept_row id row ≡ true
    kept row e = rw (e, other) refl

-- What a round of the sweep leaves behind.
abbrev pub SoundOk : Result StorageError Db → Type 0
SoundOk (err e) = Unit
SoundOk (ok db) = Sound db

pub finalize_one-Sound :
    (id : String) (ending : Ending) (db : Db) → Sound db → SoundOk (finalize_one id ending db)
finalize_one-Sound id (fails_early fault) db v = tt
finalize_one-Sound id (fails_late fault) db v = tt
finalize_one-Sound id commits db v = elim (Bool-cases (is_referenced id (purge id db).keys)) [
  | inl stopped ↦ rw stopped tt
  | inr free ↦ rw free (record {
    rows_ok = All-where_rows RowOk (is_kept_row id) db.upstreams v.rows_ok;
    keys_ok =
        All-imp _ (BoundOk (where_rows (is_kept_row id) db.upstreams)) (purge id db).keys
          (purge-BoundOk id db.upstreams)
          (All-and (BoundOk db.upstreams) (λ (key : KeyRecord). str_eq key.upstream_id id ≡ false)
            (purge id db).keys
            (All-where_rows (BoundOk db.upstreams) (is_kept_key id) db.keys v.keys_ok)
            (not_referenced id (purge id db).keys free));
  })
]

-- ===== src/Storage/Upstreams/Lifecycle.antt =====
-- internal/storage/admin_upstreams.go: each statement keeps the tables well formed.
use llm_security_audit_gatew.Base.{
  ℕ, ◌≡◌, refl, sym, ap, ◌∙◌, String, List, [], ◌∷◌, ◌++◌, map, Option, none, some, Bool, true,
  false, not, ◌&&◌, ◌||◌, All-append, str_eq, Bool-cases, inl, inr, Bytes,
}
use llm_security_audit_gatew.Base.Result.{Result, ok, err}
use llm_security_audit_gatew.Base.Tables.{All-imp, All-map}
use llm_security_audit_gatew.Auth.Keys.{KeyRecord}
use llm_security_audit_gatew.Storage.Upstreams.{
  UpstreamRow, Db, StorageError, database, Cipher, Texts, active, deleting, upstream_lifecycle,
  upstream_of, is_none, encrypt_secret,
}
use llm_security_audit_gatew.Storage.Upstreams.Writes.{
  Draft, trimmed, check_draft, clashes, new_row, insert_upstream, create_encrypted, create_checked,
  create_upstream, is_editable, update_row, update_found, update_encrypted, update_checked,
  update_upstream, insert_key, revoke_row, coalesce,
}
use llm_security_audit_gatew.Storage.Upstreams.Deletion.{well_dated}
use llm_security_audit_gatew.Storage.Upstreams.Rows.{
  RowOk, Holds, BoundOk, Sound, upstream_of-append, Holds-imp, map-keys_ok,
}

-- A row as `upstreamLifecycle` writes it.
written-RowOk :
    (b : Bool) (row : UpstreamRow)
    → row.enabled ≡ b
    → row.lifecycle_state ≡ upstream_lifecycle b
    → RowOk row
unfolding upstream_lifecycle
written-RowOk true row e f = record {
  enabled_iff = e ∙ sym (ap (λ (s : String). str_eq s active) f);
  dated =
      ap
        (λ (s : String).
          not (str_eq s deleting) || well_dated row.delete_requested_at row.purge_after)
        f;
  erased = ap (λ (s : String). not (str_eq s deleting) || is_none row.api_key_ciphertext) f;
}
written-RowOk false row e f = record {
  enabled_iff = e ∙ sym (ap (λ (s : String). str_eq s active) f);
  dated =
      ap
        (λ (s : String).
          not (str_eq s deleting) || well_dated row.delete_requested_at row.purge_after)
        f;
  erased = ap (λ (s : String). not (str_eq s deleting) || is_none row.api_key_ciphertext) f;
}

lifecycle_live : (b : Bool) → str_eq (upstream_lifecycle b) deleting ≡ false
unfolding upstream_lifecycle
lifecycle_live true = refl
lifecycle_live false = refl

BoundOk-append :
    (rows : List UpstreamRow) (new : UpstreamRow) (key : KeyRecord)
    → BoundOk rows key
    → BoundOk (rows ++ (new ∷ [])) key
BoundOk-append rows new key h = on (upstream_of key.upstream_id rows) refl h
  where
    on :
        (o : Option UpstreamRow)
        → upstream_of key.upstream_id rows ≡ o
        → Holds key.revoked_at o
        → BoundOk (rows ++ (new ∷ [])) key
    on none e h = absurd h
    on (some row) e h = Holds-imp key.revoked_at (upstream_of-append key.upstream_id rows new e) h

insert_upstream-Sound :
    (fault : Option String) (row : UpstreamRow) (db : Db) (there : Option UpstreamRow)
    → RowOk row
    → Sound db
    → Sound (insert_upstream fault row db there).1
insert_upstream-Sound (some fault) row db there r v = v
insert_upstream-Sound none row db (some other) r v = v
insert_upstream-Sound none row db none r v =
    elim (Bool-cases (clashes row.id row.name db.upstreams)) [
      | inl taken ↦ rw taken v
      | inr free ↦ rw free (record {
        rows_ok = All-append RowOk db.upstreams (row ∷ []) v.rows_ok (r, tt);
        keys_ok =
            All-imp (BoundOk db.upstreams) (BoundOk (db.upstreams ++ (row ∷ []))) db.keys
              (BoundOk-append db.upstreams row) v.keys_ok;
      })
    ]

-- A change of rows that keeps each well formed and none of the editable ones being deleted.
map_rows-Sound :
    (f : UpstreamRow → UpstreamRow)
    → ((row : UpstreamRow) → (f row).id ≡ row.id)
    → ((row : UpstreamRow)
        → str_eq row.lifecycle_state deleting ≡ false
        → str_eq (f row).lifecycle_state deleting ≡ false)
    → ((row : UpstreamRow) → RowOk row → RowOk (f row))
    → (db : Db) → Sound db
    → Sound (record db { upstreams = map f db.upstreams })
map_rows-Sound f same_id live rows_ok db v = record {
  rows_ok =
      All-map RowOk f db.upstreams
        (All-imp RowOk (λ (row : UpstreamRow). RowOk (f row)) db.upstreams rows_ok v.rows_ok);
  keys_ok =
      All-imp (BoundOk db.upstreams) (BoundOk (map f db.upstreams)) db.keys
        (map-keys_ok f same_id live db.upstreams) v.keys_ok;
}

-- A change of keys that keeps their binding and revokes at most.
pub map_keys-Sound :
    (f : KeyRecord → KeyRecord)
    → ((rows : List UpstreamRow) (key : KeyRecord) → BoundOk rows key → BoundOk rows (f key))
    → (db : Db) → Sound db
    → Sound (record db { keys = map f db.keys })
map_keys-Sound f keeps db v = record {
  rows_ok = v.rows_ok;
  keys_ok = All-map (BoundOk db.upstreams) f db.keys (
      All-imp (BoundOk db.upstreams) (λ (key : KeyRecord). BoundOk db.upstreams (f key)) db.keys
        (keeps db.upstreams) v.keys_ok);
}

pub revoked-BoundOk :
    (rows : List UpstreamRow) (key : KeyRecord) (at : ℕ)
    → BoundOk rows key
    → BoundOk rows (record key { revoked_at = some at })
revoked-BoundOk rows key at h = on (upstream_of key.upstream_id rows) h
  where
    on : (o : Option UpstreamRow) → Holds key.revoked_at o → Holds (some at) o
    on none h = h
    on (some row) h = refl

pub revoke_row-BoundOk :
    (now : ℕ) (id : String) (rows : List UpstreamRow) (key : KeyRecord)
    → BoundOk rows key
    → BoundOk rows (revoke_row now id key)
revoke_row-BoundOk now id rows key h = elim (Bool-cases (str_eq key.id id)) [
  | inl this ↦ rw this (revoked-BoundOk rows key (coalesce key.revoked_at now) h)
  | inr other ↦ rw other h
]

pub update_row-id :
    (now : ℕ) (id : String) (d : Draft) (c : Option (Option Bytes)) (row : UpstreamRow)
    → (update_row now id d c row).id ≡ row.id
update_row-id now id d c row = elim (Bool-cases (str_eq row.id id && is_editable row)) [
  | inl this ↦ rw this refl
  | inr other ↦ rw other refl
]

update_row-RowOk :
    (now : ℕ) (id : String) (d : Draft) (c : Option (Option Bytes)) (row : UpstreamRow)
    → RowOk row
    → RowOk (update_row now id d c row)
update_row-RowOk now id d c row h = elim (Bool-cases (str_eq row.id id && is_editable row)) [
  | inl this ↦ rw this (written-RowOk d.enabled _ refl refl)
  | inr other ↦ rw other h
]

update_row-live :
    (now : ℕ) (id : String) (d : Draft) (c : Option (Option Bytes)) (row : UpstreamRow)
    → str_eq row.lifecycle_state deleting ≡ false
    → str_eq (update_row now id d c row).lifecycle_state deleting ≡ false
update_row-live now id d c row h = elim (Bool-cases (str_eq row.id id && is_editable row)) [
  | inl this ↦ rw this (lifecycle_live d.enabled)
  | inr other ↦ rw other h
]

pub create_upstream-Sound :
    (t : Texts) (now : ℕ) (id : String) (d : Draft) (key : Option Cipher) (fault : Option String)
    (db : Db)
    → Sound db
    → Sound (create_upstream t now id d key fault db).1
unfolding create_upstream
create_upstream-Sound t now id d key fault db v = checked (check_draft t (trimmed t d))
  where
    encrypted :
        (r : Result StorageError (Option Bytes))
        → Sound (create_encrypted now id (trimmed t d) fault r db).1
    encrypted (err e) = v
    encrypted (ok c) =
        insert_upstream-Sound fault (new_row now id (trimmed t d) c) db
          (upstream_of id db.upstreams) (written-RowOk d.enabled _ refl refl) v

    checked :
        (o : Option StorageError) → Sound (create_checked now id (trimmed t d) key fault o db).1
    checked (some e) = v
    checked none = encrypted (encrypt_secret d.api_key key)

update_found-Sound :
    (now : ℕ) (id : String) (d : Draft) (c : Option (Option Bytes)) (db : Db)
    (o : Option UpstreamRow)
    → Sound db
    → Sound (update_found now id d c db o).1
update_found-Sound now id d c db none v = v
update_found-Sound now id d c db (some row) v = elim (Bool-cases (is_editable row)) [
  | inr terminal ↦ rw terminal v
  | inl editable ↦ elim (Bool-cases (clashes id d.name db.upstreams)) [
    | inl taken ↦ rw (editable, taken) v
    | inr free ↦
        rw (editable, free)
          (map_rows-Sound (update_row now id d c) (update_row-id now id d c)
            (update_row-live now id d c) (update_row-RowOk now id d c) db v)
  ]
]

pub update_upstream-Sound :
    (t : Texts) (now : ℕ) (id : String) (d : Draft) (key : Option Cipher) (fault : Option String)
    (db : Db)
    → Sound db
    → Sound (update_upstream t now id d key fault db).1
unfolding update_upstream
update_upstream-Sound t now id d key fault db v = checked (check_draft t (trimmed t d))
  where
    encrypted :
        (f : Option String) (r : Result StorageError (Option (Option Bytes)))
        → Sound (update_encrypted now id (trimmed t d) f r db).1
    encrypted f (err e) = v
    encrypted (some f) (ok c) = v
    encrypted none (ok c) =
        update_found-Sound now id (trimmed t d) c db (upstream_of id db.upstreams) v

    checked :
        (o : Option StorageError) → Sound (update_checked now id (trimmed t d) key fault o db).1
    checked (some e) = v
    checked none = encrypted fault _

pub insert_key-Sound :
    (now : ℕ) (key : KeyRecord) (db : Db) (o : Option UpstreamRow) (there : Option KeyRecord)
    → upstream_of key.upstream_id db.upstreams ≡ o
    → Sound db
    → Sound (insert_key now key db o there).1
insert_key-Sound now key db none there e v = v
insert_key-Sound now key db (some row) there e v =
    elim (Bool-cases (str_eq row.lifecycle_state deleting)) [
      | inl terminal ↦ rw terminal v
      | inr live ↦ elim (Bool-cases (not (str_eq row.lifecycle_state active) || not row.enabled)) [
        | inl off ↦ rw (live, off) v
        | inr on ↦ rw (live, on) (inserted live there)
      ]
    ]
  where
    inserted :
        str_eq row.lifecycle_state deleting ≡ false
        → (there : Option KeyRecord)
        → Sound
            (elim there as (λ there. Result StorageError KeyRecord × Db) [
              | some other ↦ (err (database "duplicate key"), db)
              | none ↦
                  let key' = record key { created_at = now; revoked_at = none } in
                  (ok key', record db { keys = db.keys ++ (key' ∷ []) })
            ]).1
    inserted live (some other) = v
    inserted live none = record {
      rows_ok = v.rows_ok;
      keys_ok = All-append (BoundOk db.upstreams) db.keys _ v.keys_ok (Holds-imp none e live, tt);
    }

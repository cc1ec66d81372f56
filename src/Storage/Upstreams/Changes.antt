-- ===== src/Storage/Upstreams/Changes.antt =====
-- internal/storage/admin_upstreams.go: how a transaction changes the rows of the upstreams.
use llm_security_audit_gatew.Base.{
  ℕ, ◌+◌, ◌≡◌, refl, sym, ap, ◌∙◌, subst, String, ℤ, List, [], ◌∷◌, ◌++◌, map, Option, none, some,
  true, false, not, ◌||◌, str_eq, eq_iff, Bool-cases, inl, inr, Bytes,
}
use llm_security_audit_gatew.Base.Result.{Result, ok, err}
use llm_security_audit_gatew.Base.Tables.{where_rows}
use llm_security_audit_gatew.Auth.Keys.{KeyRecord}
use llm_security_audit_gatew.Storage.Upstreams.{
  UpstreamRow, Db, StorageError, database, Cipher, Texts, active, disabled_state, deleting,
  upstream_of, key_of, encrypt_secret,
}
use llm_security_audit_gatew.Storage.Upstreams.Writes.{
  Draft, trimmed, check_draft, clashes, new_row, insert_upstream, create_encrypted, create_checked,
  create_upstream, is_editable, update_row, update_found, update_encrypted, update_checked,
  update_upstream, insert_key, create_gateway_api_key, revoke_gateway_api_key,
}
use llm_security_audit_gatew.Storage.Upstreams.Deletion.{
  Ending, commits, fails_early, fails_late, delete_row, request_found, request_upstream_deletion,
  is_kept_row, is_referenced, purge, finalize_one,
}
use llm_security_audit_gatew.Storage.Upstreams.Lifecycle.{update_row-id}
use llm_security_audit_gatew.Storage.Upstreams.Sweep.{delete_row-id}
use llm_security_audit_gatew.Storage.Upstreams.Ids.{
  Found, Unique, Unique-map, Unique-append, Unique-where_rows, DueRow, next_due-DueRow,
}
use llm_security_audit_gatew.Storage.Upstreams.Steps.{
  instant, Step, created, updated, key_created, key_revoked, requested, swept, Reach, here, next,
}

-- What a transaction does to the rows of the upstreams.
pub data Change (instant : ℕ) (rows : List UpstreamRow) : List UpstreamRow → Type 0 where
  unchanged : Change instant rows rows
  appended :
      (new : UpstreamRow)
      → upstream_of new.id rows ≡ none
      → Change instant rows (rows ++ (new ∷ []))
  mapped :
      (f : UpstreamRow → UpstreamRow)
      → ((row : UpstreamRow) → (f row).id ≡ row.id)
      → ((row : UpstreamRow) → Found rows row → row.lifecycle_state ≡ deleting → f row ≡ row)
      → Change instant rows (map f rows)
  purged :
      (id : String)
      → DueRow instant rows (some id)
      → Change instant rows (where_rows (is_kept_row id) rows)

module _ (instant : ℕ) where
  Change-Unique :
      {rows after : List UpstreamRow} → Change instant rows after → Unique rows → Unique after
  Change-Unique unchanged u = u
  Change-Unique {rows} (appended new free) u = Unique-append rows new free u
  Change-Unique {rows} (mapped f same_id fixed) u = Unique-map f same_id rows u
  Change-Unique {rows} (purged id due) u = Unique-where_rows (is_kept_row id) rows u

  insert_upstream-Change :
      (fault : Option String) (row : UpstreamRow) (db : Db) (there : Option UpstreamRow)
      → upstream_of row.id db.upstreams ≡ there
      → Change instant db.upstreams (insert_upstream fault row db there).1.upstreams
  insert_upstream-Change (some fault) row db there e = unchanged
  insert_upstream-Change none row db (some other) e = unchanged
  insert_upstream-Change none row db none e =
      elim (Bool-cases (clashes row.id row.name db.upstreams)) [
        | inl taken ↦ rw taken unchanged
        | inr free ↦ rw free (appended row e)
      ]

  create_upstream-Change :
      (t : Texts) (now : ℕ) (id : String) (d : Draft) (key : Option Cipher) (fault : Option String)
      (db : Db)
      → Change instant db.upstreams (create_upstream t now id d key fault db).1.upstreams
  unfolding create_upstream
  create_upstream-Change t now id d key fault db = checked (check_draft t (trimmed t d))
    where
      encrypted :
          (r : Result StorageError (Option Bytes))
          → Change instant db.upstreams
              (create_encrypted now id (trimmed t d) fault r db).1.upstreams
      encrypted (err e) = unchanged
      encrypted (ok c) =
          insert_upstream-Change fault (new_row now id (trimmed t d) c) db
            (upstream_of id db.upstreams) refl

      checked :
          (o : Option StorageError)
          → Change instant db.upstreams
              (create_checked now id (trimmed t d) key fault o db).1.upstreams
      checked (some e) = unchanged
      checked none = encrypted (encrypt_secret d.api_key key)

  update_row-fixed :
      (now : ℕ) (id : String) (d : Draft) (c : Option (Option Bytes)) (row : UpstreamRow)
      → row.lifecycle_state ≡ deleting
      → update_row now id d c row ≡ row
  update_row-fixed now id d c row e = elim (Bool-cases (str_eq row.id id)) [
    | inl this ↦ simp (this, not_editable) refl
    | inr other ↦ simp other refl
  ]
    where
      not_editable : is_editable row ≡ false
      not_editable = ap (λ (s : String). str_eq s active || str_eq s disabled_state) e

  update_upstream-Change :
      (t : Texts) (now : ℕ) (id : String) (d : Draft) (key : Option Cipher) (fault : Option String)
      (db : Db)
      → Change instant db.upstreams (update_upstream t now id d key fault db).1.upstreams
  unfolding update_upstream
  update_upstream-Change t now id d key fault db = checked (check_draft t (trimmed t d))
    where
      found :
          (c : Option (Option Bytes)) (o : Option UpstreamRow)
          → Change instant db.upstreams (update_found now id (trimmed t d) c db o).1.upstreams
      found c none = unchanged
      found c (some row) = elim (Bool-cases (is_editable row)) [
        | inr terminal ↦ rw terminal unchanged
        | inl editable ↦ elim (Bool-cases (clashes id (trimmed t d).name db.upstreams)) [
          | inl taken ↦ rw (editable, taken) unchanged
          | inr free ↦
              rw (editable, free)
                (mapped (update_row now id (trimmed t d) c) (update_row-id now id (trimmed t d) c)
                  (λ row h e. update_row-fixed now id (trimmed t d) c row e))
        ]
      ]

      encrypted :
          (f : Option String) (r : Result StorageError (Option (Option Bytes)))
          → Change instant db.upstreams (update_encrypted now id (trimmed t d) f r db).1.upstreams
      encrypted f (err e) = unchanged
      encrypted (some f) (ok c) = unchanged
      encrypted none (ok c) = found c (upstream_of id db.upstreams)

      checked :
          (o : Option StorageError)
          → Change instant db.upstreams
              (update_checked now id (trimmed t d) key fault o db).1.upstreams
      checked (some e) = unchanged
      checked none = encrypted fault _

  -- The row that a request found is not being deleted.
  abbrev NotDeleting : Option UpstreamRow → Type 0
  NotDeleting none = Unit
  NotDeleting (some row) = str_eq row.lifecycle_state deleting ≡ false

  true-ne-false : true ≡ false → ⊥
  true-ne-false e = cc

  delete_row-fixed :
      (now purge_after : ℕ) (id : String) (rows : List UpstreamRow) (first row : UpstreamRow)
      → upstream_of id rows ≡ some first
      → str_eq first.lifecycle_state deleting ≡ false
      → Found rows row
      → row.lifecycle_state ≡ deleting
      → delete_row now purge_after id row ≡ row
  delete_row-fixed now purge_after id rows first row found live h e =
      elim (Bool-cases (str_eq row.id id)) [
        | inl this ↦ absurd (clash (same this))
        | inr other ↦ simp other refl
      ]
    where
      same : str_eq row.id id ≡ true → some first ≡ some row
      same this =
          sym found ∙ ap (λ (k : String). upstream_of k rows) (sym ((eq_iff row.id id).0 this)) ∙ h

      clash : some first ≡ some row → ⊥
      clash eq =
          let live' = subst (λ (o : Option UpstreamRow). NotDeleting o) eq live in
          true-ne-false (sym (ap (λ (s : String). str_eq s deleting) e) ∙ live')

  request-Change :
      (now : ℕ) (grace : ℤ) (id : String) (ending : Ending) (db : Db)
      → Change instant db.upstreams (request_upstream_deletion now grace id ending db).1.upstreams
  unfolding request_upstream_deletion
  request-Change now grace id ending db = found _ ending (upstream_of id db.upstreams) refl
    where
      found :
          (grace' : ℕ) (ending : Ending) (o : Option UpstreamRow)
          → upstream_of id db.upstreams ≡ o
          → Change instant db.upstreams (request_found now grace' id ending db o).1.upstreams
      found grace' (fails_early fault) o e = unchanged
      found grace' commits none e = unchanged
      found grace' (fails_late fault) none e = unchanged
      found grace' (fails_late fault) (some row) e = unchanged
      found grace' commits (some row) e = elim (Bool-cases (str_eq row.lifecycle_state deleting)) [
        | inl already ↦ rw already unchanged
        | inr first ↦ rw first (
            mapped (delete_row now (now + grace') id) (delete_row-id now (now + grace') id)
              (λ other h d.
                delete_row-fixed now (now + grace') id db.upstreams row other e first h d))
      ]

  -- The rows behind a transaction that may have failed.
  abbrev ChangeOk : List UpstreamRow → Result StorageError Db → Type 0
  ChangeOk rows (err e) = Unit
  ChangeOk rows (ok db) = Change instant rows db.upstreams

  finalize_one-Change :
      (id : String) (ending : Ending) (db : Db)
      → DueRow instant db.upstreams (some id)
      → ChangeOk db.upstreams (finalize_one id ending db)
  finalize_one-Change id (fails_early fault) db due = tt
  finalize_one-Change id (fails_late fault) db due = tt
  finalize_one-Change id commits db due = elim (Bool-cases (is_referenced id (purge id db).keys)) [
    | inl stopped ↦ rw stopped tt
    | inr free ↦ rw free (purged id due)
  ]

  create_gateway_api_key-upstreams :
      (now : ℕ) (key : KeyRecord) (fault : Option String) (db : Db)
      → Change instant db.upstreams (create_gateway_api_key now key fault db).1.upstreams
  unfolding create_gateway_api_key
  create_gateway_api_key-upstreams now key (some fault) db = unchanged
  create_gateway_api_key-upstreams now key none db =
      on (upstream_of key.upstream_id db.upstreams) (key_of key.id db.keys)
    where
      on :
          (o : Option UpstreamRow) (there : Option KeyRecord)
          → Change instant db.upstreams (insert_key now key db o there).1.upstreams
      on none there = unchanged
      on (some row) there = elim (Bool-cases (str_eq row.lifecycle_state deleting)) [
        | inl terminal ↦ rw terminal unchanged
        | inr live ↦
            elim (Bool-cases (not (str_eq row.lifecycle_state active) || not row.enabled)) [
              | inl off ↦ rw (live, off) unchanged
              | inr up ↦ rw (live, up) (inserted there)
            ]
      ]
        where
          inserted :
              (there : Option KeyRecord)
              → Change instant db.upstreams
                  (elim there as (λ there. Result StorageError KeyRecord × Db) [
                    | some other ↦ (err (database "duplicate key"), db)
                    | none ↦
                        let key' = record key { created_at = now; revoked_at = none } in
                        (ok key', record db { keys = db.keys ++ (key' ∷ []) })
                  ]).1.upstreams
          inserted (some other) = unchanged
          inserted none = unchanged

pub Step-Change :
    {db after : Db} (s : Step db after)
    → Unique db.upstreams
    → Change (instant s) db.upstreams after.upstreams
Step-Change {db} (created t now id d key fault) u =
    create_upstream-Change now t now id d key fault db
Step-Change {db} (updated t now id d key fault) u =
    update_upstream-Change now t now id d key fault db
Step-Change {db} (key_created now key fault) u =
    create_gateway_api_key-upstreams now now key fault db
Step-Change (key_revoked now id) u = unfold revoke_gateway_api_key in unchanged
Step-Change {db} (requested now grace id ending) u = request-Change now now grace id ending db
Step-Change {db} (swept now locked id ending picked done) u =
    subst (ChangeOk now db.upstreams) done (
      finalize_one-Change now id ending db
        (subst (DueRow now db.upstreams) picked (next_due-DueRow now locked db.upstreams u)))

pub Reach-Unique : {db : Db} → Reach (record { upstreams = []; keys = [] }) db → Unique db.upstreams
Reach-Unique here = tt
Reach-Unique (next r s) =
    Change-Unique (instant s) (Step-Change s (Reach-Unique r)) (Reach-Unique r)

-- ===== src/Storage/Upstreams/Rows.antt =====
-- internal/storage/admin_upstreams.go: what holds of every upstream and every gateway key, and the
-- lemmas on looking up an upstream behind a statement.
use llm_security_audit_gatew.Base.{
  ℕ, ◌≡◌, refl, ap, ◌∙◌, String, List, [], ◌∷◌, ◌++◌, map, Option, none, some, Bool, true, false,
  not, ◌&&◌, ◌||◌, All, str_eq, eq_iff, Bool-cases, inl, inr, if◌then◌else◌,
}
use llm_security_audit_gatew.Base.Tables.{where_rows}
use llm_security_audit_gatew.Auth.Keys.{KeyRecord}
use llm_security_audit_gatew.Storage.Upstreams.{
  UpstreamRow, Db, active, deleting, upstream_of, is_none,
}
use llm_security_audit_gatew.Storage.Upstreams.Deletion.{well_dated}

-- A row is enabled exactly where it is active; one that is being deleted has its dates and no
-- secret.
pub record RowOk (row : UpstreamRow) : Type 0 where
  pub enabled_iff : row.enabled ≡ str_eq row.lifecycle_state active
  pub dated :
      (not (str_eq row.lifecycle_state deleting)
        || well_dated row.delete_requested_at row.purge_after)
      ≡ true
  pub erased : (not (str_eq row.lifecycle_state deleting) || is_none row.api_key_ciphertext) ≡ true

-- The upstream that a key is bound to is there, and a live key's is not being deleted.
abbrev pub Holds : Option ℕ → Option UpstreamRow → Type 0
Holds revoked none = ⊥
Holds revoked (some row) = (is_none revoked && str_eq row.lifecycle_state deleting) ≡ false

abbrev pub BoundOk : List UpstreamRow → KeyRecord → Type 0
BoundOk rows key = Holds key.revoked_at (upstream_of key.upstream_id rows)

pub record Sound (db : Db) : Type 0 where
  pub rows_ok : All RowOk db.upstreams
  pub keys_ok : All (BoundOk db.upstreams) db.keys

abbrev pub map_row : (UpstreamRow → UpstreamRow) → Option UpstreamRow → Option UpstreamRow
map_row f none = none
map_row f (some row) = some (f row)

pub upstream_of-map :
    (f : UpstreamRow → UpstreamRow)
    → ((row : UpstreamRow) → (f row).id ≡ row.id)
    → (id : String) (rows : List UpstreamRow)
    → upstream_of id (map f rows) ≡ map_row f (upstream_of id rows)
unfolding upstream_of
upstream_of-map f same_id id [] = refl
upstream_of-map f same_id id (row ∷ rows) =
    ap (λ (k : String). if str_eq k id then some (f row) else upstream_of id (map f rows))
      (same_id row)
    ∙ elim (Bool-cases (str_eq row.id id)) [
      | inl this ↦ rw this refl
      | inr other ↦ rw other (upstream_of-map f same_id id rows)
    ]

pub upstream_of-append :
    (id : String) (rows : List UpstreamRow) (new : UpstreamRow) {row : UpstreamRow}
    → upstream_of id rows ≡ some row
    → upstream_of id (rows ++ (new ∷ [])) ≡ some row
unfolding upstream_of
upstream_of-append id [] new h = absurd (cc)
upstream_of-append id (first ∷ rows) new h = elim (Bool-cases (str_eq first.id id)) [
  | inl this ↦ rw this (rw this at h)
  | inr other ↦ rw other (upstream_of-append id rows new (rw other at h))
]

-- The row that is found has the id.
abbrev pub HasId : String → Option UpstreamRow → Type 0
HasId id none = Unit
HasId id (some row) = row.id ≡ id

pub upstream_of-HasId : (id : String) (rows : List UpstreamRow) → HasId id (upstream_of id rows)
unfolding upstream_of
upstream_of-HasId id [] = tt
upstream_of-HasId id (row ∷ rows) = elim (Bool-cases (str_eq row.id id)) [
  | inl this ↦ rw this ((eq_iff row.id id).0 this)
  | inr other ↦ rw other (upstream_of-HasId id rows)
]

-- Where a statement deletes no row of this id, the row stays found.
pub upstream_of-where_rows :
    (keep : UpstreamRow → Bool) (id : String)
    → ((row : UpstreamRow) → row.id ≡ id → keep row ≡ true)
    → (rows : List UpstreamRow) → upstream_of id (where_rows keep rows) ≡ upstream_of id rows
unfolding upstream_of
upstream_of-where_rows keep id k [] = refl
upstream_of-where_rows keep id k (row ∷ rows) =
    let ih = upstream_of-where_rows keep id k rows in
    elim (Bool-cases (str_eq row.id id)) [
      | inl this ↦ rw (this, k row ((eq_iff row.id id).0 this), this) refl
      | inr other ↦ elim (Bool-cases (keep row)) [
        | inl kept ↦ rw (other, kept, other) ih
        | inr dropped ↦ rw (other, dropped) ih
      ]
    ]

pub Holds-imp :
    (revoked : Option ℕ) {o o' : Option UpstreamRow} → o' ≡ o → Holds revoked o → Holds revoked o'
Holds-imp revoked e h = rw e h

-- Every row that a statement changes stays well formed, and so does every key's binding.
pub map-keys_ok :
    (f : UpstreamRow → UpstreamRow)
    → ((row : UpstreamRow) → (f row).id ≡ row.id)
    → ((row : UpstreamRow)
        → str_eq row.lifecycle_state deleting ≡ false
        → str_eq (f row).lifecycle_state deleting ≡ false)
    → (rows : List UpstreamRow) (key : KeyRecord) → BoundOk rows key
    → BoundOk (map f rows) key
map-keys_ok f same_id keeps rows key h =
    Holds-imp key.revoked_at (upstream_of-map f same_id key.upstream_id rows)
      (on (upstream_of key.upstream_id rows) h)
  where
    both :
        (b : Bool) (row : UpstreamRow)
        → (b && str_eq row.lifecycle_state deleting) ≡ false
        → (b && str_eq (f row).lifecycle_state deleting) ≡ false
    both true row h = keeps row h
    both false row h = refl

    on : (o : Option UpstreamRow) → Holds key.revoked_at o → Holds key.revoked_at (map_row f o)
    on none h = h
    on (some row) h = both (is_none key.revoked_at) row h

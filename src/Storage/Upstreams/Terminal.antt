-- ===== src/Storage/Upstreams/Terminal.antt =====
-- internal/storage/admin_upstreams.go: an upstream that is being deleted stays as it is until the
-- sweep purges it.
use llm_security_audit_gatew.Base.{
  ℕ, ◌≡◌, refl, sym, ap, ap₂, ◌∙◌, ◌⊎◌, subst, String, List, [], ◌∷◌, Option, none, some, Bool,
  true, false, not, ◌&&◌, All, str_eq, eq_iff, eq_refl, Bool-cases, inl, inr,
}
use llm_security_audit_gatew.Base.Tables.{where_rows, where_rows-All}
use llm_security_audit_gatew.Storage.Upstreams.{UpstreamRow, Db, deleting, upstream_of}
use llm_security_audit_gatew.Storage.Upstreams.Deletion.{is_kept_row}
use llm_security_audit_gatew.Storage.Upstreams.Rows.{
  map_row, upstream_of-map, upstream_of-append, HasId, upstream_of-HasId,
}
use llm_security_audit_gatew.Base.{ℕ, ◌≤◌, leb→le, arith}
use llm_security_audit_gatew.Storage.Upstreams.Ids.{Found, Unique, upstream_of-kept}
use llm_security_audit_gatew.Storage.Upstreams.Steps.{instant, Step, Reach}
use llm_security_audit_gatew.Storage.Upstreams.Deletion.{is_due, due_by}
use llm_security_audit_gatew.Base.{ℕ, ◌≤◌, leb→le, arith}
use llm_security_audit_gatew.Storage.Upstreams.Changes.{
  Change, unchanged, appended, mapped, purged, Step-Change, Reach-Unique,
}

-- The date is set and reached.
abbrev pub Reached : ℕ → Option ℕ → Type 0
Reached now none = ⊥
Reached now (some purge_after) = purge_after ≤ now

due_by-Reached : (now : ℕ) (o : Option ℕ) → due_by now o ≡ true → Reached now o
due_by-Reached now none h = absurd (cc)
due_by-Reached now (some purge_after) h = leb→le purge_after now h

is_due-Reached : (now : ℕ) (row : UpstreamRow) → is_due now row ≡ true → Reached now row.purge_after
unfolding is_due
is_due-Reached now row h = due_by-Reached now row.purge_after (ground arith)

-- The row is left as it was, or its date is reached and it is gone.
abbrev pub StaysOrPurged : ℕ → String → UpstreamRow → List UpstreamRow → Type 0
StaysOrPurged now id row after =
    (upstream_of id after ≡ some row)
    ⊎ (Reached now row.purge_after × (upstream_of id after ≡ none))

-- What holds of every row holds of the one that is found.
At : (UpstreamRow → Type 0) → Option UpstreamRow → Type 0
At P none = Unit
At P (some row) = P row

upstream_of-At :
    (P : UpstreamRow → Type 0) (id : String) (rows : List UpstreamRow)
    → All P rows
    → At P (upstream_of id rows)
unfolding upstream_of At
upstream_of-At P id [] h = tt
upstream_of-At P id (row ∷ rows) (p, h) = elim (Bool-cases (str_eq row.id id)) [
  | inl this ↦ rw this p
  | inr other ↦ rw other (upstream_of-At P id rows h)
]

some-injective : {a b : UpstreamRow} → some a ≡ some b → a ≡ b
some-injective e = cc

-- The purged row is not found any more.
purged_away :
    (id : String) (rows : List UpstreamRow) (row : UpstreamRow)
    → Unique rows
    → Found rows row
    → row.id ≡ id
    → row.lifecycle_state ≡ deleting
    → upstream_of id (where_rows (is_kept_row id) rows) ≡ none
unfolding At
purged_away id rows row u h i d =
    on (upstream_of id (where_rows (is_kept_row id) rows))
      (upstream_of-HasId id (where_rows (is_kept_row id) rows))
      (upstream_of-At _ id (where_rows (is_kept_row id) rows)
        (where_rows-All (Found rows) (is_kept_row id) rows u))
  where
    dropped : is_kept_row id row ≡ false
    dropped =
        ap₂ (λ (k s : String). not (str_eq k id && str_eq s deleting)) i d
        ∙ ap (λ (b : Bool). not (b && true)) (eq_refl id)

    no_both : true ≡ false → ⊥
    no_both e = cc

    on :
        (o : Option UpstreamRow)
        → HasId id o
        → At (λ (row : UpstreamRow). Found rows row × (is_kept_row id row ≡ true)) o
        → o ≡ none
    on none j k = refl
    on (some other) j (found, kept) =
        let same =
          some-injective (sym found ∙ ap (λ (k : String). upstream_of k rows) (j ∙ sym i) ∙ h) in
        absurd (no_both (sym kept ∙ ap (is_kept_row id) same ∙ dropped))

found_id :
    (id : String) (rows : List UpstreamRow) {row : UpstreamRow}
    → upstream_of id rows ≡ some row
    → row.id ≡ id
found_id id rows h = subst (HasId id) h (upstream_of-HasId id rows)

upstream_of-Found :
    (id : String) (rows : List UpstreamRow) {row : UpstreamRow}
    → upstream_of id rows ≡ some row
    → Found rows row
upstream_of-Found id rows h = ap (λ (k : String). upstream_of k rows) (found_id id rows h) ∙ h

Change-StaysOrPurged :
    (now : ℕ) (id : String) (row : UpstreamRow) {rows after : List UpstreamRow}
    → Change now rows after
    → Unique rows
    → upstream_of id rows ≡ some row
    → row.lifecycle_state ≡ deleting
    → StaysOrPurged now id row after
Change-StaysOrPurged now id row unchanged u h d = inl h
Change-StaysOrPurged now id row {rows} (appended new free) u h d =
    inl (upstream_of-append id rows new h)
Change-StaysOrPurged now id row {rows} (mapped f same_id fixed) u h d = inl (
    upstream_of-map f same_id id rows
    ∙ ap (map_row f) h
    ∙ ap some (fixed row (upstream_of-Found id rows h) d))
Change-StaysOrPurged now id row {rows} (purged j (other, at, due)) u h d =
    elim (Bool-cases (str_eq row.id j)) [
      | inl this ↦
          let e = (eq_iff row.id j).0 this in
          let i = found_id id rows h in
          inr (
            subst (λ (r : UpstreamRow). Reached now r.purge_after)
                (some-injective (sym at ∙ ap (λ (k : String). upstream_of k rows) (sym e ∙ i) ∙ h))
                (is_due-Reached now other due),
            ap (λ (k : String). upstream_of id (where_rows (is_kept_row k) rows)) (sym e ∙ i)
                ∙ purged_away id rows row u (upstream_of-Found id rows h) i d,
          )
      | inr that ↦ inl (upstream_of-kept (is_kept_row j) id rows h (rw that refl))
    ]

-- No statement of any gateway changes the row of an upstream that is being deleted, until a round
-- of the sweep purges it, at an instant not before its `purge_after`.
pub deleting_stays :
    (id : String) (row : UpstreamRow) {db after : Db}
    → Reach (record { upstreams = []; keys = [] }) db
    → (s : Step db after) → upstream_of id db.upstreams ≡ some row
    → row.lifecycle_state ≡ deleting
    → StaysOrPurged (instant s) id row after.upstreams
deleting_stays id row r s h d =
    let u = Reach-Unique r in Change-StaysOrPurged (instant s) id row (Step-Change s u) u h d

-- ===== src/Storage/Upstreams/Ids.antt =====
-- internal/storage/admin_upstreams.go: an id has one row, and what the sweep picks is due.
use llm_security_audit_gatew.Base.{
  ℕ, ◌≡◌, refl, sym, ap, ◌∙◌, subst, String, List, [], ◌∷◌, ◌++◌, map, Option, none, some, Bool,
  true, not, ◌&&◌, arith, All, All-append, str_eq, eq_refl, Bool-cases, inl, inr,
}
use llm_security_audit_gatew.Base.Tables.{where_rows, where_rows-All, All-imp, All-map}
use llm_security_audit_gatew.Storage.Upstreams.{UpstreamRow, upstream_of}
use llm_security_audit_gatew.Storage.Upstreams.Rows.{map_row, upstream_of-map, upstream_of-append}
use llm_security_audit_gatew.Base.Tables.{All-order_by}
use llm_security_audit_gatew.Storage.Upstreams.Deletion.{is_due, next_due, first_id, purge_key}

abbrev pub Found : List UpstreamRow → UpstreamRow → Type 0
Found rows row = upstream_of row.id rows ≡ some row

abbrev pub Unique : List UpstreamRow → Type 0
Unique rows = All (Found rows) rows

pub Unique-map :
    (f : UpstreamRow → UpstreamRow)
    → ((row : UpstreamRow) → (f row).id ≡ row.id)
    → (rows : List UpstreamRow) → Unique rows
    → Unique (map f rows)
Unique-map f same_id rows u =
    All-map (Found (map f rows)) f rows
      (All-imp (Found rows) (λ (row : UpstreamRow). Found (map f rows) (f row)) rows found u)
  where
    found : (row : UpstreamRow) → Found rows row → Found (map f rows) (f row)
    found row h =
        ap (λ (id : String). upstream_of id (map f rows)) (same_id row)
        ∙ upstream_of-map f same_id row.id rows
        ∙ ap (map_row f) h

upstream_of-append_new :
    (rows : List UpstreamRow) (new : UpstreamRow)
    → upstream_of new.id rows ≡ none
    → Found (rows ++ (new ∷ [])) new
unfolding upstream_of
upstream_of-append_new [] new h = rw eq_refl refl
upstream_of-append_new (first ∷ rows) new h = elim (Bool-cases (str_eq first.id new.id)) [
  | inl this ↦ absurd (some-ne-none (rw this at h))
  | inr other ↦ rw other (upstream_of-append_new rows new (rw other at h))
]
  where
    some-ne-none : some first ≡ none → ⊥
    some-ne-none e = cc

pub Unique-append :
    (rows : List UpstreamRow) (new : UpstreamRow)
    → upstream_of new.id rows ≡ none
    → Unique rows
    → Unique (rows ++ (new ∷ []))
Unique-append rows new free u =
    All-append (Found (rows ++ (new ∷ []))) rows (new ∷ [])
      (All-imp (Found rows) (Found (rows ++ (new ∷ []))) rows
        (λ row h. upstream_of-append row.id rows new h) u)
      (upstream_of-append_new rows new free, tt)

-- A row that a statement does not delete is found as before.
pub upstream_of-kept :
    (keep : UpstreamRow → Bool) (id : String) (rows : List UpstreamRow) {row : UpstreamRow}
    → upstream_of id rows ≡ some row
    → keep row ≡ true
    → upstream_of id (where_rows keep rows) ≡ some row
unfolding upstream_of
upstream_of-kept keep id [] h k = absurd (cc)
upstream_of-kept keep id (first ∷ rows) {row} h k = elim (Bool-cases (str_eq first.id id)) [
  | inl this ↦
      rw (subst (λ (r : UpstreamRow). keep r ≡ true) (sym (same (rw this at h))) k, this)
        (rw this at h)
  | inr other ↦ elim (Bool-cases (keep first)) [
    | inl kept ↦ rw (kept, other) (upstream_of-kept keep id rows (rw other at h) k)
    | inr dropped ↦ rw dropped (upstream_of-kept keep id rows (rw other at h) k)
  ]
]
  where
    same : some first ≡ some row → first ≡ row
    same e = cc

pub Unique-where_rows :
    (keep : UpstreamRow → Bool) (rows : List UpstreamRow)
    → Unique rows
    → Unique (where_rows keep rows)
Unique-where_rows keep rows u =
    All-imp _ (Found (where_rows keep rows)) (where_rows keep rows)
      (λ (row : UpstreamRow) h. upstream_of-kept keep row.id rows h.0 h.1)
      (where_rows-All (Found rows) keep rows u)

-- The row of an id, where it is due.
abbrev pub DueRow : ℕ → List UpstreamRow → Option String → Type 0
DueRow now rows none = Unit
DueRow now rows (some id) =
    (row : UpstreamRow) × (upstream_of id rows ≡ some row) × (is_due now row ≡ true)

first_id-DueRow :
    (now : ℕ) (rows picked : List UpstreamRow)
    → All (λ (row : UpstreamRow). Found rows row × (is_due now row ≡ true)) picked
    → DueRow now rows (first_id picked)
first_id-DueRow now rows [] h = tt
first_id-DueRow now rows (row ∷ picked) h = (row, h.0.0, h.0.1)

pub next_due-DueRow :
    (now : ℕ) (locked : String → Bool) (rows : List UpstreamRow)
    → Unique rows
    → DueRow now rows (next_due now locked rows)
unfolding next_due
next_due-DueRow now locked rows u =
    let Due = λ (row : UpstreamRow). Found rows row × (is_due now row ≡ true) in
    first_id-DueRow now rows _ (
      All-order_by Due purge_key _ (
        All-imp _ Due _ (λ (row : UpstreamRow) h. (h.0, unlocked row h.1))
          (where_rows-All (Found rows)
            (λ (row : UpstreamRow). is_due now row && not (locked row.id)) rows u)))
  where
    unlocked :
        (row : UpstreamRow) → (is_due now row && not (locked row.id)) ≡ true → is_due now row ≡ true
    unlocked row h = ground arith

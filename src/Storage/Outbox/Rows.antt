-- ===== src/Storage/Outbox/Rows.antt =====
-- Rows of `audit_outbox` in internal/storage/postgres.go: each event id has one row, which keeps its
-- payload, and no row is handed out more than `MaxOutboxAttempts` times.
use llm_security_audit_gatew.Base.{
  ℕ, ◌<◌, ◌≡◌, refl, ap, ◌∙◌, String, ℤ, List, [], ◌∷◌, ◌++◌, map, Option, none, some, Bool, true,
  false, arith, Bytes, All, All-append, str_eq, eq_refl, Bool-cases, inl, inr, if◌then◌else◌,
}
use llm_security_audit_gatew.Base.Tables.{All-take, All-order_by, where_rows-All, All-map, All-imp}
use llm_security_audit_gatew.Audit.{Event, redact_evidence}
use llm_security_audit_gatew.Storage.Outbox.{
  Row, row_of, insert_row, store_events, is_candidate, ids_of, candidates,
}

-- The row that its id leads to.
abbrev pub Found : List Row → Row → Type 0
Found rows row = row_of row.event_id rows ≡ some row

abbrev pub Unique : List Row → Type 0
Unique rows = All (Found rows) rows

abbrev pub map_row : (Row → Row) → Option Row → Option Row
map_row f none = none
map_row f (some row) = some (f row)

module _ (f : Row → Row) (same_id : (row : Row) → (f row).event_id ≡ row.event_id) where
  pub row_of-map :
      (event_id : String) (rows : List Row)
      → row_of event_id (map f rows) ≡ map_row f (row_of event_id rows)
  unfolding row_of
  row_of-map event_id [] = refl
  row_of-map event_id (row ∷ rows) =
      ap
        (λ (id : String). if str_eq id event_id then some (f row) else row_of event_id (map f rows))
        (same_id row)
      ∙ elim (Bool-cases (str_eq row.event_id event_id)) [
        | inl this ↦ rw this refl
        | inr other ↦ rw other (row_of-map event_id rows)
      ]

  Found-map : (rows : List Row) (row : Row) → Found rows row → Found (map f rows) (f row)
  Found-map rows row h =
      ap (λ (id : String). row_of id (map f rows)) (same_id row)
      ∙ row_of-map row.event_id rows
      ∙ ap (map_row f) h

  pub Unique-map : (rows : List Row) → Unique rows → Unique (map f rows)
  Unique-map rows u =
      All-map (Found (map f rows)) f rows
        (All-imp (Found rows) (λ (row : Row). Found (map f rows) (f row)) rows (Found-map rows) u)

-- A row that is there is found behind an insert as well.
row_of-append :
    (event_id : String) (rows : List Row) (new : Row) {row : Row}
    → row_of event_id rows ≡ some row
    → row_of event_id (rows ++ (new ∷ [])) ≡ some row
unfolding row_of
row_of-append event_id [] new h = absurd (cc)
row_of-append event_id (first ∷ rows) new h = elim (Bool-cases (str_eq first.event_id event_id)) [
  | inl this ↦ rw this (rw this at h)
  | inr other ↦ rw other (row_of-append event_id rows new (rw other at h))
]

-- The inserted row is found, where its id is free.
row_of-append_new :
    (rows : List Row) (new : Row) → row_of new.event_id rows ≡ none → Found (rows ++ (new ∷ [])) new
unfolding row_of
row_of-append_new [] new h = rw eq_refl refl
row_of-append_new (first ∷ rows) new h = elim (Bool-cases (str_eq first.event_id new.event_id)) [
  | inl this ↦ absurd (some-ne-none (rw this at h))
  | inr other ↦ rw other (row_of-append_new rows new (rw other at h))
]
  where
    some-ne-none : some first ≡ none → ⊥
    some-ne-none e = cc

Unique-append :
    (rows : List Row) (new : Row)
    → row_of new.event_id rows ≡ none
    → Unique rows
    → Unique (rows ++ (new ∷ []))
Unique-append rows new free u =
    All-append (Found (rows ++ (new ∷ []))) rows (new ∷ [])
      (All-imp (Found rows) (Found (rows ++ (new ∷ []))) rows
        (λ row h. row_of-append row.event_id rows new h) u)
      (row_of-append_new rows new free, tt)

-- What one `StoreEvents` leaves: unique ids, and every new row neither claimed nor published.
pub insert_row-All :
    (P : Row → Type 0) (now : ℕ) (e : Event) (payload : Bytes) (rows : List Row) (o : Option Row)
    → ((row : Row) → row.attempts ≡ 0 → row.published_at ≡ none → P row)
    → row_of e.event_id rows ≡ o
    → Unique rows × All P rows
    → Unique (insert_row now e payload rows o) × All P (insert_row now e payload rows o)
insert_row-All P now e payload rows (some row) fresh free (u, h) = (u, h)
insert_row-All P now e payload rows none fresh free (u, h) =
    (Unique-append rows _ free u, All-append P rows _ h (fresh _ refl refl, tt))

pub store_events-All :
    (P : Row → Type 0) (encode : Event → Bytes) (outbox_enabled : Bool) (now : ℕ)
    (events : List Event) (rows : List Row)
    → ((row : Row) → row.attempts ≡ 0 → row.published_at ≡ none → P row)
    → Unique rows × All P rows
    → Unique (store_events encode outbox_enabled now events rows)
      × All P (store_events encode outbox_enabled now events rows)
unfolding store_events
store_events-All P encode outbox_enabled now [] rows fresh h = h
store_events-All P encode true now (event ∷ events) rows fresh h =
    let e = redact_evidence event in
    store_events-All P encode true now events
      (insert_row now e (encode e) rows (row_of e.event_id rows)) fresh
      (insert_row-All P now e (encode e) rows (row_of e.event_id rows) fresh refl h)
store_events-All P encode false now (event ∷ events) rows fresh h =
    store_events-All P encode false now events rows fresh h

-- What the row of an id says.
abbrev pub At : (Row → Type 0) → Option Row → Type 0
At P none = Unit
At P (some row) = P row

All-ids_of :
    (P : String → Type 0) (rows : List Row)
    → All (λ (row : Row). P row.event_id) rows
    → All P (ids_of rows)
All-ids_of P [] h = tt
All-ids_of P (row ∷ rows) (p, h) = (p, All-ids_of P rows h)

-- Every id that a claim picks is the id of a row below the limit of attempts.
pub candidates-All :
    (now : ℕ) (locked : String → Bool) (limit : ℤ) (rows : List Row)
    → Unique rows
    → All (λ id. At (λ row. row.attempts < 12) (row_of id rows)) (candidates now locked limit rows)
unfolding candidates is_candidate
candidates-All now locked limit rows u =
    let Below = λ (row : Row). At (λ row. row.attempts < 12) (row_of row.event_id rows) in
    All-ids_of (λ id. At (λ row. row.attempts < 12) (row_of id rows)) _
      (All-take Below _ _ (
        All-order_by Below _ _
          (All-imp _ Below _ below (where_rows-All (Found rows) (is_candidate now locked) rows u))))
  where
    below :
        (row : Row)
        → Found rows row × (is_candidate now locked row ≡ true)
        → At (λ row. row.attempts < 12) (row_of row.event_id rows)
    below row (found, due) = rw found (ground (arith, due))

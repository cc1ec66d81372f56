-- ===== src/Storage/Outbox.antt =====
-- internal/storage/postgres.go: the table `audit_outbox` and the statements on it. `now()` is an
-- argument in nanoseconds, rows that other transactions have locked are told by a test. Whether a
-- statement reaches the database is up to its callers here.
pub mod Rows
use llm_security_audit_gatew.Base.{
  ℕ, ◌+◌, ◌-◌, ◌*◌, ◌^◌, min, String, ℤ, pos, pos_part, ltb_ℤ, leb_ℤ, List, [], ◌∷◌, ◌++◌, map,
  length, take, Option, none, some, Bool, true, false, not, ◌&&◌, leb, ltb, str_eq, if◌then◌else◌,
  Bytes,
}
use llm_security_audit_gatew.Base.Tables.{member, where_rows, order_by}
use llm_security_audit_gatew.Audit.{Event, redact_evidence}

-- A row of `audit_outbox`.
pub record Row : Type 0 where
  pub event_id : String
  pub tenant_id : String
  pub payload : Bytes
  pub created_at : ℕ
  pub available_at : ℕ
  pub lease_until : Option ℕ
  pub attempts : ℕ
  pub published_at : Option ℕ
  pub last_error : Option String

pub record OutboxRecord : Type 0 where
  pub event_id : String
  pub tenant_id : String
  pub payload : Bytes
  pub attempts : ℕ
  pub created_at : ℕ

abbrev pub max_outbox_attempts : ℕ
max_outbox_attempts = 12

-- `SELECT ... WHERE event_id=`.
unfoldable pub row_of : String → List Row → Option Row
row_of event_id [] = none
row_of event_id (row ∷ rows) =
    if str_eq row.event_id event_id then some row else row_of event_id rows

-- The second statement of `StoreEvents` for one event, the event redacted and encoded before.
abbrev pub insert_row : ℕ → Event → Bytes → List Row → Option Row → List Row
insert_row now e payload rows (some row) = rows
insert_row now e payload rows none =
    rows
    ++ (record {
      event_id = e.event_id;
      tenant_id = e.tenant_id;
      payload = payload;
      created_at = now;
      available_at = now;
      lease_until = none;
      attempts = 0;
      published_at = none;
      last_error = none;
    }
        ∷ [])

-- The rows that `StoreEvents` puts into the outbox in its transaction.
unfoldable pub store_events : (Event → Bytes) → Bool → ℕ → List Event → List Row → List Row
store_events encode outbox_enabled now [] rows = rows
store_events encode outbox_enabled now (event ∷ events) rows =
    let e = redact_evidence event in
    let inserted = insert_row now e (encode e) rows (row_of e.event_id rows) in
    store_events encode outbox_enabled now events (if outbox_enabled then inserted else rows)

abbrev pub free_at : ℕ → Option ℕ → Bool
free_at now none = true
free_at now (some lease) = ltb lease now

abbrev pub unpublished : Option ℕ → Bool
unpublished none = true
unpublished (some at) = false

-- The `WHERE` of the candidates of `ClaimOutbox`, with `SKIP LOCKED`.
unfoldable pub is_candidate : ℕ → (String → Bool) → Row → Bool
is_candidate now locked row =
    unpublished row.published_at
    && ltb row.attempts max_outbox_attempts
    && leb row.available_at now
    && free_at now row.lease_until
    && not (locked row.event_id)

abbrev pub ids_of : List Row → List String
ids_of [] = []
ids_of (row ∷ rows) = row.event_id ∷ ids_of rows

unfoldable pub candidates : ℕ → (String → Bool) → ℤ → List Row → List String
candidates now locked limit rows =
    let limit' = if ltb_ℤ limit (pos 1) then 100 else pos_part limit in
    ids_of (
      take limit'
        (order_by (λ (row : Row). row.created_at) (where_rows (is_candidate now locked) rows)))

abbrev pub lease_row : ℕ → List String → Row → Row
lease_row until ids row =
    if member row.event_id ids
    then record row { lease_until = some until; attempts = row.attempts + 1 }
    else row

abbrev pub to_record : Row → OutboxRecord
to_record row = record {
  event_id = row.event_id;
  tenant_id = row.tenant_id;
  payload = row.payload;
  attempts = row.attempts;
  created_at = row.created_at;
}

-- `ClaimOutbox`: the rows leased and those it returns.
unfoldable pub claim_outbox : ℕ → (String → Bool) → ℤ → ℤ → List Row → List OutboxRecord × List Row
unfolding candidates
claim_outbox now locked limit lease rows =
    let lease' = if leb_ℤ lease (pos 0) then 30_000_000_000 else pos_part lease in
    let ids = candidates now locked limit rows in
    let leased = map (lease_row (now + lease') ids) rows in
    (map to_record (where_rows (λ (row : Row). member row.event_id ids) leased), leased)

-- `MarkOutboxPublished`.
abbrev pub mark_row : ℕ → List String → Row → Row
mark_row now ids row =
    if member row.event_id ids
    then record row { published_at = some now; lease_until = none; last_error = none }
    else row

unfoldable pub mark_outbox_published : ℕ → List String → List Row → List Row
mark_outbox_published now ids rows = map (mark_row now ids) rows

-- The delay of `RetryOutbox`.
unfoldable pub retry_delay : ℕ → ℕ
retry_delay attempts =
    let delay = 1_000_000_000 * 2 ^ min (attempts - 1) 8 in
    if ltb 300_000_000_000 delay then 300_000_000_000 else delay

abbrev pub retry_row : ℕ → String → ℕ → String → Row → Row
retry_row now event_id attempts cause row =
    if str_eq row.event_id event_id
    then record row {
      lease_until = none;
      available_at = now + retry_delay attempts;
      last_error = some cause;
    }
    else row

-- `RetryOutbox`; that `truncateError` cuts the error's text to 512 bytes is left out.
unfoldable pub retry_outbox : ℕ → String → ℕ → String → List Row → List Row
retry_outbox now event_id attempts cause rows = map (retry_row now event_id attempts cause) rows

unfoldable pub outbox_pending : List Row → ℕ
outbox_pending rows = length (where_rows (λ (row : Row). unpublished row.published_at) rows)

unfoldable pub outbox_poison : ℕ → List Row → ℕ
outbox_poison max_attempts rows =
    length (
      where_rows (λ (row : Row). unpublished row.published_at && leb max_attempts row.attempts)
        rows)

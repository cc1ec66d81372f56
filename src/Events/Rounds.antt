-- ===== src/Events/Rounds.antt =====
-- internal/events/events.go over internal/storage/postgres.go: the loop of a round of the
-- dispatcher, which publishes or retries each record.
use llm_security_audit_gatew.Base.{
  ℕ, ◌≡◌, refl, ap, ◌∙◌, String, List, [], ◌∷◌, map, Option, none, some, arith, Bytes, All, str_eq,
  Bool-cases, inl, inr,
}
use llm_security_audit_gatew.Base.Result.{Result}
use llm_security_audit_gatew.Base.Tables.{All-map, All-imp, All-and}
use llm_security_audit_gatew.Audit.{Event}
use llm_security_audit_gatew.Storage.Outbox.{Row, OutboxRecord, row_of, retry_outbox, retry_row}
use llm_security_audit_gatew.Storage.Outbox.Rows.{Found, map_row, row_of-map, Unique-map}
use llm_security_audit_gatew.Events.Dispatch.{KafkaMessage, Round, Delivery, settle, deliver_all}
use llm_security_audit_gatew.Events.Sending.{
  Sent, RowOk, Inv, Kept, SentEvent-Kept, RowOk-Kept, Published, deliver-Published,
}

-- The payload that an id stands for.
abbrev pub payload_in : Option Row → Option Bytes
payload_in none = none
payload_in (some row) = some row.payload

abbrev pub payload_of : String → List Row → Option Bytes
payload_of id rows = payload_in (row_of id rows)

payload_of-map :
    (f : Row → Row)
    → ((row : Row) → (f row).event_id ≡ row.event_id)
    → ((row : Row) → (f row).payload ≡ row.payload)
    → (id : String) (rows : List Row) → payload_of id (map f rows) ≡ payload_of id rows
payload_of-map f same_id same_payload id rows =
    ap payload_in (row_of-map f same_id id rows) ∙ on (row_of id rows)
  where
    on : (o : Option Row) → payload_in (map_row f o) ≡ payload_in o
    on none = refl
    on (some row) = ap some (same_payload row)

module _ (decode : Bytes → Result String Event) (encode : Event → Result String Bytes) where
  pub Inv-map :
      (f : Row → Row) (rows : List Row) (sent : List KafkaMessage)
      → ((row : Row) → (f row).event_id ≡ row.event_id)
      → ((row : Row)
          → Found rows row
          → RowOk decode encode sent row
          → RowOk decode encode sent (f row))
      → Inv decode encode (record { rows = rows; sent = sent })
      → Inv decode encode (record { rows = map f rows; sent = sent })
  Inv-map f rows sent same_id keep v = record {
    unique = Unique-map f same_id rows v.unique;
    rows_ok = All-map (RowOk decode encode sent) f rows (
        All-imp _ (λ (row : Row). RowOk decode encode sent (f row)) rows
          (λ (row : Row) h. keep row h.0 h.1)
          (All-and (Found rows) (RowOk decode encode sent) rows v.unique v.rows_ok));
  }

  abbrev pub ByPayload : List KafkaMessage → Option Bytes → Type 0
  ByPayload sent none = Unit
  ByPayload sent (some payload) = Sent decode encode sent payload

  ByPayload-Kept :
      (sent sent' : List KafkaMessage) (o : Option Bytes)
      → Kept decode encode sent sent'
      → ByPayload sent o
      → ByPayload sent' o
  ByPayload-Kept sent sent' none k h = tt
  ByPayload-Kept sent sent' (some payload) k h =
      SentEvent-Kept decode encode sent sent' (decode payload) k h

  -- Between two records of a round.
  pub record Loop (payloads : String → Option Bytes) (d : Delivery) (published : List String)
      : Type 0 where
    pub inv : Inv decode encode d
    pub same : (id : String) → payload_of id d.rows ≡ payloads id
    pub ids : All (λ id. ByPayload d.sent (payloads id)) published

  retry-Loop :
      (payloads : String → Option Bytes) (rows : List Row) (sent : List KafkaMessage)
      (published : List String) (now : ℕ) (id : String) (attempts : ℕ) (cause : String)
      → Loop payloads (record { rows = rows; sent = sent }) published
      → Loop payloads
          (record { rows = retry_outbox now id attempts cause rows; sent = sent })
          published
  unfolding retry_outbox
  retry-Loop payloads rows sent published now id attempts cause l = record {
    inv = Inv-map (retry_row now id attempts cause) rows sent same_id keep l.inv;
    same = λ j.
        payload_of-map (retry_row now id attempts cause) same_id same_payload j rows ∙ l.same j;
    ids = l.ids;
  }
    where
      same_id : (row : Row) → (retry_row now id attempts cause row).event_id ≡ row.event_id
      same_id row = ground arith

      same_payload : (row : Row) → (retry_row now id attempts cause row).payload ≡ row.payload
      same_payload row = ground arith

      keep :
          (row : Row)
          → Found rows row
          → RowOk decode encode sent row
          → RowOk decode encode sent (retry_row now id attempts cause row)
      keep row found h = elim (Bool-cases (str_eq row.event_id id)) [
        | inl this ↦ rw this (record { attempts_max = h.attempts_max; delivered = h.delivered })
        | inr other ↦ rw other h
      ]

  settle-Loop :
      (payloads : String → Option Bytes) (round : Round) (claimed : OutboxRecord) (rows : List Row)
      (sent : List KafkaMessage) (published : List String) (r : Option String × List KafkaMessage)
      → payloads claimed.event_id ≡ some claimed.payload
      → Published decode encode sent claimed.payload r
      → Loop payloads (record { rows = rows; sent = sent }) published
      → let (d', published') = settle decode encode round claimed r rows published in
        Loop payloads d' published'
  unfolding Published
  settle-Loop payloads round claimed rows sent published (none, sent') known (kept, done) l =
      record { inv = moved kept; same = l.same; ids = (rw known done, ids_kept kept) }
    where
      moved :
          Kept decode encode sent sent' → Inv decode encode (record { rows = rows; sent = sent' })
      moved k = record {
        unique = l.inv.unique;
        rows_ok =
            All-imp (RowOk decode encode sent) (RowOk decode encode sent') rows
              (λ (row : Row) h. RowOk-Kept decode encode row k h) l.inv.rows_ok;
      }

      ids_kept : Kept decode encode sent sent' → All (λ id. ByPayload sent' (payloads id)) published
      ids_kept k =
          All-imp (λ id. ByPayload sent (payloads id)) (λ id. ByPayload sent' (payloads id))
            published (λ (id : String) h. ByPayload-Kept sent sent' (payloads id) k h) l.ids
  settle-Loop payloads round claimed rows sent published (some cause, sent') known kept l =
      elim (Bool-cases (round.retry_reaches claimed.event_id)) [
        | inl reaches ↦ rw reaches (
            retry-Loop payloads rows sent' published round.retried_at claimed.event_id
              claimed.attempts cause moved)
        | inr lost ↦ rw lost moved
      ]
    where
      moved : Loop payloads (record { rows = rows; sent = sent' }) published
      moved = record {
        inv = record {
          unique = l.inv.unique;
          rows_ok =
              All-imp (RowOk decode encode sent) (RowOk decode encode sent') rows
                (λ (row : Row) h. RowOk-Kept decode encode row kept h) l.inv.rows_ok;
        };
        same = l.same;
        ids =
            All-imp (λ id. ByPayload sent (payloads id)) (λ id. ByPayload sent' (payloads id))
              published (λ (id : String) h. ByPayload-Kept sent sent' (payloads id) kept h) l.ids;
      }

  pub deliver_all-Loop :
      (payloads : String → Option Bytes) (round : Round) (records : List OutboxRecord)
      (d : Delivery) (published : List String)
      → All (λ (c : OutboxRecord). payloads c.event_id ≡ some c.payload) records
      → Loop payloads d published
      → let (d', published') = deliver_all decode encode round records d published in
        Loop payloads d' published'
  unfolding deliver_all
  deliver_all-Loop payloads round [] d published known l = l
  deliver_all-Loop payloads round (claimed ∷ records) d published (k, known) l =
      deliver_all-Loop payloads round records _ _ known (
        settle-Loop payloads round claimed d.rows d.sent published _ k
          (deliver-Published decode encode round.write claimed.payload d.sent) l)

-- ===== src/Events/Dispatch.antt =====
-- internal/events/events.go: `Dispatcher.dispatch` and `KafkaPublisher.Publish`, on the outbox of
-- Storage/Outbox. JSON is a parameter. What the database and Kafka answer in a round, and when, is
-- its `Round` (`claim_reaches` says whether a claim that fails still leased its rows); the gauges that end a round are left out.
use llm_security_audit_gatew.Base.{
  ℕ, String, ℤ, pos, ltb_ℤ, List, [], ◌∷◌, length, Option, none, some, Bool, if◌then◌else◌, Bytes,
}
use llm_security_audit_gatew.Base.Result.{Result, ok, err}
use llm_security_audit_gatew.Audit.{Event, redact_evidence}
use llm_security_audit_gatew.Storage.Outbox.{
  Row, OutboxRecord, claim_outbox, mark_outbox_published, retry_outbox,
}

pub record KafkaMessage : Type 0 where
  pub key : String
  pub value : Bytes
  pub event_id : String

pub record Round : Type 0 where
  pub claim_error : Option String
  pub claim_reaches : Bool
  pub claimed_at : ℕ
  pub locked : String → Bool
  pub write : KafkaMessage → Option String
  pub retried_at : ℕ
  pub retry_reaches : String → Bool
  pub marked_at : ℕ
  pub mark_reaches : Bool

-- The outbox and, newest first, the messages that Kafka took.
pub record Delivery : Type 0 where
  pub rows : List Row
  pub sent : List KafkaMessage

unfoldable pub claim_size : ℤ → ℤ
claim_size n = if ltb_ℤ n (pos 1) then pos 100 else n

-- `WriteMessages`, by its answer.
abbrev pub after_write :
    KafkaMessage → List KafkaMessage → Option String → Option String × List KafkaMessage
after_write m sent none = (none, m ∷ sent)
after_write m sent (some cause) = (some cause, sent)

module _ (decode : Bytes → Result String Event) (encode : Event → Result String Bytes) where
  abbrev pub message : Event → Bytes → KafkaMessage
  message e payload = record { key = e.tenant_id; value = payload; event_id = e.event_id }

  -- `Publish` of a configured publisher: the messages written, and the error.
  abbrev pub written :
      (KafkaMessage → Option String)
      → Event
      → Result String Bytes
      → List KafkaMessage
      → Option String × List KafkaMessage
  written write e (err cause) sent = (some cause, sent)
  written write e (ok payload) sent = let m = message e payload in after_write m sent (write m)

  unfoldable pub publish :
      (KafkaMessage → Option String) → Event → List KafkaMessage → Option String × List KafkaMessage
  publish write event sent =
      written write (redact_evidence event) (encode (redact_evidence event)) sent

  -- Decoding and publishing of one record.
  abbrev pub deliver :
      (KafkaMessage → Option String)
      → Result String Event
      → List KafkaMessage
      → Option String × List KafkaMessage
  deliver write (err cause) sent = (some cause, sent)
  deliver write (ok event) sent = publish write event sent

  -- What is left of a record: its id among the published ones, or its retry.
  abbrev pub settle :
      Round
      → OutboxRecord
      → Option String × List KafkaMessage
      → List Row
      → List String
      → Delivery × List String
  settle round claimed (none, sent) rows published =
      (record { rows = rows; sent = sent }, claimed.event_id ∷ published)
  settle round claimed (some cause, sent) rows published = (
    record {
      rows =
          if round.retry_reaches claimed.event_id
          then retry_outbox round.retried_at claimed.event_id claimed.attempts cause rows
          else rows;
      sent = sent;
    },
    published,
  )

  -- The loop of `dispatch`; the published ids stand newest first.
  unfoldable pub deliver_all :
      Round → List OutboxRecord → Delivery → List String → Delivery × List String
  unfolding publish
  deliver_all round [] d published = (d, published)
  deliver_all round (claimed ∷ records) d published =
      let (d', published') =
        settle round claimed (deliver round.write (decode claimed.payload) d.sent) d.rows
          published in
      deliver_all round records d' published'

  -- `dispatch`: the state behind it and the number of records it claimed.
  unfoldable pub dispatch_claimed : Round → ℤ → Option String → Delivery → Delivery × ℕ
  unfolding deliver_all
  dispatch_claimed round size (some error) d =
      let (records, leased) =
        claim_outbox round.claimed_at round.locked size (pos 30_000_000_000) d.rows in
      (record d { rows = if round.claim_reaches then leased else d.rows }, 0)
  dispatch_claimed round size none d =
      let (records, leased) =
        claim_outbox round.claimed_at round.locked size (pos 30_000_000_000) d.rows in
      let (d', published) = deliver_all round records (record d { rows = leased }) [] in
      (
        record d' {
          rows =
              if round.mark_reaches
              then mark_outbox_published round.marked_at published d'.rows
              else d'.rows;
        },
        length records,
      )

  unfoldable pub dispatch : Round → ℤ → Delivery → Delivery × ℕ
  unfolding dispatch_claimed
  dispatch round size d = dispatch_claimed round size round.claim_error d

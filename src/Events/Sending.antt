-- ===== src/Events/Sending.antt =====
-- internal/events/events.go over internal/storage/postgres.go: what Kafka took of the rows
-- that are marked as published.
use llm_security_audit_gatew.Base.{ℕ, ◌≤◌, ◌≡◌, refl, String, List, Option, none, some, Bytes, All}
use mathlib.Core.List.{Memᴰ}
use llm_security_audit_gatew.Base.Result.{Result, ok, err}
use llm_security_audit_gatew.Audit.{Event, redact_evidence}
use llm_security_audit_gatew.Storage.Outbox.{Row}
use llm_security_audit_gatew.Storage.Outbox.Rows.{Unique}
use llm_security_audit_gatew.Events.Dispatch.{
  KafkaMessage, Delivery, message, written, after_write, publish, deliver,
}

module _ (decode : Bytes → Result String Event) (encode : Event → Result String Bytes) where
  abbrev pub SentBytes : List KafkaMessage → Event → Result String Bytes → Type 0
  SentBytes sent e (err cause) = ⊥
  SentBytes sent e (ok payload) = Memᴰ (message decode encode e payload) sent

  abbrev pub SentEvent : List KafkaMessage → Result String Event → Type 0
  SentEvent sent (err cause) = ⊥
  SentEvent sent (ok event) =
      SentBytes sent (redact_evidence event) (encode (redact_evidence event))

  -- The message for the redacted event of this payload is among those that Kafka took.
  abbrev pub Sent : List KafkaMessage → Bytes → Type 0
  Sent sent payload = SentEvent sent (decode payload)

  abbrev pub Delivered : List KafkaMessage → Bytes → Option ℕ → Type 0
  Delivered sent payload none = Unit
  Delivered sent payload (some at) = Sent sent payload

  pub record RowOk (sent : List KafkaMessage) (row : Row) : Type 0 where
    pub attempts_max : row.attempts ≤ 12
    pub delivered : Delivered sent row.payload row.published_at

  pub record Inv (d : Delivery) : Type 0 where
    pub unique : Unique d.rows
    pub rows_ok : All (RowOk d.sent) d.rows

  -- Kafka forgets nothing.
  unfoldable pub Kept : List KafkaMessage → List KafkaMessage → Type 0
  Kept sent sent' = (m : KafkaMessage) → Memᴰ m sent → Memᴰ m sent'

  SentBytes-Kept :
      (sent sent' : List KafkaMessage) (e : Event) (r : Result String Bytes)
      → Kept sent sent'
      → SentBytes sent e r
      → SentBytes sent' e r
  unfolding Kept
  SentBytes-Kept sent sent' e (err cause) k h = h
  SentBytes-Kept sent sent' e (ok payload) k h = k _ h

  pub SentEvent-Kept :
      (sent sent' : List KafkaMessage) (r : Result String Event)
      → Kept sent sent'
      → SentEvent sent r
      → SentEvent sent' r
  SentEvent-Kept sent sent' (err cause) k h = h
  SentEvent-Kept sent sent' (ok event) k h = SentBytes-Kept sent sent' (redact_evidence event) _ k h

  pub RowOk-Kept :
      {sent sent' : List KafkaMessage} (row : Row)
      → Kept sent sent'
      → RowOk sent row
      → RowOk sent' row
  RowOk-Kept {sent} {sent'} row k h = record {
    attempts_max = h.attempts_max;
    delivered = on row.published_at h.delivered;
  }
    where
      on : (o : Option ℕ) → Delivered sent row.payload o → Delivered sent' row.payload o
      on none d = tt
      on (some at) d = SentEvent-Kept sent sent' (decode row.payload) k d

  -- What publishing a record has to do with what was sent.
  unfoldable pub Published : List KafkaMessage → Bytes → Option String × List KafkaMessage → Type 0
  Published sent payload (none, sent') = Kept sent sent' × Sent sent' payload
  Published sent payload (some cause, sent') = Kept sent sent'

  AfterWrite : List KafkaMessage → KafkaMessage → Option String × List KafkaMessage → Type 0
  AfterWrite sent m (none, sent') = Kept sent sent' × Memᴰ m sent'
  AfterWrite sent m (some cause, sent') = Kept sent sent'

  after_write-AfterWrite :
      (m : KafkaMessage) (sent : List KafkaMessage) (answer : Option String)
      → AfterWrite sent m (after_write m sent answer)
  unfolding AfterWrite Kept
  after_write-AfterWrite m sent none = (λ k h. Memᴰ.tail h, Memᴰ.head refl)
  after_write-AfterWrite m sent (some cause) = λ k h. h

  pub deliver-Published :
      (write : KafkaMessage → Option String) (payload : Bytes) (sent : List KafkaMessage)
      → Published sent payload (deliver decode encode write (decode payload) sent)
  unfolding Published AfterWrite Kept publish
  deliver-Published write payload sent = on (decode payload) refl
    where
      finish :
          (r : Option String × List KafkaMessage) (m : KafkaMessage)
          → (Memᴰ m r.1 → Sent r.1 payload)
          → AfterWrite sent m r
          → Published sent payload r
      finish (none, sent') m f h = (h.0, f h.1)
      finish (some cause, sent') m f h = h

      on_bytes :
          (event : Event) (r : Result String Bytes)
          → decode payload ≡ ok event
          → encode (redact_evidence event) ≡ r
          → Published sent payload (written decode encode write (redact_evidence event) r sent)
      on_bytes event (err cause) d e = λ k h. h
      on_bytes event (ok bytes) d e =
          finish _ (message decode encode (redact_evidence event) bytes) (λ h. rw (d, e) h)
            (after_write-AfterWrite (message decode encode (redact_evidence event) bytes) sent _)

      on :
          (r : Result String Event)
          → decode payload ≡ r
          → Published sent payload (deliver decode encode write r sent)
      on (err cause) d = λ k h. h
      on (ok event) d = on_bytes event (encode (redact_evidence event)) d refl

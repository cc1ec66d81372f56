-- ===== src/Events/AtLeastOnce.antt =====
-- internal/events/events.go over internal/storage/postgres.go: what the outbox and Kafka hold after
-- any rounds of one dispatcher between any stores.
use llm_security_audit_gatew.Base.{
  ℕ, ◌+◌, ◌≤◌, ◌∷◌, str_eq, ◌<◌, ◌≡◌, refl, sym, ap, ◌∙◌, subst, String, ℤ, pos, List, [], map,
  Option, none, some, Bool, leb_ℤ, pos_part, arith, Bytes, All, Bool-cases, inl, inr, if◌then◌else◌,
}
use llm_security_audit_gatew.Base.Result.{Result}
use llm_security_audit_gatew.Base.Tables.{member, where_rows-All, All-map, All-imp, All-member}
use llm_security_audit_gatew.Audit.{Event}
use llm_security_audit_gatew.Storage.Outbox.{
  Row, OutboxRecord, row_of, store_events, claim_outbox, candidates, mark_outbox_published,
  lease_row, mark_row, to_record,
}
use llm_security_audit_gatew.Storage.Outbox.Rows.{
  Found, Unique, store_events-All, At, candidates-All,
}
use llm_security_audit_gatew.Events.Dispatch.{
  KafkaMessage, Round, Delivery, dispatch_claimed, dispatch,
}
use llm_security_audit_gatew.Events.Claims.{
  attempts_of, claimed_once, one_if, records_of, store_events-attempts, dispatch-attempts,
}
use llm_security_audit_gatew.Events.Sending.{RowOk, Inv}
use llm_security_audit_gatew.Events.Rounds.{
  payload_in, payload_of, Inv-map, ByPayload, Loop, deliver_all-Loop,
}

module _ (decode : Bytes → Result String Event) (encode : Event → Result String Bytes) where
  payload_in-eq :
      (rows : List Row) (row : Row)
      → Found rows row
      → payload_of row.event_id rows ≡ some row.payload
  payload_in-eq rows row found = ap payload_in found

  -- Behind the claim of a round, nothing published so far.
  claimed-Loop :
      (now : ℕ) (locked : String → Bool) (limit lease : ℤ) (rows : List Row)
      (sent : List KafkaMessage)
      → Inv decode encode (record { rows = rows; sent = sent })
      → let (records, leased) = claim_outbox now locked limit lease rows in
        Loop decode encode (λ id. payload_of id leased) (record { rows = leased; sent = sent }) []
        × All (λ (c : OutboxRecord). payload_of c.event_id leased ≡ some c.payload) records
  unfolding claim_outbox
  claimed-Loop now locked limit lease rows sent v =
      let ids = candidates now locked limit rows in
      let until = now + (if leb_ℤ lease (pos 0) then 30_000_000_000 else pos_part lease) in
      let inv =
        Inv-map decode encode (lease_row until ids) rows sent (same_id until) (keep until) v in
      (
        record { inv = inv; same = λ id. refl; ids = tt },
        All-map
            (λ (c : OutboxRecord).
              payload_of c.event_id (map (lease_row until ids) rows) ≡ some c.payload)
            to_record _
            (All-imp _ _ _ (λ (row : Row) h. payload_in-eq _ row h.0)
              (where_rows-All (Found (map (lease_row until ids) rows))
                (λ (row : Row). member row.event_id ids) (map (lease_row until ids) rows)
                inv.unique)),
      )
    where
      same_id :
          (until : ℕ) (row : Row)
          → (lease_row until (candidates now locked limit rows) row).event_id ≡ row.event_id
      same_id until row =
          elim (Bool-cases (member row.event_id (candidates now locked limit rows))) [
            | inl picked ↦ rw picked refl
            | inr left ↦ rw left refl
          ]

      below :
          (row : Row)
          → Found rows row
          → At (λ row. row.attempts < 12) (row_of row.event_id rows)
          → row.attempts < 12
      below row found h = rw found at h

      keep :
          (until : ℕ) (row : Row)
          → Found rows row
          → RowOk decode encode sent row
          → RowOk decode encode sent (lease_row until (candidates now locked limit rows) row)
      keep until row found ok_row =
          elim (Bool-cases (member row.event_id (candidates now locked limit rows))) [
            | inl picked ↦ rw picked (record {
              attempts_max = omega (
                arith,
                below row found (
                    All-member (λ id. At (λ row. row.attempts < 12) (row_of id rows)) row.event_id
                      (candidates now locked limit rows)
                      (candidates-All now locked limit rows v.unique) picked),
              );
              delivered = ok_row.delivered;
            })
            | inr left ↦ rw left ok_row
          ]

  mark-Inv :
      (payloads : String → Option Bytes) (rows : List Row) (sent : List KafkaMessage)
      (published : List String) (now : ℕ)
      → Loop decode encode payloads (record { rows = rows; sent = sent }) published
      → Inv decode encode (record { rows = mark_outbox_published now published rows; sent = sent })
  unfolding mark_outbox_published
  mark-Inv payloads rows sent published now l =
      Inv-map decode encode (mark_row now published) rows sent same_id keep l.inv
    where
      same_id : (row : Row) → (mark_row now published row).event_id ≡ row.event_id
      same_id row = elim (Bool-cases (member row.event_id published)) [
        | inl picked ↦ rw picked refl
        | inr left ↦ rw left refl
      ]

      keep :
          (row : Row)
          → Found rows row
          → RowOk decode encode sent row
          → RowOk decode encode sent (mark_row now published row)
      keep row found ok_row = elim (Bool-cases (member row.event_id published)) [
        | inl picked ↦ rw picked (record {
          attempts_max = ok_row.attempts_max;
          delivered =
              subst (ByPayload decode encode sent)
                (sym (l.same row.event_id) ∙ payload_in-eq rows row found)
                (All-member (λ id. ByPayload decode encode sent (payloads id)) row.event_id
                  published l.ids picked);
        })
        | inr left ↦ rw left ok_row
      ]

  dispatch-Inv :
      (round : Round) (size : ℤ) (d : Delivery)
      → Inv decode encode d
      → Inv decode encode (dispatch decode encode round size d).0
  unfolding dispatch
  dispatch-Inv round size d v = on round.claim_error
    where
      on : (o : Option String) → Inv decode encode (dispatch_claimed decode encode round size o d).0
      on (some error) = elim (Bool-cases round.claim_reaches) [
        | inl reaches ↦
            rw reaches
              (claimed-Loop round.claimed_at round.locked size (pos 30_000_000_000) d.rows d.sent
                v).0.inv
        | inr lost ↦ rw lost v
      ]
      on none =
          let (l, known) =
            claimed-Loop round.claimed_at round.locked size (pos 30_000_000_000) d.rows d.sent v in
          let l' = deliver_all-Loop decode encode _ round _ _ [] known l in
          elim (Bool-cases round.mark_reaches) [
            | inl reaches ↦ rw reaches (mark-Inv _ _ _ _ round.marked_at l')
            | inr lost ↦ rw lost l'.inv
          ]

  -- Stores of the pipeline and rounds of the dispatcher, one behind the other.
  pub data Step (size : ℤ) (d : Delivery) : Delivery → Type 0 where
    stored :
        (to_bytes : Event → Bytes) (enabled : Bool) (now : ℕ) (events : List Event)
        → Step size d (record d { rows = store_events to_bytes enabled now events d.rows })
    dispatched : (round : Round) → Step size d (dispatch decode encode round size d).0

  pub data Reach (size : ℤ) (s : Delivery) : Delivery → Type 0 where
    here : Reach size s s
    next : {d e : Delivery} → Reach size s d → Step size d e → Reach size s e

  Step-Inv : {size : ℤ} {d e : Delivery} → Step size d e → Inv decode encode d → Inv decode encode e
  Step-Inv {d = d} (stored to_bytes enabled now events) v =
      let all =
        store_events-All (RowOk decode encode d.sent) to_bytes enabled now events d.rows fresh
          (v.unique, v.rows_ok) in
      record { unique = all.0; rows_ok = all.1 }
    where
      fresh :
          (row : Row) → row.attempts ≡ 0 → row.published_at ≡ none → RowOk decode encode d.sent row
      fresh row unclaimed unmarked = record {
        attempts_max = omega arith;
        delivered = rw unmarked tt;
      }
  Step-Inv {size} {d} (dispatched round) v = dispatch-Inv round size d v

  -- In how many rounds of a history the dispatcher was handed the row of this id.
  abbrev pub handed : {size : ℤ} {s d : Delivery} → String → Reach size s d → ℕ
  handed id here = 0
  handed id (next r (stored to_bytes enabled now events)) = handed id r
  handed {size} id (next {d = d} r (dispatched round)) =
      one_if (claimed_once id (records_of round size round.claim_error d.rows)) + handed id r

  handed-attempts :
      (size : ℤ) (id : String) {d : Delivery}
      → (r : Reach size (record { rows = []; sent = [] }) d) → handed id r ≤ attempts_of id d.rows
  handed-attempts size id here = unfold row_of in omega arith
  handed-attempts size id (next {d = d} r (stored to_bytes enabled now events)) = omega (
    arith,
    handed-attempts size id r,
    store_events-attempts id to_bytes enabled now events d.rows,
  )
  handed-attempts size id (next {d = d} r (dispatched round)) =
      omega (arith, handed-attempts size id r, dispatch-attempts decode encode id round size d)

  attempts_of-bound :
      (id : String) (sent : List KafkaMessage) (rows : List Row)
      → All (RowOk decode encode sent) rows
      → attempts_of id rows ≤ 12
  unfolding row_of
  attempts_of-bound id sent [] h = omega arith
  attempts_of-bound id sent (row ∷ rows) h = elim (Bool-cases (str_eq row.event_id id)) [
    | inl this ↦ rw this h.0.attempts_max
    | inr other ↦ rw other (attempts_of-bound id sent rows h.1)
  ]

  -- Whatever the database and Kafka answer, in every history of stores and rounds from an empty
  -- outbox on: an event id has one row, the dispatcher was handed it in at most 12 rounds, and a row
  -- is marked as published only if its payload decodes and Kafka took the message of the redacted
  -- event.
  pub delivers_before_marking :
      (size : ℤ) (d : Delivery)
      → (r : Reach size (record { rows = []; sent = [] }) d)
      → Unique d.rows × All (RowOk decode encode d.sent) d.rows × ((id : String) → handed id r ≤ 12)
  delivers_before_marking size d r = let v = inv r in (v.unique, v.rows_ok, λ id. bounded id v)
    where
      inv : {e : Delivery} → Reach size (record { rows = []; sent = [] }) e → Inv decode encode e
      inv here = record { unique = tt; rows_ok = tt }
      inv (next r s) = Step-Inv s (inv r)

      bounded : (id : String) → Inv decode encode d → handed id r ≤ 12
      bounded id v =
          omega (arith, handed-attempts size id r, attempts_of-bound id d.sent d.rows v.rows_ok)

-- ===== src/Events/Claims.antt =====
-- internal/events/events.go over internal/storage/postgres.go: how often a row is handed to the
-- dispatcher, against its column `attempts`.
use llm_security_audit_gatew.Base.{
  ℕ, ◌+◌, ◌≤◌, ◌≡◌, refl, subst, ◌∙◌, String, ℤ, pos, List, [], ◌∷◌, ◌++◌, map, Option, none, some,
  Bool, true, false, ◌||◌, str_eq, eq_iff, leb_ℤ, pos_part, arith, Bytes, Bool-cases, inl, inr,
  if◌then◌else◌,
}
use llm_security_audit_gatew.Base.Result.{Result}
use llm_security_audit_gatew.Base.Tables.{member, where_rows}
use llm_security_audit_gatew.Audit.{Event, redact_evidence}
use llm_security_audit_gatew.Storage.Outbox.{
  Row, OutboxRecord, row_of, insert_row, store_events, claim_outbox, candidates,
  mark_outbox_published, mark_row, lease_row, to_record, retry_outbox, retry_row,
}
use llm_security_audit_gatew.Events.Dispatch.{
  KafkaMessage, Round, Delivery, settle, deliver, deliver_all, dispatch_claimed, dispatch,
}

abbrev attempts_in : Option Row → ℕ
attempts_in none = 0
attempts_in (some row) = row.attempts

abbrev pub attempts_of : String → List Row → ℕ
attempts_of id rows = attempts_in (row_of id rows)

-- Whether a claim returned a record of this id.
abbrev pub claimed_once : String → List OutboxRecord → Bool
claimed_once id [] = false
claimed_once id (claimed ∷ records) = str_eq claimed.event_id id || claimed_once id records

abbrev pub one_if : Bool → ℕ
one_if true = 1
one_if false = 0

attempts_of-map :
    (f : Row → Row)
    → ((row : Row) → (f row).event_id ≡ row.event_id)
    → ((row : Row) → (f row).attempts ≡ row.attempts)
    → (id : String) (rows : List Row) → attempts_of id (map f rows) ≡ attempts_of id rows
unfolding row_of
attempts_of-map f same_id same id [] = refl
attempts_of-map f same_id same id (row ∷ rows) = elim (Bool-cases (str_eq row.event_id id)) [
  | inl this ↦ rw (same_id row, this) (same row)
  | inr other ↦ rw (same_id row, other) (attempts_of-map f same_id same id rows)
]

attempts_of-append :
    (id : String) (rows : List Row) (new : Row)
    → new.attempts ≡ 0
    → attempts_of id (rows ++ (new ∷ [])) ≡ attempts_of id rows
unfolding row_of
attempts_of-append id [] new zero_new = ground arith
attempts_of-append id (row ∷ rows) new zero_new =
    ground (arith, attempts_of-append id rows new zero_new)

insert_row-attempts :
    (id : String) (now : ℕ) (e : Event) (payload : Bytes) (rows : List Row) (found : Option Row)
    → attempts_of id (insert_row now e payload rows found) ≡ attempts_of id rows
insert_row-attempts id now e payload rows (some row) = refl
insert_row-attempts id now e payload rows none = attempts_of-append id rows _ refl

pub store_events-attempts :
    (id : String) (to_bytes : Event → Bytes) (enabled : Bool) (now : ℕ) (events : List Event)
    (rows : List Row)
    → attempts_of id (store_events to_bytes enabled now events rows) ≡ attempts_of id rows
unfolding store_events
store_events-attempts id to_bytes enabled now [] rows = refl
store_events-attempts id to_bytes true now (event ∷ events) rows =
    store_events-attempts id to_bytes true now events _
    ∙ insert_row-attempts id now (redact_evidence event) (to_bytes (redact_evidence event)) rows
        (row_of (redact_evidence event).event_id rows)
store_events-attempts id to_bytes false now (event ∷ events) rows =
    store_events-attempts id to_bytes false now events rows

module _ (until : ℕ) (ids : List String) where
  abbrev returned : List Row → List OutboxRecord
  returned rows =
      map to_record
        (where_rows (λ (row : Row). member row.event_id ids) (map (lease_row until ids) rows))

  lease_row-id : (row : Row) → (lease_row until ids row).event_id ≡ row.event_id
  lease_row-id row = ground arith

  lease_row-attempts :
      (row : Row)
      → (lease_row until ids row).attempts ≡ row.attempts + one_if (member row.event_id ids)
  lease_row-attempts row = elim (Bool-cases (member row.event_id ids)) [
    | inl picked ↦ rw picked refl
    | inr other ↦ rw other (omega arith)
  ]

  absent :
      (id : String) (rows : List Row)
      → member id ids ≡ false
      → claimed_once id (returned rows) ≡ false
  absent id [] h = refl
  absent id (row ∷ rows) h = elim (Bool-cases (member row.event_id ids)) [
    | inl picked ↦
        rw (picked, picked)
          (ground (arith, eq_iff row.event_id id, absent id rows h, differs picked))
    | inr other ↦ rw (other, other) (absent id rows h)
  ]
    where
      clash : {b : Bool} → b ≡ true → b ≡ false → ⊥
      clash h k = cc

      differs : member row.event_id ids ≡ true → str_eq row.event_id id ≡ false
      differs picked = elim (Bool-cases (str_eq row.event_id id)) [
        | inl same ↦
            absurd
              (clash (subst (λ x. member x ids ≡ true) ((eq_iff row.event_id id).0 same) picked) h)
        | inr other ↦ other
      ]

  -- A lease raises the attempts of a row that the claim returns.
  pub lease-attempts :
      (id : String) (rows : List Row)
      → one_if (claimed_once id (returned rows)) + attempts_of id rows
        ≤ attempts_of id (map (lease_row until ids) rows)
  unfolding row_of
  lease-attempts id [] = omega arith
  lease-attempts id (row ∷ rows) = elim (Bool-cases (member row.event_id ids)) [
    | inl picked ↦
        rw (picked, picked)
          (elim (Bool-cases (str_eq row.event_id id)) [
            | inl this ↦ rw this (omega arith)
            | inr other ↦ rw other (lease-attempts id rows)
          ])
    | inr left ↦
        rw (left, left)
          (elim (Bool-cases (str_eq row.event_id id)) [
            | inl this ↦
                rw
                  (
                    this,
                    absent id rows
                        (subst (λ x. member x ids ≡ false) ((eq_iff row.event_id id).0 this) left),
                  )
                  (omega arith)
            | inr other ↦ rw other (lease-attempts id rows)
          ])
  ]

-- What a round hands to the dispatcher.
abbrev pub records_of : Round → ℤ → Option String → List Row → List OutboxRecord
records_of round size (some error) rows = []
records_of round size none rows =
    (claim_outbox round.claimed_at round.locked size (pos 30_000_000_000) rows).0

claim-attempts :
    (id : String) (now : ℕ) (locked : String → Bool) (limit lease : ℤ) (rows : List Row)
    → let (records, leased) = claim_outbox now locked limit lease rows in
      one_if (claimed_once id records) + attempts_of id rows ≤ attempts_of id leased
unfolding claim_outbox
claim-attempts id now locked limit lease rows =
    lease-attempts (now + (if leb_ℤ lease (pos 0) then 30_000_000_000 else pos_part lease))
      (candidates now locked limit rows) id rows

module _ (decode : Bytes → Result String Event) (encode : Event → Result String Bytes) where
  settle-attempts :
      (id : String) (round : Round) (claimed : OutboxRecord)
      (answer : Option String × List KafkaMessage) (rows : List Row) (published : List String)
      → attempts_of id (settle decode encode round claimed answer rows published).0.rows
        ≡ attempts_of id rows
  settle-attempts id round claimed (none, sent) rows published = refl
  settle-attempts id round claimed (some cause, sent) rows published =
      elim (Bool-cases (round.retry_reaches claimed.event_id)) [
        | inl reaches ↦ rw reaches (
            unfold retry_outbox in
            attempts_of-map (retry_row round.retried_at claimed.event_id claimed.attempts cause)
              (λ row. ground arith) (λ row. ground arith) id rows)
        | inr lost ↦ rw lost refl
      ]

  deliver_all-attempts :
      (id : String) (round : Round) (records : List OutboxRecord) (d : Delivery)
      (published : List String)
      → attempts_of id (deliver_all decode encode round records d published).0.rows
        ≡ attempts_of id d.rows
  unfolding deliver_all
  deliver_all-attempts id round [] d published = refl
  deliver_all-attempts id round (claimed ∷ records) d published =
      deliver_all-attempts id round records _ _
      ∙ settle-attempts id round claimed
          (deliver decode encode round.write (decode claimed.payload) d.sent) d.rows published

  mark-attempts :
      (id : String) (now : ℕ) (published : List String) (rows : List Row)
      → attempts_of id (mark_outbox_published now published rows) ≡ attempts_of id rows
  unfolding mark_outbox_published
  mark-attempts id now published rows =
      attempts_of-map (mark_row now published) (λ row. ground arith) (λ row. ground arith) id rows

  -- A round raises the attempts of a row by one at least where it hands the row out, and never
  -- lowers them.
  pub dispatch-attempts :
      (id : String) (round : Round) (size : ℤ) (d : Delivery)
      → one_if (claimed_once id (records_of round size round.claim_error d.rows))
          + attempts_of id d.rows
        ≤ attempts_of id (dispatch decode encode round size d).0.rows
  unfolding dispatch
  dispatch-attempts id round size d = on round.claim_error
    where
      claimed :
          let (records, leased) =
            claim_outbox round.claimed_at round.locked size (pos 30_000_000_000) d.rows in
          one_if (claimed_once id records) + attempts_of id d.rows ≤ attempts_of id leased
      claimed = claim-attempts id round.claimed_at round.locked size (pos 30_000_000_000) d.rows

      on :
          (o : Option String)
          → one_if (claimed_once id (records_of round size o d.rows)) + attempts_of id d.rows
            ≤ attempts_of id (dispatch_claimed decode encode round size o d).0.rows
      on (some error) = elim (Bool-cases round.claim_reaches) [
        | inl reaches ↦ rw reaches (omega (arith, claimed))
        | inr lost ↦ rw lost (omega arith)
      ]
      on none = elim (Bool-cases round.mark_reaches) [
        | inl reaches ↦ rw reaches (
            rw (mark-attempts id round.marked_at _ _, deliver_all-attempts id round _ _ []) claimed)
        | inr lost ↦ rw lost (rw (deliver_all-attempts id round _ _ []) claimed)
      ]

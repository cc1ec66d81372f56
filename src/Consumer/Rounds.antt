-- ===== src/Consumer/Rounds.antt =====
-- internal/consumer/consumer.go: one round of the loop of `Run`, from a fetched message to the
-- commit of its batch, `insertWithRetry` and `publishDLQWithRetry`. What Kafka, ClickHouse and the
-- context answer is a script; a script that ends leaves the retry loop waiting.
use llm_security_audit_gatew.Base.{
  ℕ, zero, suc, String, List, [], ◌∷◌, Option, none, some, Bool, true, false, Bytes,
}
use llm_security_audit_gatew.Base.Result.{Result, ok, err}
use llm_security_audit_gatew.Audit.{Event}

pub record Message : Type 0 where
  pub topic : String
  pub offset : ℕ
  pub value : Bytes

-- One attempt of `InsertEvents`: whether the context is done behind a failure, and whether it ends
-- the wait before the next attempt.
pub data InsertAttempt : Type 0 where
  inserted : InsertAttempt
  insert_failed : Bool → Bool → InsertAttempt

pub data InsertEnd : Type 0 where
  stored : InsertEnd
  quiet : InsertEnd
  insert_error : InsertEnd
  inserting : InsertEnd

-- `insertWithRetry`, with the attempts left behind this one; `maxInsertAttempts` is 10.
unfoldable pub insert_with_retry : ℕ → List InsertAttempt → InsertEnd
insert_with_retry left [] = inserting
insert_with_retry left (inserted ∷ attempts) = stored
insert_with_retry left (insert_failed true cut ∷ attempts) = quiet
insert_with_retry zero (insert_failed false cut ∷ attempts) = insert_error
insert_with_retry (suc left) (insert_failed false true ∷ attempts) = insert_error
insert_with_retry (suc left) (insert_failed false false ∷ attempts) =
    insert_with_retry left attempts

-- One attempt of `publishDLQ`; a failure says whether the context ends the wait behind it.
pub data PublishAttempt : Type 0 where
  published : PublishAttempt
  publish_failed : Bool → PublishAttempt

pub data PublishEnd : Type 0 where
  dead_lettered : PublishEnd
  publish_error : PublishEnd
  publishing : PublishEnd

unfoldable pub publish_with_retry : List PublishAttempt → PublishEnd
publish_with_retry [] = publishing
publish_with_retry (published ∷ attempts) = dead_lettered
publish_with_retry (publish_failed true ∷ attempts) = publish_error
publish_with_retry (publish_failed false ∷ attempts) = publish_with_retry attempts

-- What one round meets: the messages that `FetchMessage` gives, the first without and the others
-- within the deadline of the batch, the attempts, and whether the commit succeeds.
pub record Script : Type 0 where
  pub first : Message
  pub more : List Message
  pub inserts : List InsertAttempt
  pub publishes : List PublishAttempt
  pub commits : Bool

pub record Batch : Type 0 where
  pub messages : List Message
  pub events : List Event
  pub invalid_reason : Option String

-- Whether `Run` goes on behind the round.
pub data Ending : Type 0 where
  again : Ending
  returned : Ending
  waiting : Ending

-- What a round left behind: the events inserted, the messages dead-lettered and those committed.
pub record Delivered : Type 0 where
  pub stored : List Event
  pub dead : List (Message × String)
  pub committed : List Message
  pub ending : Ending

module _ (decode : Bytes → Result String Event) (validate : Event → Option String) where
  abbrev pub validated : Event → Option String → Result String Event
  validated e none = ok e
  validated e (some reason) = err reason

  abbrev pub decoded : Result String Event → Result String Event
  decoded (err reason) = err reason
  decoded (ok e) = validated e (validate e)

  abbrev pub check : Message → Result String Event
  check m = decoded (decode m.value)

  abbrev pub add : Message → Result String Event → Batch → Batch
  add m (err reason) rest = record { messages = m ∷ []; events = []; invalid_reason = some reason }
  add m (ok e) rest = record rest { messages = m ∷ rest.messages; events = e ∷ rest.events }

  -- The batch: up to `room` messages, ended by the first invalid one.
  unfoldable pub collect : ℕ → List Message → Batch
  collect zero ms = record { messages = []; events = []; invalid_reason = none }
  collect (suc room) [] = record { messages = []; events = []; invalid_reason = none }
  collect (suc room) (m ∷ ms) = add m (check m) (collect room ms)

  abbrev pub last : Message → List Message → Message
  last m [] = m
  last m (n ∷ ns) = last n ns

  abbrev pub commit : Bool → List Message → List Event → List (Message × String) → Delivered
  commit true messages events dead = record {
    stored = events;
    dead = dead;
    committed = messages;
    ending = again;
  }
  commit false messages events dead = record {
    stored = events;
    dead = dead;
    committed = [];
    ending = again;
  }

  abbrev pub on_publish : Script → Batch → String → List Event → PublishEnd → Delivered
  on_publish s b reason events dead_lettered =
      commit s.commits b.messages events ((last s.first b.messages, reason) ∷ [])
  on_publish s b reason events publish_error = record {
    stored = events;
    dead = [];
    committed = [];
    ending = returned;
  }
  on_publish s b reason events publishing = record {
    stored = events;
    dead = [];
    committed = [];
    ending = waiting;
  }

  abbrev pub on_invalid : Script → Batch → Option String → List Event → Delivered
  on_invalid s b none events = commit s.commits b.messages events []
  on_invalid s b (some reason) events =
      on_publish s b reason events (publish_with_retry s.publishes)

  abbrev pub on_insert : Script → Batch → InsertEnd → Delivered
  on_insert s b stored = on_invalid s b b.invalid_reason b.events
  on_insert s b quiet = on_invalid s b b.invalid_reason []
  on_insert s b insert_error = record { stored = []; dead = []; committed = []; ending = returned }
  on_insert s b inserting = record { stored = []; dead = []; committed = []; ending = waiting }

  -- `if len(events) > 0`.
  abbrev pub on_events : Script → Batch → List Event → Delivered
  on_events s b [] = on_invalid s b b.invalid_reason []
  on_events s b (e ∷ es) = on_insert s b (insert_with_retry 9 s.inserts)

  unfoldable pub round : Script → Delivered
  unfolding collect insert_with_retry publish_with_retry
  round s = let b = collect 100 (s.first ∷ s.more) in on_events s b b.events

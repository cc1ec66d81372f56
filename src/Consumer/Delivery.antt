-- ===== src/Consumer/Delivery.antt =====
-- What a round of internal/consumer/consumer.go commits.
use llm_security_audit_gatew.Base.{
  ◌≤◌, length, arith, ℕ, zero, suc, String, List, [], ◌∷◌, ◌++◌, map, Option, none, some, Bool,
  true, false, ◌≡◌, ◌⊎◌, refl, ap, subst, ◌∙◌, inl, inr, Bytes,
}
use llm_security_audit_gatew.Base.Result.{Result, ok, err}
use llm_security_audit_gatew.Audit.{Event}
use llm_security_audit_gatew.Consumer.Rounds.{
  Message, InsertAttempt, inserted, insert_failed, InsertEnd, stored, quiet, insert_error,
  inserting, insert_with_retry, PublishAttempt, published, publish_failed, PublishEnd,
  dead_lettered, publish_error, publishing, publish_with_retry, Script, Batch, Delivered, again,
  check, add, collect, last, commit, on_publish, on_invalid, on_insert, on_events, round,
}

-- The context was not done behind a failed insert.
abbrev pub Uncanceled : List InsertAttempt → Type 0
Uncanceled [] = Unit
Uncanceled (inserted ∷ attempts) = Unit
Uncanceled (insert_failed done cut ∷ attempts) = (done ≡ false) × Uncanceled attempts

module _ (decode : Bytes → Result String Event) (validate : Event → Option String) where
  -- The invalid message of a batch.
  abbrev pub Tail : Message → Batch → List Message → Option String → Type 0
  Tail d b tail none = tail ≡ []
  Tail d b tail (some reason) = tail ≡ last decode validate d b.messages ∷ []

  -- The messages of a batch are valid ones, whose events stand in the batch, and at most one more.
  record Split (b : Batch) : Type 0 where
    valid : List Message
    tail : List Message
    messages : b.messages ≡ valid ++ tail
    checked : map (check decode validate) valid ≡ map ok b.events
    invalid : (d : Message) → Tail d b tail b.invalid_reason

  empty-Split : Split (record { messages = []; events = []; invalid_reason = none })
  empty-Split = record {
    valid = [];
    tail = [];
    messages = refl;
    checked = refl;
    invalid = λ d. refl;
  }

  add-Tail :
      (m d : Message) (e : Event) (b : Batch) (tail : List Message) (o : Option String)
      → Tail m b tail o
      → Tail d (add decode validate m (ok e) b) tail o
  add-Tail m d e b tail none h = h
  add-Tail m d e b tail (some reason) h = h

  add-Split :
      (m : Message) (r : Result String Event) (b : Batch)
      → check decode validate m ≡ r
      → Split b
      → Split (add decode validate m r b)
  add-Split m (err reason) b c s = record {
    valid = [];
    tail = m ∷ [];
    messages = refl;
    checked = refl;
    invalid = λ d. refl;
  }
  add-Split m (ok e) b c s = record {
    valid = m ∷ s.valid;
    tail = s.tail;
    messages = ap (λ x. m ∷ x) s.messages;
    checked = rw (c, s.checked) refl;
    invalid = λ d. add-Tail m d e b s.tail b.invalid_reason (s.invalid m);
  }

  collect-Split : (room : ℕ) (ms : List Message) → Split (collect decode validate room ms)
  unfolding collect
  collect-Split zero ms = empty-Split
  collect-Split (suc room) [] = empty-Split
  collect-Split (suc room) (m ∷ ms) = add-Split m _ _ refl (collect-Split room ms)

  -- What was committed was delivered: valid messages, whose events were inserted, one for each and
  -- in their order, and the messages dead-lettered.
  pub record Exact (r : Delivered) : Type 0 where
    pub valid : List Message
    pub splits : r.committed ≡ valid ++ map (λ entry. entry.0) r.dead
    pub inserts : map (check decode validate) valid ≡ map ok r.stored

  abbrev pub Delivers : Delivered → Type 0
  Delivers r = (r.committed ≡ []) ⊎ Exact r

  commit-Delivers :
      (succeeds : Bool) (b : Batch) (dead : List (Message × String)) (s : Split b)
      → s.tail ≡ map (λ entry. entry.0) dead
      → Delivers (commit decode validate succeeds b.messages b.events dead)
  commit-Delivers true b dead s e = inr (record {
    valid = s.valid;
    splits = s.messages ∙ ap (λ x. s.valid ++ x) e;
    inserts = s.checked;
  })
  commit-Delivers false b dead s e = inl refl

  invalid-Delivers :
      (c : Script) (b : Batch) (s : Split b)
      → (o : Option String) → Tail c.first b s.tail o
      → Delivers (on_invalid decode validate c b o b.events)
  invalid-Delivers c b s none t = commit-Delivers c.commits b [] s t
  invalid-Delivers c b s (some reason) t = published_as (publish_with_retry c.publishes)
    where
      published_as : (p : PublishEnd) → Delivers (on_publish decode validate c b reason b.events p)
      published_as dead_lettered = commit-Delivers c.commits b _ s t
      published_as publish_error = inl refl
      published_as publishing = inl refl

  insert_with_retry_loud :
      (left : ℕ) (attempts : List InsertAttempt)
      → Uncanceled attempts
      → (insert_with_retry left attempts ≡ quiet)
      → ⊥
  unfolding insert_with_retry
  insert_with_retry_loud left [] u h = cc
  insert_with_retry_loud left (inserted ∷ attempts) u h = cc
  insert_with_retry_loud left (insert_failed true cut ∷ attempts) u h = cc
  insert_with_retry_loud zero (insert_failed false cut ∷ attempts) u h = cc
  insert_with_retry_loud (suc left) (insert_failed false true ∷ attempts) u h = cc
  insert_with_retry_loud (suc left) (insert_failed false false ∷ attempts) u h =
      insert_with_retry_loud left attempts u.1 h

  insert-Delivers :
      (c : Script) (b : Batch) (s : Split b) (i : InsertEnd)
      → (i ≡ quiet → ⊥)
      → Delivers (on_insert decode validate c b i)
  insert-Delivers c b s stored h = invalid-Delivers c b s b.invalid_reason (s.invalid c.first)
  insert-Delivers c b s quiet h = absurd (h refl)
  insert-Delivers c b s insert_error h = inl refl
  insert-Delivers c b s inserting h = inl refl

  events-Delivers :
      (c : Script) (b : Batch) (s : Split b) (es : List Event)
      → b.events ≡ es
      → Uncanceled c.inserts
      → Delivers (on_events decode validate c b es)
  events-Delivers c b s [] e u =
      subst (λ x. Delivers (on_invalid decode validate c b b.invalid_reason x)) e
        (invalid-Delivers c b s b.invalid_reason (s.invalid c.first))
  events-Delivers c b s (x ∷ es) e u =
      insert-Delivers c b s (insert_with_retry 9 c.inserts) (insert_with_retry_loud 9 c.inserts u)

  -- An attempt at an insert succeeded behind fewer than 10 that failed.
  abbrev pub Inserted : ℕ → List InsertAttempt → Type 0
  Inserted left attempts =
      (before : List InsertAttempt) × (after : List InsertAttempt) × (attempts
        ≡ before ++ inserted ∷ after)
      × (length before ≤ left)

  -- An attempt to publish succeeded.
  abbrev pub Published : List PublishAttempt → Type 0
  Published attempts =
      (before : List PublishAttempt) × (after : List PublishAttempt) × (attempts
        ≡ before ++ published ∷ after)

  -- What counts as stored or as dead-lettered, ClickHouse or Kafka took.
  pub record Confirmed (s : Script) (r : Delivered) : Type 0 where
    pub stored_confirmed : (r.stored ≡ []) ⊎ Inserted 9 s.inserts
    pub dead_confirmed : (r.dead ≡ []) ⊎ Published s.publishes

  later_insert :
      (left : ℕ) (first : InsertAttempt) (attempts : List InsertAttempt)
      → Inserted left attempts
      → Inserted (suc left) (first ∷ attempts)
  later_insert left first attempts (before, after, e, short) =
      (first ∷ before, after, ap (λ x. first ∷ x) e, omega (arith, short))

  insert_with_retry-Inserted :
      (left : ℕ) (attempts : List InsertAttempt)
      → insert_with_retry left attempts ≡ stored
      → Inserted left attempts
  unfolding insert_with_retry
  insert_with_retry-Inserted left [] h = absurd cc
  insert_with_retry-Inserted left (inserted ∷ attempts) h = ([], attempts, refl, omega arith)
  insert_with_retry-Inserted left (insert_failed true cut ∷ attempts) h = absurd cc
  insert_with_retry-Inserted zero (insert_failed false cut ∷ attempts) h = absurd cc
  insert_with_retry-Inserted (suc left) (insert_failed false true ∷ attempts) h = absurd cc
  insert_with_retry-Inserted (suc left) (insert_failed false false ∷ attempts) h =
      later_insert left (insert_failed false false) attempts
        (insert_with_retry-Inserted left attempts h)

  later_publish :
      (first : PublishAttempt) (attempts : List PublishAttempt)
      → Published attempts
      → Published (first ∷ attempts)
  later_publish first attempts (before, after, e) = (first ∷ before, after, ap (λ x. first ∷ x) e)

  publish_with_retry-Published :
      (attempts : List PublishAttempt)
      → publish_with_retry attempts ≡ dead_lettered
      → Published attempts
  unfolding publish_with_retry
  publish_with_retry-Published [] h = absurd cc
  publish_with_retry-Published (published ∷ attempts) h = ([], attempts, refl)
  publish_with_retry-Published (publish_failed true ∷ attempts) h = absurd cc
  publish_with_retry-Published (publish_failed false ∷ attempts) h =
      later_publish (publish_failed false) attempts (publish_with_retry-Published attempts h)

  commit-Confirmed :
      (c : Script) (succeeds : Bool) (messages : List Message) (events : List Event)
      (dead : List (Message × String))
      → (events ≡ []) ⊎ Inserted 9 c.inserts
      → (dead ≡ []) ⊎ Published c.publishes
      → Confirmed c (commit decode validate succeeds messages events dead)
  commit-Confirmed c true messages events dead i p = record {
    stored_confirmed = i;
    dead_confirmed = p;
  }
  commit-Confirmed c false messages events dead i p = record {
    stored_confirmed = i;
    dead_confirmed = p;
  }

  invalid-Confirmed :
      (c : Script) (b : Batch) (o : Option String) (events : List Event)
      → (events ≡ []) ⊎ Inserted 9 c.inserts
      → Confirmed c (on_invalid decode validate c b o events)
  invalid-Confirmed c b none events i =
      commit-Confirmed c c.commits b.messages events [] i (inl refl)
  invalid-Confirmed c b (some reason) events i = published_as (publish_with_retry c.publishes) refl
    where
      published_as :
          (p : PublishEnd)
          → publish_with_retry c.publishes ≡ p
          → Confirmed c (on_publish decode validate c b reason events p)
      published_as dead_lettered e =
          commit-Confirmed c c.commits b.messages events _ i
            (inr (publish_with_retry-Published c.publishes e))
      published_as publish_error e = record { stored_confirmed = i; dead_confirmed = inl refl }
      published_as publishing e = record { stored_confirmed = i; dead_confirmed = inl refl }

  insert-Confirmed :
      (c : Script) (b : Batch) (i : InsertEnd)
      → insert_with_retry 9 c.inserts ≡ i
      → Confirmed c (on_insert decode validate c b i)
  insert-Confirmed c b stored e =
      invalid-Confirmed c b b.invalid_reason b.events
        (inr (insert_with_retry-Inserted 9 c.inserts e))
  insert-Confirmed c b quiet e = invalid-Confirmed c b b.invalid_reason [] (inl refl)
  insert-Confirmed c b insert_error e = record {
    stored_confirmed = inl refl;
    dead_confirmed = inl refl;
  }
  insert-Confirmed c b inserting e = record {
    stored_confirmed = inl refl;
    dead_confirmed = inl refl;
  }

  events-Confirmed :
      (c : Script) (b : Batch) (es : List Event) → Confirmed c (on_events decode validate c b es)
  events-Confirmed c b [] = invalid-Confirmed c b b.invalid_reason [] (inl refl)
  events-Confirmed c b (x ∷ es) = insert-Confirmed c b (insert_with_retry 9 c.inserts) refl

  -- If the context is not done while inserts fail, a round commits messages only after each of
  -- them was delivered: the event of every valid one was inserted, and an invalid one, which ends
  -- the batch, was dead-lettered. Events count as inserted only where one of the first 10 attempts
  -- succeeded, a message as dead-lettered only where an attempt to publish it did.
  pub round-Delivers :
      (s : Script)
      → Uncanceled s.inserts
      → Delivers (round decode validate s) × Confirmed s (round decode validate s)
  unfolding round
  round-Delivers s u =
      let b = collect decode validate 100 (s.first ∷ s.more) in
      (
        events-Delivers s b (collect-Split 100 (s.first ∷ s.more)) b.events refl u,
        events-Confirmed s b b.events,
      )

  -- Where the context is done behind a failed insert, the round still commits: the messages of a
  -- batch of one valid message are committed though its event was stored nowhere.
  pub round_loses :
      (m : Message) (e : Event) (cut : Bool)
      → check decode validate m ≡ ok e
      → round decode validate (record {
        first = m;
        more = [];
        inserts = insert_failed true cut ∷ [];
        publishes = [];
        commits = true;
      })
        ≡ record { stored = []; dead = []; committed = m ∷ []; ending = again }
  unfolding round collect insert_with_retry
  round_loses m e cut c = rw c refl

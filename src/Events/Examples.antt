-- ===== src/Events/Examples.antt =====
-- internal/events/events.go: the properties at a pipeline of one event and at a round over it.
use llm_security_audit_gatew.Base.{
  ◌+◌, ◌≤◌, suc, ◌≡◌, refl, String, pos, [], ◌∷◌, none, true, false, arith, All, Bytes,
}
use llm_security_audit_gatew.Base.Result.{Result, ok}
use llm_security_audit_gatew.Audit.{Event, redact_evidence}
use llm_security_audit_gatew.Storage.Outbox.{store_events}
use llm_security_audit_gatew.Storage.Outbox.Rows.{Unique}
use llm_security_audit_gatew.Events.Pipeline
use llm_security_audit_gatew.Events.Pipeline.{
  Pipeline, Worker, waiting, releasing, new_pipeline, status, ready, take_slot, send, refuse,
  store_once, storing, Reach, here, next, took, sent, worked, step_at, retry_delay,
}
use llm_security_audit_gatew.Events.Fifo.{Run, view, chosen, refines_queue}
use llm_security_audit_gatew.Events.Running.{run_worker, work, Running}
use llm_security_audit_gatew.Events.Draining.{Drained, run_worker_drains}
use llm_security_audit_gatew.Events.Saturation.{refused_outlasts}
use llm_security_audit_gatew.Events.Shutdown.{shutdown_abandons}
use llm_security_audit_gatew.Events.Dispatch.{Round, Delivery, dispatch}
use llm_security_audit_gatew.Events.Claims.{claimed_once, one_if, records_of}
use llm_security_audit_gatew.Events.Sending.{RowOk}
use llm_security_audit_gatew.Events.AtLeastOnce
use llm_security_audit_gatew.Events.AtLeastOnce.{delivers_before_marking}

abbrev login : Event
login = record {
  schema_version = "2";
  event_id = "e1";
  event_time = 7;
  request_id = "r1";
  tenant_id = "acme";
  direction = "request";
  path = "/v1/chat/completions";
  model = "m";
  decision = "allow";
  risk_score = pos 10;
  rule_version = "v1";
  api_key_id = "k1";
  policy_id = "p1";
  policy_revision = pos 1;
  matches = [];
  auditor = none;
  auditor_error = "";
  latency_ms = pos 3;
  body_bytes = pos 12;
  content_sha256 = "00";
  metadata = [];
}

abbrev start : Pipeline
start = new_pipeline (pos 1) true

abbrev one_taken : Pipeline
one_taken = take_slot login start

one_taken-Reach : Reach start one_taken
unfolding new_pipeline
one_taken-Reach = next here (took login (omega arith))

abbrev one_sent : Pipeline
one_sent = send [] (redact_evidence login) [] one_taken

one_sent-Reach : Reach start one_sent
unfolding new_pipeline
one_sent-Reach = next one_taken-Reach (sent [] (redact_evidence login) [] refl)

refines_queue_example :
    Run (chosen (pos 1) true) (record { pending = []; durable = []; accepted = [] }) (view one_sent)
refines_queue_example = refines_queue (pos 1) true one_sent-Reach

one_sent-Running : Running one_sent
unfolding new_pipeline
one_sent-Running = record { live = tt; sink = refl; not_closing = refl; not_closed = refl }

run_worker_drains_example : Drained one_sent (run_worker (suc (work one_sent)) one_sent)
run_worker_drains_example = run_worker_drains (pos 1) true one_sent one_sent-Reach one_sent-Running

-- The event received, the batch closed, and stored: its token is not free so far.
abbrev one_stored : Pipeline
one_stored = record one_sent {
  ch = [];
  batch = [];
  owed = 1;
  worker = releasing;
  stored = redact_evidence login ∷ [];
}

one_stored-Reach : Reach start one_stored
unfolding new_pipeline step_at Pipeline.receive
one_stored-Reach =
    next
      (next
        (next one_sent-Reach (
          worked {q = record one_sent { ch = []; batch = redact_evidence login ∷ [] }} none
            retry_delay refl))
        (worked
          {q = record one_sent { ch = []; batch = redact_evidence login ∷ []; worker = storing }}
          none retry_delay refl))
      (worked {q = one_stored} none retry_delay refl)

one_stored-Running : Running one_stored
unfolding new_pipeline
one_stored-Running = record { live = tt; sink = refl; not_closing = refl; not_closed = refl }

refused_outlasts_example :
    let q = run_worker (suc (work one_stored)) (refuse one_stored) in
    ((status q).pending ≡ 0) × (q.stored ≡ one_stored.accepted) × (ready q ≡ false)
unfolding new_pipeline
refused_outlasts_example =
    refused_outlasts (pos 1) true one_stored one_stored-Reach one_stored-Running refl refl refl refl
      refl

abbrev closing_down : Pipeline
closing_down = record start { worker = waiting; closing = true; ch = login ∷ [] }

shutdown_abandons_example : (run_worker 9 closing_down).ch ≡ closing_down.ch
shutdown_abandons_example = shutdown_abandons 9 closing_down refl refl

abbrev decode : Bytes → Result String Event
decode payload = ok login

abbrev encode : Event → Result String Bytes
encode e = ok (b'{' ∷ b'}' ∷ [])

abbrev round : Round
round = record {
  claim_error = none;
  claim_reaches = true;
  claimed_at = 20;
  locked = λ id. false;
  write = λ m. none;
  retried_at = 30;
  retry_reaches = λ id. true;
  marked_at = 40;
  mark_reaches = true;
}

abbrev outbox : Delivery
outbox = record { rows = store_events (λ e. b'{' ∷ b'}' ∷ []) true 10 (login ∷ []) []; sent = [] }

delivers_before_marking_example :
    Unique (dispatch decode encode round (pos 100) outbox).0.rows
    × All
        (RowOk decode encode (dispatch decode encode round (pos 100) outbox).0.sent)
        (dispatch decode encode round (pos 100) outbox).0.rows
    × ((id : String)
        → one_if (claimed_once id (records_of round (pos 100) none outbox.rows)) + 0 ≤ 12)
delivers_before_marking_example =
    delivers_before_marking decode encode (pos 100)
      (dispatch decode encode round (pos 100) outbox).0
      (AtLeastOnce.next
        (AtLeastOnce.next AtLeastOnce.here
          (AtLeastOnce.stored (λ e. b'{' ∷ b'}' ∷ []) true 10 (login ∷ [])))
        (AtLeastOnce.dispatched round))

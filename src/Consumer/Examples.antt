-- ===== src/Consumer/Examples.antt =====
-- The theorems on the consumer, with messages that are events where they are not empty.
use llm_security_audit_gatew.Base.{
  String, pos, [], ◌∷◌, Option, none, true, false, ◌≡◌, refl, Bytes,
}
use llm_security_audit_gatew.Base.Result.{Result, ok, err}
use llm_security_audit_gatew.Audit.{Event}
use llm_security_audit_gatew.Consumer.Delivery.{Delivers, Confirmed, round-Delivers}
use llm_security_audit_gatew.Consumer.Rounds.{
  Message, Script, inserted, insert_failed, publish_failed, published, round,
}
use llm_security_audit_gatew.Consumer.Validation.{
  validate_event, missing_fields, unsupported_direction, unsupported_decision, outside_range,
  too_long,
}

abbrev event : Event
event = record {
  schema_version = "2";
  event_id = "e1";
  event_time = 7;
  request_id = "r1";
  tenant_id = "acme";
  direction = "request";
  path = "/v1/completions";
  model = "m";
  decision = "allow";
  risk_score = pos 0;
  rule_version = "v1";
  api_key_id = "k1";
  policy_id = "";
  policy_revision = pos 1;
  matches = [];
  auditor = none;
  auditor_error = "";
  latency_ms = pos 1;
  body_bytes = pos 2;
  content_sha256 = "00";
  metadata = [];
}

abbrev decode : Bytes → Result String Event
decode [] = err "unexpected end of JSON input"
decode (b ∷ bs) = ok event

abbrev validate : Event → Option String
validate = validate_event (λ _. true) (λ _. 8)

abbrev good : Message
good = record { topic = "audit.events"; offset = 4; value = 1 ∷ [] }

abbrev bad : Message
bad = record { topic = "audit.events"; offset = 5; value = [] }

abbrev script : Script
script = record {
  first = good;
  more = bad ∷ good ∷ [];
  inserts = insert_failed false false ∷ inserted ∷ [];
  publishes = publish_failed false ∷ published ∷ [];
  commits = true;
}

round-Delivers_example :
    Delivers decode validate (round decode validate script)
    × Confirmed decode validate script (round decode validate script)
round-Delivers_example = round-Delivers decode validate script (refl, tt)

is_valid : validate event ≡ none
unfolding validate_event missing_fields unsupported_direction unsupported_decision outside_range
    too_long
is_valid = refl

-- ===== src/Webhook/Recovered.antt =====
-- `recoveredEvent` of src/server.ts: the event that is rebuilt from a sealed payload after a crash.
use linear_agent_bridge.Base.{
  ℕ, [], ◌≡◌, refl, sym, ◌∙◌, Bool, true, false, ◌||◌, Option, none, some, Text, text, length, ◌==◌,
}
use linear_agent_bridge.Json.{whole, Json, number, string}
use linear_agent_bridge.Recovery.Types.{
  Identity, Payload, created_payload, prompted_payload, occurred_at,
}
use linear_agent_bridge.Recovery.Payloads.{
  Dates, has_text, trim, is_stop_word, is_stop_prompt, is_canonical_recovery_timestamp, is_iso,
}
use linear_agent_bridge.Recovery.Base64.{conjuncts, same_eq}
use linear_agent_bridge.Webhook.Event.{
  Event, Issue, recovery_payload, payload_of, prompted_payload_of, is_stop_activity_of,
  is_stop_event,
}

abbrev rebuilt_issue : Option Text → Option Issue
rebuilt_issue none = none
rebuilt_issue (some t) = some record { identifier = some t; title = some [] }

-- The timestamp of a payload that the vault opened: its time parses.
abbrev timestamp : Option ℕ → Option Json
timestamp none = none
timestamp (some ms) = some (number (whole false ms))

-- `recoveredEvent`
unfoldable pub recovered_event : Dates → Identity → Payload → Event
recovered_event dates i (created_payload prompt at issue) = record {
  webhook_id = i.webhook_id;
  session_id = i.linear_session_id;
  issue = rebuilt_issue issue;
  prompt_context = some (string prompt);
  webhook_timestamp = timestamp (dates.parse_date at);
  activity = none;
}
recovered_event dates i (prompted_payload prompt at signal stop) = record {
  webhook_id = i.webhook_id;
  session_id = i.linear_session_id;
  issue = none;
  prompt_context = none;
  webhook_timestamp = timestamp (dates.parse_date at);
  activity = some record {
    id = i.execution_id;
    created_at = at;
    body = none;
    signal = signal;
    content_body = some prompt;
    content_signal = signal;
  };
}

-- What `validateRecoveryPayload` makes sure of.
abbrev pub HasStop : Payload → Type 0
unfolding is_stop_prompt
HasStop (created_payload prompt at issue) = Unit
HasStop (prompted_payload prompt at signal stop) = stop ≡ is_stop_prompt prompt signal

of_iso :
    (dates : Dates) (at : Text) (o : Option ℕ)
    → dates.parse_date at ≡ o
    → is_iso dates at o ≡ true
    → (ms : ℕ) × (dates.parse_date at ≡ some ms) × (dates.to_iso_string ms ≡ at)
of_iso dates at none e h = cc
of_iso dates at (some ms) e h = (ms, e, same_eq (dates.to_iso_string ms) at h)

-- A canonical timestamp parses, and is written back.
canonical_date :
    (dates : Dates) (at : Text)
    → is_canonical_recovery_timestamp dates at ≡ true
    → (ms : ℕ) × (dates.parse_date at ≡ some ms) × (dates.to_iso_string ms ≡ at)
unfolding is_canonical_recovery_timestamp
canonical_date dates at h =
    of_iso dates at (dates.parse_date at) refl (conjuncts (length at == 24) _ h).1

-- The payload of an event that was rebuilt is the payload that it was rebuilt from, when that one's
-- time is a canonical timestamp and its stop flag is that of its prompt and signal.
pub recovery_payload-recovered_event :
    (dates : Dates) (i : Identity) (p : Payload)
    → is_canonical_recovery_timestamp dates (occurred_at p) ≡ true
    → HasStop p
    → recovery_payload dates (recovered_event dates i p) ≡ some p
unfolding recovery_payload payload_of prompted_payload_of recovered_event
recovery_payload-recovered_event dates i (created_payload prompt at none) h s =
    let (ms, parsed, written) = canonical_date dates at h in rw (parsed, written) refl
recovery_payload-recovered_event dates i (created_payload prompt at (some t)) h s =
    let (ms, parsed, written) = canonical_date dates at h in rw (parsed, written) refl
recovery_payload-recovered_event dates i (prompted_payload prompt at none stop) h s =
    let (ms, parsed, written) = canonical_date dates at h in rw (parsed, written, s) refl
recovery_payload-recovered_event dates i (prompted_payload prompt at (some t) stop) h s =
    let (ms, parsed, written) = canonical_date dates at h in rw (parsed, written, s) refl

or_same : (a b : Bool) → (a || (a || b)) ≡ (a || b)
or_same true b = refl
or_same false b = refl

abbrev pub is_stop : Payload → Bool
is_stop (created_payload prompt at issue) = false
is_stop (prompted_payload prompt at signal stop) = stop

-- An event that was rebuilt is a stop exactly if its payload is.
pub is_stop_event-recovered_event :
    (dates : Dates) (i : Identity) (p : Payload)
    → HasStop p
    → is_stop_event (recovered_event dates i p) ≡ is_stop p
unfolding is_stop_event is_stop_activity_of recovered_event is_stop_prompt
is_stop_event-recovered_event dates i (created_payload prompt at issue) s = refl
is_stop_event-recovered_event dates i (prompted_payload prompt at signal stop) s =
    or_same (has_text signal (text "stop")) (is_stop_word (trim prompt)) ∙ sym s

-- ===== src/Webhook/Tests/Unsealed.antt =====
-- `handleWebhook` of src/server.ts on the first event of a session, whose prompt is no string.
use linear_agent_bridge.Base.{
  ◌≡◌, refl, false, none, some, text, text_dec, lookup, put, sort_by, select, any,
}
use linear_agent_bridge.Json.{Json, whole, number, string}
use linear_agent_bridge.State.Types.{State, empty_state}
use linear_agent_bridge.State.Checks.{active_recoverable_receipts, same_identity}
use linear_agent_bridge.State.Prune.{prune}
use linear_agent_bridge.State.Disk.{mutate}
use linear_agent_bridge.Webhook.Event.{Event, event_identity, recovery_payload, is_stop_event}
use linear_agent_bridge.Webhook.Handler.{
  accept_event, with_payload, claim_delivery, claim_call, answered, answered_with, claimed_order,
  claimed_with, refused,
}
use linear_agent_bridge.Webhook.Tests.{event, deps}

abbrev first_event : Json → Event
first_event prompt = record event { prompt_context = some prompt; activity = none }

-- The disk after the delivery "d" with a prompt that is a string.
abbrev claimed_disk : State
claimed_disk =
    (accept_event deps (some (text "d")) (first_event (string (text "go"))) empty_state).1

-- A delivery that the store does not know needs sealing, and is refused.
test_new :
    (accept_event deps
      (some (text "d"))
      (first_event (number (whole false 1)))
      empty_state).0.status
    ≡ 503
unfolding accept_event event_identity with_payload claim_delivery answered mutate recovery_payload
    is_stop_event lookup put text_dec claim_call prune sort_by select active_recoverable_receipts
    refused
test_new = refl

-- One that it knows is answered.
test_known :
    (accept_event deps
      (some (text "d"))
      (first_event (number (whole false 1)))
      claimed_disk).0.status
    ≡ 200
unfolding accept_event event_identity with_payload claim_delivery answered mutate recovery_payload
    is_stop_event lookup put text_dec claim_call prune sort_by select active_recoverable_receipts
    answered_with claimed_order claimed_with same_identity any
test_known = refl

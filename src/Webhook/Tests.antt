-- ===== src/Webhook/Tests.antt =====
-- A delivery of a prompt "Stop!", read by src/server.ts, and what the theorems say of it.
mod Unsealed
use linear_agent_bridge.Base.{
  ◌++◌, ◌⊎◌, ◌↔◌, List, arith, select, sort_by, insert_by, any, ℕ, ◌≡◌, ◌≢◌, refl, true, false,
  ◌||◌, none, some, [], ◌∷◌, Text, text, text_dec, length, leb, if◌then◌else◌,
}
use linear_agent_bridge.Json.{
  whole, Json, number, string, object, Members, empty, member, field, as_record, as_string,
}
use linear_agent_bridge.Recovery.Types.{
  prompted, Identity, Payload, prompted_payload, Envelope, Vault, occurred_at,
}
use linear_agent_bridge.Recovery.Payloads.{
  is_stop_prompt, is_stop_word, trim, trim_start, trim_end, is_canonical_recovery_timestamp,
}
use linear_agent_bridge.State.Types.{
  Receipt, Fence, IngressStatus, OutcomeResult, Disposition, Env, Error, empty_state,
}
use linear_agent_bridge.State.Steps.{done, throw}
use linear_agent_bridge.State.Checks.{
  validate_identity, is_valid_recovery_stop_fence, is_canonical_timestamp,
}
use linear_agent_bridge.State.Sequence.{receipt_is_at_or_before_fence}
use linear_agent_bridge.State.Disk.{no_fault, LockFault, not_released}
use linear_agent_bridge.State.Tests.{env, calls}
use linear_agent_bridge.State.Invariant.{Inv, empty_state-Inv}
use linear_agent_bridge.Webhook.Verify.{
  verify_webhook, verify_webhook_signature, has_fresh_webhook_timestamp,
}
use linear_agent_bridge.Webhook.Event.{
  Event, bounded_identifier, missing_or_identifier, parse_issue, content_of, parse_activity,
  parse_if_prompted, parse_agent_session_event, event_identity, prompted_payload_of, payload_of,
  recovery_payload, is_stop_event,
}
use linear_agent_bridge.Webhook.Runs.{
  run_is_at_or_before_stop, RecoveryOrder, Runs, runs_of, register_session_run, abort_session_runs,
}
use linear_agent_bridge.Webhook.Handler.{Request, Deps, replied, dates_of, handle_webhook}
use linear_agent_bridge.Webhook.Settled.{OnWork}
use linear_agent_bridge.Webhook.Gate.{
  handle_webhook-unverified, IsAccepted, handle_webhook-IsAccepted,
}
use linear_agent_bridge.Webhook.Recovered.{recovered_event, recovery_payload-recovered_event}
use linear_agent_bridge.Webhook.Stops.{
  is_hidden_stop, is_stop_event-recovery_payload, receipt_is_at_or_before_fence-run,
}
use linear_agent_bridge.Webhook.Naming.{validate_identity-event_identity}
use linear_agent_bridge.Webhook.Reconciled.{
  Found, reconciliation_identity, reconciled_prompt_event, is_stop_activity,
  reconciled_prompt_event-agrees,
}
use linear_agent_bridge.Webhook.Aborts.{IsAmong, IsStopped, abort_session_runs-IsStopped}
use linear_agent_bridge.Webhook.Begin.{
  Attempt, cross_dispatch_boundary, IsLeft, cross_dispatch_boundary-IsLeft,
}
use linear_agent_bridge.State.History.{history, history-Inv}
use linear_agent_bridge.Webhook.Routes.{flags_of, handle_request, handle_request-idle}
use linear_agent_bridge.Webhook.Oauth.{
  Call, issues, consumes, issue, consume, apply_all, consume-once, consume-issue,
}
use linear_agent_bridge.Webhook.Recovering.{
  World, out_of_fuel, recover_accepted_ingress_pass, recover_accepted_ingress_pass-ends,
}
use linear_agent_bridge.State.Disk.{err}
use linear_agent_bridge.State.Types.{State}
use linear_agent_bridge.Base.Lists.{All}
use linear_agent_bridge.State.Checks.{active_recoverable_receipts}
use linear_agent_bridge.State.Recoverable.{
  available, decode_recoverable_receipt, recovery_state_is_bounded, check_available,
  assert_recoverable_events_available, list_recoverable_events,
}
use linear_agent_bridge.State.Recoverable.Listed.{IsAvailable, list_recoverable_events-IsAvailable}

abbrev noon : Text
noon = text "2026-01-01T12:00:00.000Z"

-- The process "me" of the tests of the store, with one time that is written for every date.
abbrev here : Env
here = record (env (text "me")) { to_iso_string = λ ms. noon }

abbrev activity : Members
activity = member (text "id") (string (text "activity")) (
    member (text "createdAt") (string noon) (
      member (text "signal") (string (text "stop")) (
        member (text "content") (object (member (text "body") (string (text " Stop! ")) empty))
          empty)))

abbrev body : Json
body = object (
    member (text "type") (string (text "AgentSessionEvent")) (
      member (text "action") (string (text "prompted")) (
        member (text "webhookId") (string (text "hook")) (
          member (text "webhookTimestamp") (number (whole false 100000)) (
            member (text "agentSession")
              (object (member (text "id") (string (text "session")) empty))
              (member (text "agentActivity") (object activity) empty))))))

abbrev pub event : Event
event = record {
  webhook_id = text "hook";
  session_id = text "session";
  issue = none;
  prompt_context = none;
  webhook_timestamp = some (number (whole false 100000));
  activity = some record {
    id = text "activity";
    created_at = noon;
    body = none;
    signal = some (text "stop");
    content_body = some (text " Stop! ");
    content_signal = none;
  };
}

-- A service whose signature is always "ab", and a body that parses as above.
abbrev pub deps : Deps
deps = record {
  node = record { hmac_hex = λ secret raw. text "ab"; parse = λ raw. some body };
  secret = text "secret";
  now = 130000;
  env = here;
  lock = no_fault;
  faults = [];
  release_lock = no_fault;
  release_faults = [];
  dispatch_ready = true;
  recovery_blocked = false;
  recovery_awaiting_redelivery = false;
}

abbrev signed : Text → Request
signed signature = record { raw_body = []; signature = some signature; delivery = none }

test_verify_webhook : verify_webhook deps.node [] (some (text "ab")) deps.secret deps.now ≡ true
unfolding verify_webhook verify_webhook_signature has_fresh_webhook_timestamp field text_dec
test_verify_webhook = refl

test_parse : parse_agent_session_event (dates_of here) body ≡ some event
unfolding parse_agent_session_event as_record field as_string bounded_identifier
    missing_or_identifier parse_issue content_of parse_activity parse_if_prompted text_dec
test_parse = refl

test_payload :
    recovery_payload (dates_of here) event
    ≡ some (prompted_payload (text " Stop! ") noon (some (text "stop")) true)
unfolding recovery_payload payload_of prompted_payload_of is_stop_prompt is_stop_word trim
    trim_start trim_end text_dec
test_payload = refl

handle_webhook-unverified_example :
    (status : ℕ) × (status ≢ 200)
    × (handle_webhook deps (signed (text "cd")) empty_state ≡ (replied status, empty_state))
unfolding verify_webhook verify_webhook_signature text_dec
handle_webhook-unverified_example =
    handle_webhook-unverified deps (signed (text "cd")) empty_state refl

handle_webhook-IsAccepted_example :
    Inv (handle_webhook deps (signed (text "ab")) empty_state).1
    × OnWork
        (IsAccepted deps
          (signed (text "ab"))
          (handle_webhook deps (signed (text "ab")) empty_state).1)
        (handle_webhook deps (signed (text "ab")) empty_state).0
handle_webhook-IsAccepted_example =
    handle_webhook-IsAccepted deps (signed (text "ab")) empty_state empty_state-Inv

is_stop_event-recovery_payload_example :
    is_stop_event event ≡ (true || is_hidden_stop event.activity)
is_stop_event-recovery_payload_example =
    is_stop_event-recovery_payload (dates_of here) event
      (prompted_payload (text " Stop! ") noon (some (text "stop")) true) test_payload

validate_identity-event_identity_example : validate_identity (event_identity event none) ≡ (
    if false || leb (length (event_identity event none).webhook_id) 256
    then done tt
    else throw Error.invalid_argument)
validate_identity-event_identity_example =
    validate_identity-event_identity (dates_of here) body event none test_parse

abbrev identity : Identity
identity = record {
  webhook_id = text "hook";
  execution_id = text "activity";
  linear_session_id = text "session";
  action = prompted;
}

abbrev payload : Payload
payload = prompted_payload (text " Stop! ") noon (some (text "stop")) true

recovery_payload-recovered_event_example :
    recovery_payload (dates_of here) (recovered_event (dates_of here) identity payload)
    ≡ some payload
unfolding is_canonical_recovery_timestamp is_stop_prompt is_stop_word trim trim_start trim_end
    text_dec
recovery_payload-recovered_event_example =
    recovery_payload-recovered_event (dates_of here) identity payload refl refl

abbrev receipt : Receipt
receipt = record {
  identity = identity;
  status = IngressStatus.received;
  owner_id = none;
  received_at = 1;
  updated_at = 1;
  claimed_at = none;
  completed_at = none;
  failed_at = none;
  superseded_at = none;
  superseded_by_webhook_id = none;
  dispatch_started_at = none;
  recovery_sequence = some 3;
  recovery_envelope = some record { key_id = 0 ∷ []; nonce = noon; ciphertext = []; tag = [] };
  outcome = record {
    unavailable = false;
    result = OutcomeResult.accepted;
    disposition = Disposition.received;
    error_class = none;
  };
}

abbrev fence : Fence
fence = record {
  occurred_at = noon;
  sequence = 4;
  webhook_id = text "hook";
  execution_id = text "stop";
}

receipt_is_at_or_before_fence-run_example :
    (vault : Vault) × (envelope : Envelope) × (n : ℕ) × (p : Payload) × (here.vault ≡ some vault)
    × (receipt.recovery_envelope ≡ some envelope)
    × (receipt.recovery_sequence ≡ some n)
    × (vault.open_ingress receipt.identity n envelope ≡ some p)
    × (run_is_at_or_before_stop
          (dates_of here)
          record { action = receipt.action; at = occurred_at p; sequence = n }
          record { action = prompted; at = fence.occurred_at; sequence = fence.sequence }
        ≡ true)
unfolding receipt_is_at_or_before_fence is_valid_recovery_stop_fence is_canonical_timestamp text_dec
receipt_is_at_or_before_fence-run_example =
    receipt_is_at_or_before_fence-run here receipt fence true refl

handle_request-idle_example :
    (handle_request
      (flags_of (record deps { dispatch_ready = false; recovery_awaiting_redelivery = true }))
      (record deps { dispatch_ready = false; recovery_awaiting_redelivery = true })
      200
      (text "POST")
      (text "/webhook")
      (signed (text "ab"))
      empty_state).0.work
    ≡ none
handle_request-idle_example =
    handle_request-idle
      (flags_of (record deps { dispatch_ready = false; recovery_awaiting_redelivery = true }))
      (record deps { dispatch_ready = false; recovery_awaiting_redelivery = true }) 200
      (text "POST") (text "/webhook") (signed (text "ab")) empty_state refl refl

abbrev state_text : Text
state_text = 7 ∷ []

abbrev other_calls : List Call
other_calls = issues (8 ∷ []) 20 ∷ consumes (9 ∷ []) 30 ∷ []

differs : ◌≢◌ {A = Text} (8 ∷ []) state_text
differs e = ground (arith, e)

differs' : ◌≢◌ {A = Text} (9 ∷ []) state_text
differs' e = ground (arith, e)

consume-once_example :
    (consume state_text 40
      (apply_all other_calls (consume state_text 15 (issue state_text 10 [])).1)).0
    ≡ false
consume-once_example =
    consume-once state_text 15 40 (issue state_text 10 []) other_calls (differs, tt)

consume-issue_example :
    (consume state_text 40 (apply_all other_calls (issue state_text 10 []))).0 ≡ leb 40 600010
consume-issue_example =
    consume-issue state_text 10 40 [] other_calls (differs, omega arith, (differs', tt))

-- A world in which the file is empty and nothing fails.
abbrev quiet : World State
quiet = record {
  env = here;
  disk = λ s. s;
  is_closing = λ s. false;
  claim = λ i s. (err Error.io_error, s);
  process = λ i n p s. (false, s);
}

recover_accepted_ingress_pass-ends_example :
    (recover_accepted_ingress_pass quiet 9007199254740992 empty_state).0 ≢ out_of_fuel
recover_accepted_ingress_pass-ends_example =
    recover_accepted_ingress_pass-ends quiet 9007199254740992 empty_state (omega arith)

abbrev waiting : State
waiting = record empty_state { receipts = (text "hook", receipt) ∷ [] }

list_recoverable_events-IsAvailable_example :
    All IsAvailable (available identity 3 (prompted_payload [] noon none false) ∷ [])
unfolding assert_recoverable_events_available recovery_state_is_bounded check_available
    active_recoverable_receipts decode_recoverable_receipt list_recoverable_events select sort_by
    insert_by any
list_recoverable_events-IsAvailable_example =
    list_recoverable_events-IsAvailable here waiting 2
      (available identity 3 (prompted_payload [] noon none false) ∷ []) refl refl

abbrev found : Found
found = record { id = text "activity"; created_at = noon; body = some (text "stop"); signal = none }

reconciled_prompt_event-agrees_example :
    (is_stop_event (reconciled_prompt_event (dates_of here) (text "session") found none)
      ≡ is_stop_activity found)
    × ((event_identity
          (reconciled_prompt_event (dates_of here) (text "session") found none)
          none).execution_id
        ≡ (reconciliation_identity (text "session") found.id).execution_id)
    × ((event_identity
          (reconciled_prompt_event (dates_of here) (text "session") found none)
          none).linear_session_id
        ≡ (reconciliation_identity (text "session") found.id).linear_session_id)
    × ((event_identity
          (reconciled_prompt_event (dates_of here) (text "session") found none)
          none).action
        ≡ (reconciliation_identity (text "session") found.id).action)
reconciled_prompt_event-agrees_example =
    reconciled_prompt_event-agrees (dates_of here) (text "session") found none none

abbrev order : ℕ → RecoveryOrder
order n = record { action = prompted; at = noon; sequence = n }

abbrev one_run : Runs
unfolding register_session_run
one_run =
    register_session_run (text "session") (order 9) (record { active = []; made = 0; aborted = [] })

abort_session_runs-IsStopped_example :
    IsAmong 1
      (abort_session_runs
        (dates_of here)
        (text "session")
        (order 5)
        (register_session_run (text "session") (order 3) one_run)).aborted
    ↔ (IsAmong 1 one_run.aborted
        ⊎ IsStopped (dates_of here) (order 5) 1 (
            runs_of (text "session") one_run
            ++ record { controller = one_run.made; recovery_order = order 3 } ∷ []))
abort_session_runs-IsStopped_example =
    abort_session_runs-IsStopped (dates_of here) (text "session") (order 3) (order 5) one_run 1

-- A call that meets no fault, or whose lock cannot be released.
abbrev attempt : LockFault → Attempt
attempt l = record { lock = l; faults = [] }

cross_dispatch_boundary-IsLeft_example :
    Inv
      (cross_dispatch_boundary
        (env (text "two"))
        (text "w2")
        none
        (attempt not_released)
        (attempt no_fault)
        (attempt no_fault)
        (history calls empty_state)).1
    × IsLeft
        (env (text "two"))
        (text "w2")
        (cross_dispatch_boundary
          (env (text "two"))
          (text "w2")
          none
          (attempt not_released)
          (attempt no_fault)
          (attempt no_fault)
          (history calls empty_state)).1
        (cross_dispatch_boundary
          (env (text "two"))
          (text "w2")
          none
          (attempt not_released)
          (attempt no_fault)
          (attempt no_fault)
          (history calls empty_state)).0
cross_dispatch_boundary-IsLeft_example =
    cross_dispatch_boundary-IsLeft (env (text "two")) (text "w2") none (attempt not_released)
      (attempt no_fault) (attempt no_fault) (history calls empty_state) (history-Inv calls)

-- ===== src/Webhook/Reconciled.antt =====
-- src/server.ts: an activity that reconciliation finds at Linear, as the event that its webhook would
-- have brought.
use linear_agent_bridge.Base.{
  ℕ, ◌≡◌, refl, Bool, true, false, ◌||◌, Option, none, some, [], ◌++◌, Text, text,
}
use linear_agent_bridge.Json.{whole, Json, number}
use linear_agent_bridge.Recovery.Types.{prompted, Identity}
use linear_agent_bridge.Recovery.Payloads.{Dates, has_text, trim, is_stop_word}
use linear_agent_bridge.State.Types.{Cursor}
use linear_agent_bridge.Webhook.Event.{
  Event, Issue, event_identity, is_stop_activity_of, is_stop_event,
}

-- `ReconciledAgentActivity`, as far as these functions read it.
pub record Found : Type 0 where
  pub id : Text
  pub created_at : Text
  pub body : Option Text
  pub signal : Option Text

abbrev body_of : Option Text → Text
body_of none = []
body_of (some t) = t

-- `reconciliationIdentity`
unfoldable pub reconciliation_identity : Text → Text → Identity
reconciliation_identity session_id activity_id = record {
  webhook_id = text "reconcile:" ++ activity_id;
  execution_id = activity_id;
  linear_session_id = session_id;
  action = prompted;
}

abbrev known_issue : Option Text → Option Issue
known_issue none = none
known_issue (some t) = some record { identifier = some t; title = some [] }

-- `webhookTimestamp`; NaN is no number of JSON, and is not read of a prompted event.
abbrev found_at : Option ℕ → Option Json
found_at none = none
found_at (some ms) = some (number (whole false ms))

-- `reconciledPromptEvent`
unfoldable pub reconciled_prompt_event : Dates → Text → Found → Option Text → Event
reconciled_prompt_event dates session_id f issue_identifier = record {
  webhook_id = text "reconcile:" ++ f.id;
  session_id = session_id;
  issue = known_issue issue_identifier;
  prompt_context = none;
  webhook_timestamp = found_at (dates.parse_date f.created_at);
  activity = some record {
    id = f.id;
    created_at = f.created_at;
    body = none;
    signal = f.signal;
    content_body = some (body_of f.body);
    content_signal = f.signal;
  };
}

-- `activityCursor`
unfoldable pub activity_cursor : Found → Cursor
activity_cursor f = record { created_at = f.created_at; id = f.id }

-- `isStopActivity`
unfoldable pub is_stop_activity : Found → Bool
unfolding is_stop_word trim
is_stop_activity f = has_text f.signal (text "stop") || is_stop_word (trim (body_of f.body))

twice : (a b : Bool) → (a || (a || b)) ≡ (a || b)
twice true b = refl
twice false b = refl

-- The event that is made of a found activity is a stop exactly if the activity is one; and its
-- identity for any delivery header has the execution, the session and the action of the identity
-- that reconciliation claims it under.
pub reconciled_prompt_event-agrees :
    (dates : Dates) (session_id : Text) (f : Found) (issue_identifier delivery : Option Text)
    → (is_stop_event (reconciled_prompt_event dates session_id f issue_identifier)
        ≡ is_stop_activity f)
      × ((event_identity
            (reconciled_prompt_event dates session_id f issue_identifier)
            delivery).execution_id
          ≡ (reconciliation_identity session_id f.id).execution_id)
      × ((event_identity
            (reconciled_prompt_event dates session_id f issue_identifier)
            delivery).linear_session_id
          ≡ (reconciliation_identity session_id f.id).linear_session_id)
      × ((event_identity
            (reconciled_prompt_event dates session_id f issue_identifier)
            delivery).action
          ≡ (reconciliation_identity session_id f.id).action)
unfolding is_stop_event is_stop_activity_of reconciled_prompt_event is_stop_activity event_identity
    reconciliation_identity
reconciled_prompt_event-agrees dates session_id f issue_identifier delivery = (
  twice (has_text f.signal (text "stop")) (is_stop_word (trim (body_of f.body))),
  refl,
  refl,
  refl,
)

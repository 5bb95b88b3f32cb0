-- ===== src/Webhook/Event.antt =====
-- src/server.ts and src/types.ts: the event that a delivery brings, its identity in the state store,
-- and what is kept of it for recovery.
use linear_agent_bridge.Base.{
  ℕ, Bool, true, false, ◌&&◌, ◌||◌, Option, none, some, [], ◌++◌, Text, text, length, same, ltb,
  leb, if◌then◌else◌, is_some,
}
use linear_agent_bridge.Base.Options.{◌>>=◌, ◌>>◌, guard}
use linear_agent_bridge.Json.{
  whole, fraction, Json, null, number, string, Members, empty, field, as_record, as_string,
}
use linear_agent_bridge.Recovery.Types.{
  IngressAction, created, prompted, Identity, Payload, created_payload, prompted_payload,
}
use linear_agent_bridge.Recovery.Payloads.{Dates, has_text, trim, is_stop_word, is_stop_prompt}
use linear_agent_bridge.State.Types.{Cursor}

pub record Issue : Type 0 where
  pub identifier : Option Text
  pub title : Option Text

-- `agentActivity`, where `null` and `undefined` are both `none`.
pub record Activity : Type 0 where
  pub id : Text
  pub created_at : Text
  pub body : Option Text
  pub signal : Option Text
  pub content_body : Option Text
  pub content_signal : Option Text

-- The fields of `LinearAgentSessionEvent` that the server reads; `activity` stands on a prompted
-- event, and only there.
pub record Event : Type 0 where
  pub webhook_id : Text
  pub session_id : Text
  pub issue : Option Issue
  pub prompt_context : Option Json
  pub webhook_timestamp : Option Json
  pub activity : Option Activity

abbrev pub is_bounded : Text → Bool
is_bounded t = ltb 0 (length t) && leb (length t) 256

-- `isBoundedIdentifier`: the identifier, if it is one.
unfoldable pub bounded_identifier : Option Json → Option Text
bounded_identifier (some (string t)) = if is_bounded t then some t else none
bounded_identifier _ = none

-- A field that may be missing, else a string of 1 to 256 units.
unfoldable pub missing_or_identifier : Option Json → Option (Option Text)
unfolding bounded_identifier
missing_or_identifier none = some none
missing_or_identifier (some j) = do t ← bounded_identifier (some j); some (some t)

-- A field that may be missing, else a string.
abbrev pub missing_or_string : Option Json → Option (Option Text)
missing_or_string none = some none
missing_or_string (some (string t)) = some (some t)
missing_or_string (some _) = none

-- A field that may be missing or `null`, else a string.
abbrev pub nullable_string : Option Json → Option (Option Text)
nullable_string (some null) = some none
nullable_string o = missing_or_string o

-- The field `issue` of the session, with its tests.
unfoldable pub parse_issue : Option Json → Option (Option Issue)
unfolding as_record field missing_or_identifier
parse_issue none = some none
parse_issue (some j) = do
  m ← as_record j
  id ← missing_or_identifier (field (text "id") m)
  identifier ← missing_or_identifier (field (text "identifier") m)
  title ← missing_or_string (field (text "title") m)
  some (some record { identifier = identifier; title = title })

-- The field `content` of the activity: without it, no field of it is there.
unfoldable pub content_of : Option Json → Option Members
unfolding as_record
content_of none = some empty
content_of (some j) = as_record j

abbrev pub is_prompt_type : Option Json → Bool
is_prompt_type none = true
is_prompt_type (some (string t)) = same t (text "prompt")
is_prompt_type (some _) = false

-- The field `agentActivity` of a prompted event, with its tests.
unfoldable pub parse_activity : Dates → Option Json → Option Activity
unfolding as_record field as_string bounded_identifier content_of
parse_activity dates value = do
  m ← value >>= as_record
  id ← bounded_identifier (field (text "id") m)
  created_at ← field (text "createdAt") m >>= as_string
  guard (is_some (dates.parse_date created_at))
  content ← content_of (field (text "content") m)
  guard (is_prompt_type (field (text "type") content))
  content_body ← missing_or_string (field (text "body") content)
  content_signal ← nullable_string (field (text "signal") content)
  body ← missing_or_string (field (text "body") m)
  signal ← nullable_string (field (text "signal") m)
  some record {
    id = id;
    created_at = created_at;
    body = body;
    signal = signal;
    content_body = content_body;
    content_signal = content_signal;
  }

unfoldable pub parse_if_prompted : Dates → Text → Option Json → Option (Option Activity)
unfolding parse_activity
parse_if_prompted dates action value =
    if same action (text "created")
    then some none
    else if same action (text "prompted")
    then parse_activity dates value >>= (λ a. some (some a))
    else none

-- `parseAgentSessionEvent`. An array has none of the fields that are asked of a record.
unfoldable pub parse_agent_session_event : Dates → Json → Option Event
unfolding as_record field as_string bounded_identifier parse_issue parse_if_prompted
parse_agent_session_event dates payload = do
  m ← as_record payload
  type ← field (text "type") m >>= as_string
  guard (same type (text "AgentSessionEvent"))
  action ← field (text "action") m >>= as_string
  webhook_id ← bounded_identifier (field (text "webhookId") m)
  session ← field (text "agentSession") m >>= as_record
  session_id ← bounded_identifier (field (text "id") session)
  issue ← parse_issue (field (text "issue") session)
  activity ← parse_if_prompted dates action (field (text "agentActivity") m)
  some record {
    webhook_id = webhook_id;
    session_id = session_id;
    issue = issue;
    prompt_context = field (text "promptContext") m;
    webhook_timestamp = field (text "webhookTimestamp") m;
    activity = activity;
  }

abbrev pub execution_id_of : Text → Option Activity → Text
execution_id_of session_id none = text "created:" ++ session_id
execution_id_of session_id (some a) = a.id

abbrev pub action_of : Option Activity → IngressAction
action_of none = created
action_of (some a) = prompted

abbrev pub is_bounded_header : Option Text → Bool
is_bounded_header none = false
is_bounded_header (some t) = is_bounded t

abbrev pub webhook_id_of : Option Text → Text → Text → Text
webhook_id_of none webhook_id execution_id = webhook_id ++ text ":" ++ execution_id
webhook_id_of (some t) webhook_id execution_id =
    if is_bounded t then t else webhook_id ++ text ":" ++ execution_id

-- `eventIdentity`
unfoldable pub event_identity : Event → Option Text → Identity
event_identity e delivery_id = record {
  webhook_id = webhook_id_of delivery_id e.webhook_id (execution_id_of e.session_id e.activity);
  execution_id = execution_id_of e.session_id e.activity;
  linear_session_id = e.session_id;
  action = action_of e.activity;
}

-- `a ?? b`
abbrev pub either : Option Text → Option Text → Option Text
either none b = b
either (some a) b = some a

abbrev or_empty : Option Text → Text
or_empty none = []
or_empty (some t) = t

-- The text of a prompted event.
abbrev pub prompt_of : Activity → Text
prompt_of a = or_empty (either a.content_body a.body)

abbrev title_of : Option Issue → Option Text
title_of none = none
title_of (some i) = i.title

abbrev identifier_of : Option Issue → Option Text
identifier_of none = none
identifier_of (some i) = i.identifier

-- `event.promptContext ?? issue?.title ?? ""`, if it is a string.
abbrev pub context_of : Option Json → Option Issue → Option Text
context_of none issue = some (or_empty (title_of issue))
context_of (some null) issue = some (or_empty (title_of issue))
context_of (some (string t)) issue = some t
context_of (some _) issue = none

-- The milliseconds of `new Date(event.webhookTimestamp)`. A fresh timestamp is a number after 1970.
abbrev milliseconds : Option Json → ℕ
milliseconds (some (number (whole false n))) = n
milliseconds (some (number (fraction false n))) = n
milliseconds _ = 0

-- `toISOString` of the time of the activity.
abbrev iso_of : Dates → Text → Option ℕ → Text
iso_of dates created_at none = []
iso_of dates created_at (some ms) = dates.to_iso_string ms

unfoldable pub prompted_payload_of : Text → Text → Option Text → Payload
unfolding is_stop_prompt
prompted_payload_of prompt at signal =
    prompted_payload prompt at signal (is_stop_prompt prompt signal)

-- `recoveryPayload` by the kind of the event; `none` is a payload whose prompt is no string, which
-- the vault refuses to seal (`unsealed_payload`).
unfoldable pub payload_of : Dates → Event → Option Activity → Option Payload
unfolding prompted_payload_of
payload_of dates e none = do
  prompt ← context_of e.prompt_context e.issue
  some (
      created_payload prompt (dates.to_iso_string (milliseconds e.webhook_timestamp))
        (identifier_of e.issue))
payload_of dates e (some a) = some (
    prompted_payload_of (prompt_of a) (iso_of dates a.created_at (dates.parse_date a.created_at))
      (either a.content_signal a.signal))

-- The other fields of a payload whose prompt is no string; only the first event of a session has
-- such a prompt, and what reads the payload besides the vault does not read the prompt of that event.
unfoldable pub unsealed_payload : Dates → Event → Payload
unsealed_payload dates e =
    created_payload [] (dates.to_iso_string (milliseconds e.webhook_timestamp))
      (identifier_of e.issue)

unfoldable pub recovery_payload : Dates → Event → Option Payload
unfolding payload_of
recovery_payload dates e = payload_of dates e e.activity

unfoldable pub is_stop_activity_of : Option Activity → Bool
unfolding is_stop_word trim
is_stop_activity_of none = false
is_stop_activity_of (some a) =
    has_text a.content_signal (text "stop")
    || (has_text a.signal (text "stop") || is_stop_word (trim (prompt_of a)))

-- `isStopEvent`
unfoldable pub is_stop_event : Event → Bool
unfolding is_stop_activity_of
is_stop_event e = is_stop_activity_of e.activity

-- `eventActivityCursor` of a prompted event, which always has the time of its activity.
unfoldable pub event_activity_cursor : Activity → Cursor
event_activity_cursor a = record { created_at = a.created_at; id = a.id }

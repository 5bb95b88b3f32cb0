-- ===== src/Webhook/Naming.antt =====
-- src/server.ts: when the identity of an event is one that the state store takes.
use linear_agent_bridge.Base.{
  ◌+◌, ◌≡◌, refl, sym, ap, subst, ◌∙◌, ◌≢◌, is_some, Bool, true, false, not, ◌||◌, Option, none,
  some, Text, text, same, length, leb, ltb, ◌++◌, [], ◌∷◌, arith, if◌then◌else◌, Bool-cases, inl,
  inr,
}
use linear_agent_bridge.Base.Options.{◌>>=◌, bind_inv, guard_inv}
use linear_agent_bridge.Json.{Json, field, as_record, as_string, string}
use linear_agent_bridge.Recovery.Payloads.{Dates}
use linear_agent_bridge.Recovery.Base64.{some_eq}
use linear_agent_bridge.State.Types.{Error}
use linear_agent_bridge.State.Steps.{done, throw, throw_if}
use linear_agent_bridge.State.Checks.{is_identifier, validate_identity, validate_identifier}
use linear_agent_bridge.Webhook.Event.{
  Event, Activity, is_bounded, is_bounded_header, missing_or_string, nullable_string, content_of,
  is_prompt_type, webhook_id_of, bounded_identifier, parse_issue, parse_activity,
  parse_agent_session_event, parse_if_prompted, event_identity, execution_id_of,
}

bounded_identifier-is_bounded :
    (o : Option Json) (t : Text) → bounded_identifier o ≡ some t → is_bounded t ≡ true
unfolding bounded_identifier
bounded_identifier-is_bounded none t h = cc
bounded_identifier-is_bounded (some (string x)) t h = ground arith
bounded_identifier-is_bounded (some Json.null) t h = cc
bounded_identifier-is_bounded (some (Json.boolean b)) t h = cc
bounded_identifier-is_bounded (some (Json.number b)) t h = cc
bounded_identifier-is_bounded (some (Json.array b)) t h = cc
bounded_identifier-is_bounded (some (Json.object b)) t h = cc

-- The identifiers of an activity, and of a parsed event, have 1 to 256 units.
abbrev HasBoundedId : Option Activity → Type 0
HasBoundedId none = Unit
HasBoundedId (some a) = is_bounded a.id ≡ true

parse_activity-HasBoundedId :
    (dates : Dates) (value : Option Json) (a : Activity)
    → parse_activity dates value ≡ some a
    → is_bounded a.id ≡ true
unfolding parse_activity
parse_activity-HasBoundedId dates value a h =
    let (m, _, h1) = bind_inv (value >>= as_record) _ a h in
    let (id, bounded, h2) = bind_inv (bounded_identifier (field (text "id") m)) _ a h1 in
    let (created_at, _, h3) = bind_inv (field (text "createdAt") m >>= as_string) _ a h2 in
    let (_, h4) = guard_inv (is_some (dates.parse_date created_at)) _ a h3 in
    let (content, _, h5) = bind_inv (content_of (field (text "content") m)) _ a h4 in
    let (_, h6) = guard_inv (is_prompt_type (field (text "type") content)) _ a h5 in
    let (body, _, h7) = bind_inv (missing_or_string (field (text "body") content)) _ a h6 in
    let (signal, _, h8) = bind_inv (nullable_string (field (text "signal") content)) _ a h7 in
    let (outer, _, h9) = bind_inv (missing_or_string (field (text "body") m)) _ a h8 in
    let (outer_signal, _, end) = bind_inv (nullable_string (field (text "signal") m)) _ a h9 in
    ap (λ x. is_bounded x.id) (sym (some_eq end))
    ∙ bounded_identifier-is_bounded (field (text "id") m) id bounded

none_ne : {A : Type 0} (a : A) → none ≢ some a
none_ne a e = cc

length-append : (s t : Text) → length (s ++ t) ≡ length s + length t
length-append [] t = omega arith
length-append (c ∷ s) t = omega (arith, length-append s t)

parse_if_prompted-HasBoundedId :
    (dates : Dates) (action : Text) (value : Option Json) (a : Option Activity)
    → parse_if_prompted dates action value ≡ some a
    → HasBoundedId a
unfolding parse_if_prompted
parse_if_prompted-HasBoundedId dates action value a h =
    elim (Bool-cases (same action (text "created"))) [
      | inl e ↦ let found = rw e at h in subst HasBoundedId (some_eq found) tt
      | inr e ↦ elim (Bool-cases (same action (text "prompted"))) [
        | inl p ↦
            let found = rw (e, p) at h in
            let (activity, parsed, end) = bind_inv (parse_activity dates value) _ a found in
            subst HasBoundedId (some_eq end)
              (parse_activity-HasBoundedId dates value activity parsed)
        | inr p ↦ let found = rw (e, p) at h in absurd (none_ne a found)
      ]
    ]

-- What `parseAgentSessionEvent` makes sure of.
abbrev HasBoundedIds : Event → Type 0
HasBoundedIds e = (is_bounded e.session_id ≡ true) × HasBoundedId e.activity

parse_agent_session_event-HasBoundedIds :
    (dates : Dates) (j : Json) (e : Event)
    → parse_agent_session_event dates j ≡ some e
    → HasBoundedIds e
unfolding parse_agent_session_event
parse_agent_session_event-HasBoundedIds dates j e h =
    let (m, _, h1) = bind_inv (as_record j) _ e h in
    let (type, _, h2) = bind_inv (field (text "type") m >>= as_string) _ e h1 in
    let (_, h3) = guard_inv (same type (text "AgentSessionEvent")) _ e h2 in
    let (action, _, h4) = bind_inv (field (text "action") m >>= as_string) _ e h3 in
    let (webhook_id, _, h5) = bind_inv (bounded_identifier (field (text "webhookId") m)) _ e h4 in
    let (session, _, h6) = bind_inv (field (text "agentSession") m >>= as_record) _ e h5 in
    let (id, bounded, h7) = bind_inv (bounded_identifier (field (text "id") session)) _ e h6 in
    let (issue, _, h8) = bind_inv (parse_issue (field (text "issue") session)) _ e h7 in
    let (activity, parsed, end) =
      bind_inv (parse_if_prompted dates action (field (text "agentActivity") m)) _ e h8 in
    subst HasBoundedIds (some_eq end) (
      bounded_identifier-is_bounded (field (text "id") session) id bounded,
      parse_if_prompted-HasBoundedId dates action (field (text "agentActivity") m) activity parsed,
    )

execution_id_of-is_identifier :
    (session : Text) (a : Option Activity)
    → is_bounded session ≡ true
    → HasBoundedId a
    → is_identifier (execution_id_of session a) 512 ≡ true
execution_id_of-is_identifier session none h k =
    let long = length-append (text "created:") session in ground (arith, h, long)
execution_id_of-is_identifier session (some a) h k = ground (arith, k)

colon_between : (s t : Text) → ltb 0 (length (s ++ text ":" ++ t)) ≡ true
colon_between [] t = ground arith
colon_between (c ∷ s) t = ground arith

webhook_id_of-is_identifier :
    (delivery : Option Text) (webhook_id execution_id : Text)
    → is_identifier (webhook_id_of delivery webhook_id execution_id) 256
      ≡ (is_bounded_header delivery || leb (length (webhook_id ++ text ":" ++ execution_id)) 256)
webhook_id_of-is_identifier none webhook_id execution_id =
    rw (colon_between webhook_id execution_id) refl
webhook_id_of-is_identifier (some t) webhook_id execution_id = elim (Bool-cases (is_bounded t)) [
  | inl b ↦ rw (b, b) refl
  | inr b ↦ rw (b, colon_between webhook_id execution_id) refl
]

passes :
    (x : Bool)
    → (linear_agent_bridge.State.Steps.◌>>◌ (throw_if (not x) Error.invalid_argument) (done tt))
      ≡ (if x then done tt else throw Error.invalid_argument)
passes true = refl
passes false = refl

-- The identity of a parsed event passes `validateIdentity` when the delivery header is a bounded
-- identifier, or else the webhook's id and the execution's id with a colon between them have 256
-- units at most; otherwise `validateIdentity` throws.
pub validate_identity-event_identity :
    (dates : Dates) (j : Json) (e : Event) (delivery : Option Text)
    → parse_agent_session_event dates j ≡ some e
    → validate_identity (event_identity e delivery) ≡ (
        if is_bounded_header delivery || leb (length (event_identity e none).webhook_id) 256
        then done tt
        else throw Error.invalid_argument)
unfolding validate_identity event_identity validate_identifier
validate_identity-event_identity dates j e delivery h =
    let (session, activity) = parse_agent_session_event-HasBoundedIds dates j e h in
    let execution = execution_id_of-is_identifier e.session_id e.activity session activity in
    rw
      (
        session,
        execution,
        webhook_id_of-is_identifier delivery e.webhook_id (execution_id_of e.session_id e.activity),
      )
      (passes (
        is_bounded_header delivery
        || leb (length (e.webhook_id ++ text ":" ++ execution_id_of e.session_id e.activity)) 256))

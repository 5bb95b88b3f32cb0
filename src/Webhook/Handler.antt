-- ===== src/Webhook/Handler.antt =====
-- `handleWebhook` of src/server.ts, with the calls that it makes of the state store.
use linear_agent_bridge.Base.{
  ℕ, ◌≡◌, arith, Bool, true, false, not, ◌&&◌, Option, none, some, List, Text, text, same,
  if◌then◌else◌,
}
use linear_agent_bridge.Base.Options.{◌>>=◌}
use linear_agent_bridge.Json.{Json, field, as_record, as_string}
use linear_agent_bridge.Recovery.Types.{Identity, Payload, Envelope, Vault}
use linear_agent_bridge.Recovery.Base64.{Bytes}
use linear_agent_bridge.Recovery.Payloads.{Dates}
use linear_agent_bridge.State.Types.{Disposition, State, Env}
use linear_agent_bridge.State.Steps.{Steps}
use linear_agent_bridge.State.Claiming.{ClaimResult}
use linear_agent_bridge.State.Claim.{claim_event}
use linear_agent_bridge.State.Reconcile.{claim_stop_event}
use linear_agent_bridge.State.Dispatch.{release_pre_dispatch_claim}
use linear_agent_bridge.State.Disk.{Fault, LockFault, Outcome, ok, err, mutate}
use linear_agent_bridge.Webhook.Verify.{Node, verify_webhook_signature, has_fresh_webhook_timestamp}
use linear_agent_bridge.Webhook.Event.{
  Event, Activity, parse_agent_session_event, event_identity, recovery_payload, is_stop_event,
  event_activity_cursor, unsealed_payload,
}
use linear_agent_bridge.Webhook.Runs.{RecoveryOrder, recovery_order_from_receipt}

-- The request, as far as the handler reads it.
pub record Request : Type 0 where
  pub raw_body : Bytes
  pub signature : Option Text
  pub delivery : Option Text

-- `InternalServerDeps`, as far as the handler reads it: the secret, the clock of the freshness test,
-- the environment of the store, what may fail in the two calls of the store, and the three flags.
pub record Deps : Type 0 where
  pub node : Node
  pub secret : Text
  pub now : ℕ
  pub env : Env
  pub lock : LockFault
  pub faults : List Fault
  pub release_lock : LockFault
  pub release_faults : List Fault
  pub dispatch_ready : Bool
  pub recovery_blocked : Bool
  pub recovery_awaiting_redelivery : Bool

-- What `processClaimedEvent` is called with.
pub record Work : Type 0 where
  pub event : Event
  pub identity : Identity
  pub order : RecoveryOrder

-- The HTTP status, the order up to which the runs of the session were aborted, the work that is
-- scheduled after the response, and whether a startup recovery is requested.
pub record Handled : Type 0 where
  pub status : ℕ
  pub stops : Option RecoveryOrder
  pub work : Option Work
  pub recovers : Bool

abbrev pub replied : ℕ → Handled
replied status = record { status = status; stops = none; work = none; recovers = false }

abbrev pub dates_of : Env → Dates
dates_of env = record { parse_date = env.parse_date; to_iso_string = env.to_iso_string }

-- `repairingLegacyReceipt`
abbrev pub is_repairing : Deps → Bool
is_repairing deps =
    not deps.dispatch_ready && (not deps.recovery_blocked && deps.recovery_awaiting_redelivery)

-- The call for an event that is no repair: only a prompted event is a stop.
unfoldable pub claim_call :
    Env → Event → Identity → Payload → Option Activity → State → Steps ClaimResult
unfolding claim_event claim_stop_event event_activity_cursor is_stop_event
claim_call env e i p none s = claim_event env s i (some p) false
claim_call env e i p (some a) s =
    if is_stop_event e
    then claim_stop_event env s i (event_activity_cursor a) (some p)
    else claim_event env s i (some p) false

-- The claim of the delivery.
unfoldable pub claim_delivery : Deps → Event → Identity → Payload → State → Steps ClaimResult
unfolding claim_event claim_stop_event event_activity_cursor is_stop_event
claim_delivery deps e i p s =
    if is_repairing deps
    then claim_event deps.env s i (some p) true
    else claim_call deps.env e i p e.activity s

-- The order up to which `abortSessionRuns` is called.
unfoldable pub stops_of : Event → RecoveryOrder → Option RecoveryOrder
unfolding is_stop_event
stops_of e order = if is_stop_event e then some order else none

-- The end of a repair: the claim must have been given back.
abbrev pub repaired : Option RecoveryOrder → Outcome Bool → Handled
repaired stops (ok true) = record { status = 200; stops = stops; work = none; recovers = true }
repaired stops (ok false) = record { status = 503; stops = stops; work = none; recovers = true }
repaired stops (err e) = record { status = 503; stops = stops; work = none; recovers = true }

unfoldable pub with_handled : Option RecoveryOrder → Outcome Bool × State → Handled × State
with_handled stops (o, d) = (repaired stops o, d)

-- After an answer `claimed` that has an order.
unfoldable pub claimed_with : Deps → Event → Identity → State → RecoveryOrder → Handled × State
unfolding release_pre_dispatch_claim mutate is_stop_event
claimed_with deps e i d order =
    if is_repairing deps
    then with_handled (stops_of e order) (
        mutate deps.release_lock deps.release_faults
          (λ s. release_pre_dispatch_claim deps.env s i.webhook_id) d)
    else (
      record {
        status = 200;
        stops = stops_of e order;
        work = some record { event = e; identity = i; order = order };
        recovers = false;
      },
      d,
    )

unfoldable pub refused : Deps → Handled
refused deps = record { status = 503; stops = none; work = none; recovers = is_repairing deps }

unfoldable pub claimed_order :
    Deps → Event → Identity → State → Option RecoveryOrder → Handled × State
unfolding release_pre_dispatch_claim mutate is_stop_event
claimed_order deps e i d none = (refused deps, d)
claimed_order deps e i d (some order) = claimed_with deps e i d order

-- Any other answer: the delivery is known already, which a repair does not expect.
unfoldable pub known : Deps → State → Handled × State
known deps d = if is_repairing deps then (refused deps, d) else (replied 200, d)

unfoldable pub answered_with :
    Deps → Event → Identity → Payload → State → ClaimResult → Disposition → Handled × State
unfolding release_pre_dispatch_claim mutate is_stop_event recovery_order_from_receipt
answered_with deps e i p d a Disposition.claimed =
    claimed_order deps e i d (recovery_order_from_receipt (a.receipt).recovery_sequence p)
answered_with deps e i p d a _ = known deps d

-- The rest of the handler after the claim.
unfoldable pub answered :
    Deps → Event → Identity → Payload → Outcome ClaimResult × State → Handled × State
unfolding release_pre_dispatch_claim mutate is_stop_event recovery_order_from_receipt
answered deps e i p (ok a, d) = answered_with deps e i p d a a.disposition
answered deps e i p (err x, d) = (refused deps, d)

pub seals_nothing :
    (o : Option Payload) (p : Payload) (e : Envelope)
    → ◌≡◌ {A = Option Envelope} none (some e)
    → o ≡ some p
seals_nothing o p e h = ground (arith, h)

-- A vault that is asked to seal a payload whose prompt is no string.
abbrev pub refusing : Vault → Vault
refusing vault = record vault {
  seal_ingress = λ i n p. none;
  open-seal_ingress = λ i n p e h. seals_nothing (vault.open_ingress i n e) p e h;
}

abbrev pub refusing_vault : Option Vault → Option Vault
refusing_vault none = none
refusing_vault (some vault) = some (refusing vault)

-- The surroundings of a claim whose payload the vault refuses: a delivery that the store knows
-- already needs no sealing, and any other is refused.
abbrev pub unsealing : Deps → Deps
unsealing deps = record deps { env = record (deps.env) { vault = refusing_vault (deps.env).vault } }

unfoldable pub with_payload : Deps → Event → Identity → Option Payload → State → Handled × State
unfolding claim_delivery answered mutate unsealed_payload
with_payload deps e i none d = answered deps e i (unsealed_payload (dates_of deps.env) e) (
    mutate deps.lock deps.faults
      (claim_delivery (unsealing deps) e i (unsealed_payload (dates_of deps.env) e)) d)
with_payload deps e i (some p) d =
    answered deps e i p (mutate deps.lock deps.faults (claim_delivery deps e i p) d)

-- The handler from the parsed event on.
unfoldable pub accept_event : Deps → Option Text → Event → State → Handled × State
unfolding claim_delivery answered mutate event_identity recovery_payload
accept_event deps delivery e d =
    with_payload deps e (event_identity e delivery) (recovery_payload (dates_of deps.env) e) d

abbrev pub is_session_event : Option Text → Bool
is_session_event none = false
is_session_event (some t) = same t (text "AgentSessionEvent")

-- A payload that is no event: an error only if it says that it is one.
unfoldable pub ignored : Json → Handled
unfolding as_record field as_string
ignored payload =
    if is_session_event (as_record payload >>= (λ m. field (text "type") m >>= as_string))
    then replied 400
    else replied 200

unfoldable pub with_event : Deps → Option Text → Json → Option Event → State → Handled × State
unfolding accept_event as_record field as_string
with_event deps delivery payload none d = (ignored payload, d)
with_event deps delivery payload (some e) d = accept_event deps delivery e d

unfoldable pub with_json : Deps → Option Text → Option Json → State → Handled × State
unfolding accept_event as_record field as_string has_fresh_webhook_timestamp
    parse_agent_session_event
with_json deps delivery none d = (replied 400, d)
with_json deps delivery (some payload) d =
    if has_fresh_webhook_timestamp payload deps.now
    then with_event deps delivery payload (parse_agent_session_event (dates_of deps.env) payload) d
    else (replied 401, d)

-- `handleWebhook`
unfoldable pub handle_webhook : Deps → Request → State → Handled × State
unfolding accept_event as_record field as_string has_fresh_webhook_timestamp
    parse_agent_session_event verify_webhook_signature
handle_webhook deps request d =
    if verify_webhook_signature deps.node request.raw_body request.signature deps.secret
    then with_json deps request.delivery ((deps.node).parse request.raw_body) d
    else (replied 401, d)

-- ===== src/Webhook/Routes.antt =====
-- `handleRequest` of src/server.ts: which handler a request reaches, and what startup recovery holds
-- back.
use linear_agent_bridge.Base.{
  ℕ, ◌≡◌, refl, ap, ◌∙◌, Bool, true, false, not, ◌&&◌, ◌||◌, Option, none, some, Text, text,
  text_dec, same, if◌then◌else◌, inl, inr, arith,
}
use linear_agent_bridge.Recovery.Types.{Identity, Payload}
use linear_agent_bridge.State.Types.{Disposition, State}
use linear_agent_bridge.State.Claiming.{ClaimResult}
use linear_agent_bridge.State.Disk.{Outcome, ok, err, mutate}
use linear_agent_bridge.Webhook.Event.{Event, event_identity, recovery_payload}
use linear_agent_bridge.Webhook.Runs.{RecoveryOrder, recovery_order_from_receipt}
use linear_agent_bridge.Webhook.Handler.{
  Request, Deps, Handled, replied, dates_of, is_repairing, claim_delivery, answered, with_handled,
  claimed_with, claimed_order, refused, known, answered_with, with_payload, accept_event,
  handle_webhook,
}
use linear_agent_bridge.Webhook.Gate.{handle_webhook-branches}

-- Where a request goes.
pub data Route : Type 0 where
  unavailable health callback webhook missing : Route

-- The three flags of startup recovery, as they are at one moment. `handleRequest` reads them when the
-- request comes; `handleWebhook` reads them again after it has awaited the body of the request, and
-- those are the flags of its `Deps`.
pub record Flags : Type 0 where
  pub dispatch_ready : Bool
  pub recovery_blocked : Bool
  pub recovery_awaiting_redelivery : Bool

abbrev pub flags_of : Deps → Flags
flags_of deps = record {
  dispatch_ready = deps.dispatch_ready;
  recovery_blocked = deps.recovery_blocked;
  recovery_awaiting_redelivery = deps.recovery_awaiting_redelivery;
}

abbrev is_held_back : Flags → Text → Bool
is_held_back flags path =
    flags.recovery_blocked && (same path (text "/healthz") || same path (text "/webhook"))
    || not flags.dispatch_ready
      && (same path (text "/healthz")
          || same path (text "/webhook") && not flags.recovery_awaiting_redelivery)

-- The tests of `handleRequest` on the method and the path of the URL.
unfoldable pub route_of : Flags → Text → Text → Route
route_of flags method path =
    if is_held_back flags path
    then unavailable
    else if same method (text "GET") && same path (text "/healthz")
    then health
    else if same method (text "GET") && same path (text "/oauth/callback")
    then callback
    else if same method (text "POST") && same path (text "/webhook")
    then webhook
    else missing

-- `handleRequest` on a route, with `deps` as they are once the body is read; `callback_status` is the
-- answer of `handleOAuthCallback`, which changes no state of the store.
unfoldable pub follow : Deps → ℕ → Request → State → Route → Handled × State
unfolding handle_webhook
follow deps callback_status request d unavailable = (replied 503, d)
follow deps callback_status request d health = (replied 200, d)
follow deps callback_status request d callback = (replied callback_status, d)
follow deps callback_status request d webhook = handle_webhook deps request d
follow deps callback_status request d missing = (replied 404, d)

-- `handleRequest`, with the flags as they are when the request comes.
unfoldable pub handle_request : Flags → Deps → ℕ → Text → Text → Request → State → Handled × State
unfolding route_of follow
handle_request flags deps callback_status method path request d =
    follow deps callback_status request d (route_of flags method path)

tests :
    (blocked on_health on_webhook ready awaiting get_health get_callback post : Bool)
    → ready ≡ false
    → (if blocked && (on_health || on_webhook)
          || not ready && (on_health || on_webhook && not awaiting)
        then unavailable
        else if get_health
        then health
        else if get_callback
        then callback
        else if post && on_webhook
        then webhook
        else missing)
      ≡ webhook
    → (not ready && (not blocked && awaiting)) ≡ true
tests blocked on_health on_webhook ready awaiting get_health get_callback post h r =
    ground (arith, h, r)

-- Before dispatch is ready, a webhook that is let in is a repair under the same flags.
route_of-webhook :
    (deps : Deps) (method path : Text)
    → deps.dispatch_ready ≡ false
    → route_of (flags_of deps) method path ≡ webhook
    → is_repairing deps ≡ true
unfolding route_of text_dec
route_of-webhook deps method path h r =
    tests deps.recovery_blocked (same path (text "/healthz")) (same path (text "/webhook"))
      deps.dispatch_ready deps.recovery_awaiting_redelivery
      (same method (text "GET") && same path (text "/healthz"))
      (same method (text "GET") && same path (text "/oauth/callback")) (same method (text "POST")) h
      r

module _ (deps : Deps) (e : Event) (i : Identity) (p : Payload) (h : is_repairing deps ≡ true) where
  with_handled-idle :
      (stops : Option RecoveryOrder) (r : Outcome Bool × State)
      → (with_handled stops r).0.work ≡ none
  unfolding with_handled
  with_handled-idle stops (ok true, d) = refl
  with_handled-idle stops (ok false, d) = refl
  with_handled-idle stops (err x, d) = refl

  claimed_order-idle :
      (d : State) (o : Option RecoveryOrder) → (claimed_order deps e i d o).0.work ≡ none
  unfolding claimed_order claimed_with refused
  claimed_order-idle d none = refl
  claimed_order-idle d (some order) = rw h (with_handled-idle _ _)

  known-idle : (d : State) → (known deps d).0.work ≡ none
  unfolding known refused
  known-idle d = rw h refl

  answered_with-idle :
      (d : State) (a : ClaimResult) (x : Disposition)
      → (answered_with deps e i p d a x).0.work ≡ none
  unfolding answered_with
  answered_with-idle d a Disposition.claimed =
      claimed_order-idle d (recovery_order_from_receipt (a.receipt).recovery_sequence p)
  answered_with-idle d a Disposition.received = known-idle d
  answered_with-idle d a Disposition.duplicate = known-idle d
  answered_with-idle d a Disposition.superseded = known-idle d
  answered_with-idle d a Disposition.ambiguous = known-idle d

  answered-idle : (o : Outcome ClaimResult × State) → (answered deps e i p o).0.work ≡ none
  unfolding answered refused
  answered-idle (ok a, d) = answered_with-idle d a a.disposition
  answered-idle (err x, d) = refl

with_payload-idle :
    (deps : Deps) (e : Event) (i : Identity) (o : Option Payload) (d : State)
    → is_repairing deps ≡ true
    → (with_payload deps e i o d).0.work ≡ none
unfolding with_payload refused
with_payload-idle deps e i none d h = answered-idle deps e i _ h _
with_payload-idle deps e i (some p) d h =
    answered-idle deps e i p h (mutate deps.lock deps.faults (claim_delivery deps e i p) d)

handle_webhook-idle :
    (deps : Deps) (request : Request) (d : State)
    → is_repairing deps ≡ true
    → (handle_webhook deps request d).0.work ≡ none
unfolding accept_event
handle_webhook-idle deps request d h = elim (handle_webhook-branches deps request d) [
  | inl (status, e) ↦ ap (λ x. x.0.work) e
  | inr (event, brings, e) ↦
      ap (λ x. x.0.work) e
      ∙ with_payload-idle deps event (event_identity event request.delivery)
          (recovery_payload (dates_of deps.env) event) d h
]

follow-idle :
    (deps : Deps) (callback_status : ℕ) (request : Request) (d : State) (r : Route)
    → (r ≡ webhook → is_repairing deps ≡ true)
    → (follow deps callback_status request d r).0.work ≡ none
unfolding follow
follow-idle deps callback_status request d unavailable f = refl
follow-idle deps callback_status request d health f = refl
follow-idle deps callback_status request d callback f = refl
follow-idle deps callback_status request d webhook f = handle_webhook-idle deps request d (f refl)
follow-idle deps callback_status request d missing f = refl

-- If dispatch is not ready when a request comes, and no flag of startup recovery changes while its
-- body is read, the request schedules no work, whatever it asks for and whatever fails.
pub handle_request-idle :
    (flags : Flags) (deps : Deps) (callback_status : ℕ) (method path : Text) (request : Request)
    (d : State)
    → flags.dispatch_ready ≡ false
    → flags_of deps ≡ flags
    → (handle_request flags deps callback_status method path request d).0.work ≡ none
unfolding handle_request
handle_request-idle flags deps callback_status method path request d h unchanged =
    follow-idle deps callback_status request d (route_of flags method path) (λ r.
      route_of-webhook deps method path (ap (λ x. x.dispatch_ready) unchanged ∙ h)
        (ap (λ x. route_of x method path) unchanged ∙ r))

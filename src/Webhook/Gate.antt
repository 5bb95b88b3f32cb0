-- ===== src/Webhook/Gate.antt =====
-- `handleWebhook` of src/server.ts: what stands between a request and the work that it causes.
use linear_agent_bridge.Base.{
  ℕ, ◌≡◌, ◌≢◌, refl, sym, ap, subst, ◌∙◌, true, false, Option, none, some, [], get_or, lookup, text,
  arith, Bool-cases, Option-cases, inl, inr, ◌⊎◌,
}
use linear_agent_bridge.Base.Options.{◌>>=◌}
use linear_agent_bridge.Json.{Json, field, as_record, as_string}
use linear_agent_bridge.Recovery.Types.{Identity, Payload}
use linear_agent_bridge.State.Types.{Claim, State, Env}
use linear_agent_bridge.State.Claiming.{ClaimResult}
use linear_agent_bridge.Recovery.Payloads.{Dates}
use linear_agent_bridge.State.Disk.{Outcome, ok, err, mutate, mutate-Runs, OnOk}
use linear_agent_bridge.State.Invariant.{Inv}
use linear_agent_bridge.State.Invariant.Claiming.{Good}
use linear_agent_bridge.State.Invariant.Contending.{Granted, IsGrant}
use linear_agent_bridge.Webhook.Verify.{
  verify_webhook_signature, has_fresh_webhook_timestamp, verify_webhook,
}
use linear_agent_bridge.Webhook.Event.{
  Event, parse_agent_session_event, event_identity, recovery_payload, unsealed_payload,
}
use linear_agent_bridge.Webhook.Handler.{
  Request, Deps, Work, Handled, replied, dates_of, claim_delivery, answered, with_payload,
  with_event, with_json, ignored, is_session_event, accept_event, handle_webhook, unsealing,
}
use linear_agent_bridge.Webhook.Settled.{
  watched, claim_delivery-Runs, OnWork, IsHeld, Settled, IsFor, answered-Settled,
}

stale :
    (deps : Deps) (request : Request) (j : Json)
    → verify_webhook_signature deps.node request.raw_body request.signature deps.secret ≡ true
    → (deps.node).parse request.raw_body ≡ some j
    → verify_webhook deps.node request.raw_body request.signature deps.secret deps.now ≡ false
    → has_fresh_webhook_timestamp j deps.now ≡ false
unfolding verify_webhook
stale deps request j e p h = rw (e, p) at h

-- A delivery that `verifyWebhook` refuses changes nothing on disk, causes no work, aborts no run,
-- and is not answered with status 200.
pub handle_webhook-unverified :
    (deps : Deps) (request : Request) (d : State)
    → verify_webhook deps.node request.raw_body request.signature deps.secret deps.now ≡ false
    → (status : ℕ) × (status ≢ 200) × (handle_webhook deps request d ≡ (replied status, d))
unfolding verify_webhook handle_webhook with_json
handle_webhook-unverified deps request d h =
    elim (Bool-cases
      (verify_webhook_signature deps.node request.raw_body request.signature deps.secret)) [
        | inl e ↦ elim (Option-cases ((deps.node).parse request.raw_body)) [
          | inl p ↦ (400, omega arith, rw (e, p) refl)
          | inr (j, p) ↦ (401, omega arith, rw (e, p, stale deps request j e p h) refl)
        ]
        | inr e ↦ (401, omega arith, rw e refl)
      ]

-- The request is authentic and fresh, and brings this event.
abbrev pub Brings : Deps → Request → Event → Type 0
Brings deps request e =
    (verify_webhook deps.node request.raw_body request.signature deps.secret deps.now ≡ true)
    × (j : Json) × ((deps.node).parse request.raw_body ≡ some j)
    × (parse_agent_session_event (dates_of deps.env) j ≡ some e)

-- The payload with which an event is claimed.
abbrev pub claimed_payload : Dates → Event → Payload
claimed_payload dates e = get_or (recovery_payload dates e) (unsealed_payload dates e)

-- What the work that a request causes is.
abbrev pub IsAccepted : Deps → Request → State → Work → Type 0
IsAccepted deps request d w =
    Brings deps request w.event
    × (w.identity ≡ event_identity w.event request.delivery)
    × IsHeld deps.env d (claimed_payload (dates_of deps.env) w.event) w

mapped :
    (P Q : Work → Type 0) (h : Handled) (o : Option Work)
    → ((w : Work) → P w → Q w)
    → elim o as (λ _. Type 0) [ none ↦ Unit {0} | some w ↦ (h.status ≡ 200) × P w ]
    → elim o as (λ _. Type 0) [ none ↦ Unit {0} | some w ↦ (h.status ≡ 200) × Q w ]
mapped P Q h none f work = tt
mapped P Q h (some w) f work = (work.0, f w work.1)

OnWork-map :
    (P Q : Work → Type 0) (h : Handled) → ((w : Work) → P w → Q w) → OnWork P h → OnWork Q h
OnWork-map P Q h f work = mapped P Q h h.work f work

ignored_status :
    (j : Json) (d : State)
    → (status : ℕ) × (◌≡◌ {A = Handled × State} (ignored j, d) (replied status, d))
unfolding ignored
ignored_status j d =
    elim (Bool-cases
      (is_session_event (as_record j >>= (λ m. field (text "type") m >>= as_string)))) [
        | inl t ↦ (400, rw t refl)
        | inr t ↦ (200, rw t refl)
      ]

-- The grant speaks of the process only.
IsGrant-owner :
    (env env' : Env) (i : Identity) (d : State) (a : ClaimResult)
    → env.owner_id ≡ env'.owner_id
    → IsGrant env i d a
    → IsGrant env' i d a
IsGrant-owner env env' i d a own granted h =
    let g = granted h in (g.0, g.1, Granted-owner (lookup i.execution_id d.claims) g.2)
  where
    Granted-owner : (o : Option Claim) → Granted env a.receipt o → Granted env' a.receipt o
    Granted-owner none g = g
    Granted-owner (some c) g = (g.0, g.1 ∙ own, g.2, g.3)

OnOk-owner :
    (env env' : Env) (i : Identity)
    → env.owner_id ≡ env'.owner_id
    → (r : Outcome ClaimResult × State) → OnOk (IsGrant env i) r
    → OnOk (IsGrant env' i) r
OnOk-owner env env' i own (ok a, d) h = IsGrant-owner env env' i d a own h
OnOk-owner env env' i own (err x, d) h = h

module _ (deps : Deps) (request : Request) where
  accepts :
      (d : State) (e : Event) (p : Payload)
      → Brings deps request e
      → claimed_payload (dates_of deps.env) e ≡ p
      → (w : Work) → IsFor e (event_identity e request.delivery) deps.env p d w
      → IsAccepted deps request d w
  accepts d e p brings is w (same_event, same_identity, held) = (
    subst (Brings deps request) (sym same_event) brings,
    same_identity ∙ ap (λ x. event_identity x request.delivery) (sym same_event),
    subst (λ q. IsHeld deps.env d q w)
        (sym (ap (claimed_payload (dates_of deps.env)) same_event ∙ is)) held,
  )

  settle :
      (e : Event) (p : Payload) (r : Handled × State)
      → Brings deps request e
      → claimed_payload (dates_of deps.env) e ≡ p
      → Settled (IsFor e (event_identity e request.delivery) deps.env p) r
      → Settled (IsAccepted deps request) r
  settle e p (h, d) brings is (inv, work) = (
    inv,
    OnWork-map (IsFor e (event_identity e request.delivery) deps.env p d)
        (IsAccepted deps request d) h (accepts d e p brings is) work,
  )

  -- The claim under `claiming`, which may be refused by the vault where `deps` is not.
  claimed-Settled :
      (claiming : Deps) (e : Event) (p : Payload) (d : State)
      → (claiming.env).owner_id ≡ (deps.env).owner_id
      → Inv d
      → Brings deps request e
      → claimed_payload (dates_of deps.env) e ≡ p
      → Settled (IsAccepted deps request) (
          answered deps e (event_identity e request.delivery) p (
            mutate deps.lock deps.faults
              (claim_delivery claiming e (event_identity e request.delivery) p)
              d))
  claimed-Settled claiming e p d own inv brings is =
      let i = event_identity e request.delivery in
      let r = mutate deps.lock deps.faults (claim_delivery claiming e i p) d in
      let run =
        mutate-Runs (Good [] none) (IsGrant claiming.env i) deps.lock deps.faults
          (claim_delivery claiming e i p) d (watched d inv)
          (claim_delivery-Runs claiming e i p d inv) in
      settle e p (answered deps e i p r) brings is
        (answered-Settled deps e i p r run.0.inv (OnOk-owner claiming.env deps.env i own r run.1))

  with_payload-Settled :
      (e : Event) (o : Option Payload) (d : State)
      → Inv d
      → Brings deps request e
      → recovery_payload (dates_of deps.env) e ≡ o
      → Settled
          (IsAccepted deps request)
          (with_payload deps e (event_identity e request.delivery) o d)
  unfolding with_payload
  with_payload-Settled e none d inv brings is =
      claimed-Settled (unsealing deps) e (unsealed_payload (dates_of deps.env) e) d refl inv brings
        (rw is refl)
  with_payload-Settled e (some p) d inv brings is =
      claimed-Settled deps e p d refl inv brings (rw is refl)

  with_ignored :
      (d : State) (j : Json)
      → verify_webhook_signature deps.node request.raw_body request.signature deps.secret ≡ true
      → (deps.node).parse request.raw_body ≡ some j
      → has_fresh_webhook_timestamp j deps.now ≡ true
      → parse_agent_session_event (dates_of deps.env) j ≡ none
      → (status : ℕ) × (handle_webhook deps request d ≡ (replied status, d))
  unfolding handle_webhook with_json with_event ignored
  with_ignored d j e p f n = rw (e, p, f, n) (ignored_status j d)

  -- The handler refuses the request, or goes on with the event that it brings.
  pub handle_webhook-branches :
      (d : State)
      → ((status : ℕ) × (handle_webhook deps request d ≡ (replied status, d)))
        ⊎ ((e : Event) × (Brings deps request e)
            × (handle_webhook deps request d ≡ accept_event deps request.delivery e d))
  unfolding handle_webhook with_json with_event verify_webhook ignored
  handle_webhook-branches d =
      elim (Bool-cases
        (verify_webhook_signature deps.node request.raw_body request.signature deps.secret)) [
          | inr e ↦ inl (401, rw e refl)
          | inl e ↦ elim (Option-cases ((deps.node).parse request.raw_body)) [
            | inl n ↦ inl (400, rw (e, n) refl)
            | inr (j, p) ↦ elim (Bool-cases (has_fresh_webhook_timestamp j deps.now)) [
              | inr f ↦ inl (401, rw (e, p, f) refl)
              | inl f ↦ elim (Option-cases (parse_agent_session_event (dates_of deps.env) j)) [
                | inl n ↦ inl (with_ignored d j e p f n)
                | inr (event, q) ↦ inr (event, ((rw (e, p, f) refl), j, p, q), rw (e, p, f, q) refl)
              ]
            ]
          ]
        ]

  -- On a disk that satisfies the invariant, whatever fails: the handler leaves the invariant; and
  -- work is scheduled only together with status 200, for a request that `verifyWebhook` accepts and
  -- that parses as the event of the work, with the identity of that event, when the disk holds the
  -- receipt of this delivery with that identity, an undispatched claim of its execution by this
  -- process through this delivery, and the work has the place in the order of recovery that this
  -- receipt has.
  pub handle_webhook-IsAccepted :
      (d : State)
      → Inv d
      → Inv (handle_webhook deps request d).1
        × OnWork
            (IsAccepted deps request (handle_webhook deps request d).1)
            (handle_webhook deps request d).0
  unfolding accept_event
  handle_webhook-IsAccepted d inv = elim (handle_webhook-branches d) [
    | inl (status, e) ↦ subst (Settled (IsAccepted deps request)) (sym e) (inv, tt)
    | inr (event, brings, e) ↦
        subst (Settled (IsAccepted deps request)) (sym e) (
          with_payload-Settled event (recovery_payload (dates_of deps.env) event) d inv brings refl)
  ]

-- ===== src/Webhook/Settled.antt =====
-- `handleWebhook` of src/server.ts: what is asked of the handler after its claim, for each branch.
use linear_agent_bridge.Base.{
  ◌≡◌, refl, Bool, true, false, Option, none, some, [], lookup, Bool-cases, inl, inr,
}
use linear_agent_bridge.Recovery.Types.{Identity, Payload}
use linear_agent_bridge.State.Types.{Disposition, Receipt, State, Env}
use linear_agent_bridge.State.Claiming.{ClaimResult}
use linear_agent_bridge.State.Steps.{Runs}
use linear_agent_bridge.State.Disk.{Outcome, ok, err, mutate-Runs, OnOk}
use linear_agent_bridge.State.Invariant.{Inv}
use linear_agent_bridge.State.Invariant.Claiming.{Good}
use linear_agent_bridge.State.Invariant.ClaimEvent.{claim_event-Runs}
use linear_agent_bridge.State.Invariant.Stops.{claim_stop_event-Runs}
use linear_agent_bridge.State.Invariant.Contending.{Granted, IsGrant}
use linear_agent_bridge.State.Invariant.Ending.{IsRelease, release_pre_dispatch_claim-Runs}
use linear_agent_bridge.Webhook.Event.{Event, Activity, is_stop_event, event_activity_cursor}
use linear_agent_bridge.Webhook.Runs.{RecoveryOrder, recovery_order_from_receipt}
use linear_agent_bridge.Webhook.Handler.{
  Deps, Work, Handled, is_repairing, claim_delivery, answered, claim_call, stops_of, with_handled,
  claimed_with, refused, claimed_order, known, answered_with,
}

pub watched : (d : State) → Inv d → Good [] none d
watched d inv = record { inv = inv; kept = tt }

pub claim_call-Runs :
    (env : Env) (e : Event) (i : Identity) (p : Payload) (a : Option Activity) (d : State)
    → Inv d
    → Runs (Good [] none) (IsGrant env i) d (claim_call env e i p a d)
unfolding claim_call
claim_call-Runs env e i p none d inv =
    claim_event-Runs env [] none i (some p) d d false (watched d inv)
claim_call-Runs env e i p (some a) d inv = elim (Bool-cases (is_stop_event e)) [
  | inl s ↦ rw s (
      claim_stop_event-Runs env [] none i (some p) tt d d (event_activity_cursor a) (watched d inv))
  | inr s ↦ rw s (claim_event-Runs env [] none i (some p) d d false (watched d inv))
]

pub claim_delivery-Runs :
    (deps : Deps) (e : Event) (i : Identity) (p : Payload) (d : State)
    → Inv d
    → Runs (Good [] none) (IsGrant deps.env i) d (claim_delivery deps e i p d)
unfolding claim_delivery
claim_delivery-Runs deps e i p d inv = elim (Bool-cases (is_repairing deps)) [
  | inl r ↦ rw r (claim_event-Runs deps.env [] none i (some p) d d true (watched d inv))
  | inr r ↦ rw r (claim_call-Runs deps.env e i p e.activity d inv)
]

-- What is true of scheduled work: the response is 200, and `P` holds of it.
abbrev pub OnWork : (Work → Type 0) → Handled → Type 0
OnWork P h = elim h.work [ none ↦ Unit {0} | some w ↦ (h.status ≡ 200) × P w ]

-- The disk holds the receipt of the work's delivery, under its webhook id and with its identity;
-- this process holds the claim of its execution through it, undispatched; and the work has the place
-- in the order of recovery that this receipt has.
abbrev pub IsHeld : Env → State → Payload → Work → Type 0
IsHeld env d p w =
    (r : Receipt) × (r.identity ≡ w.identity)
    × (lookup (w.identity).webhook_id d.receipts ≡ some r)
    × (Granted env r (lookup (w.identity).execution_id d.claims))
    × (recovery_order_from_receipt r.recovery_sequence p ≡ some w.order)

-- What holds after the handler: the invariant on disk, and of the scheduled work.
abbrev pub Settled : (State → Work → Type 0) → Handled × State → Type 0
Settled P (h, d) = Inv d × OnWork (P d) h

-- The work is what the claim was for.
abbrev pub IsFor : Event → Identity → Env → Payload → State → Work → Type 0
IsFor e i env p d w = (w.event ≡ e) × (w.identity ≡ i) × IsHeld env d p w

module _ (deps : Deps) (e : Event) (i : Identity) (p : Payload) where
  refused-Settled : (d : State) → Inv d → Settled (IsFor e i deps.env p) (refused deps, d)
  unfolding refused
  refused-Settled d inv = (inv, tt)

  known-Settled : (d : State) → Inv d → Settled (IsFor e i deps.env p) (known deps d)
  unfolding known
  known-Settled d inv = elim (Bool-cases (is_repairing deps)) [
    | inl r ↦ rw r (refused-Settled d inv)
    | inr r ↦ rw r (inv, tt)
  ]

  with_handled-Settled :
      (stops : Option RecoveryOrder) (r : Outcome Bool × State)
      → Inv r.1
      → Settled (IsFor e i deps.env p) (with_handled stops r)
  unfolding with_handled
  with_handled-Settled stops (ok true, d) inv = (inv, tt)
  with_handled-Settled stops (ok false, d) inv = (inv, tt)
  with_handled-Settled stops (err x, d) inv = (inv, tt)

  claimed_with-Settled :
      (d : State) (r : Receipt) (order : RecoveryOrder)
      → Inv d
      → r.identity ≡ i
      → lookup i.webhook_id d.receipts ≡ some r
      → Granted deps.env r (lookup i.execution_id d.claims)
      → recovery_order_from_receipt r.recovery_sequence p ≡ some order
      → Settled (IsFor e i deps.env p) (claimed_with deps e i d order)
  unfolding claimed_with
  claimed_with-Settled d r order inv same stored granted same_order =
      elim (Bool-cases (is_repairing deps)) [
        | inl t ↦ rw t (
            with_handled-Settled (stops_of e order) _
              (mutate-Runs (Good [] none) (IsRelease d i.webhook_id) deps.release_lock
                deps.release_faults _ d (watched d inv)
                (release_pre_dispatch_claim-Runs deps.env [] none d i.webhook_id (watched d inv)
                  tt)).0.inv)
        | inr t ↦ rw t (inv, (refl, (refl, refl, (r, same, stored, granted, same_order))))
      ]

  claimed_order-Settled :
      (d : State) (r : Receipt) (o : Option RecoveryOrder)
      → Inv d
      → r.identity ≡ i
      → lookup i.webhook_id d.receipts ≡ some r
      → Granted deps.env r (lookup i.execution_id d.claims)
      → recovery_order_from_receipt r.recovery_sequence p ≡ o
      → Settled (IsFor e i deps.env p) (claimed_order deps e i d o)
  unfolding claimed_order
  claimed_order-Settled d r none inv same stored granted same_order = refused-Settled d inv
  claimed_order-Settled d r (some order) inv same stored granted same_order =
      claimed_with-Settled d r order inv same stored granted same_order

  answered_with-Settled :
      (d : State) (a : ClaimResult) (x : Disposition)
      → Inv d
      → IsGrant deps.env i d a
      → a.disposition ≡ x
      → Settled (IsFor e i deps.env p) (answered_with deps e i p d a x)
  unfolding answered_with
  answered_with-Settled d a Disposition.claimed inv granted is =
      claimed_order-Settled d a.receipt
        (recovery_order_from_receipt (a.receipt).recovery_sequence p) inv (granted is).0
        (granted is).1 (granted is).2 refl
  answered_with-Settled d a Disposition.received inv granted is = known-Settled d inv
  answered_with-Settled d a Disposition.duplicate inv granted is = known-Settled d inv
  answered_with-Settled d a Disposition.superseded inv granted is = known-Settled d inv
  answered_with-Settled d a Disposition.ambiguous inv granted is = known-Settled d inv

  pub answered-Settled :
      (o : Outcome ClaimResult × State)
      → Inv o.1
      → OnOk (IsGrant deps.env i) o
      → Settled (IsFor e i deps.env p) (answered deps e i p o)
  unfolding answered
  answered-Settled (ok a, d) inv granted = answered_with-Settled d a a.disposition inv granted refl
  answered-Settled (err x, d) inv granted = refused-Settled d inv

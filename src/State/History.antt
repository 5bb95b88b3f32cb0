-- ===== src/State/History.antt =====
-- Histories: the calls that any number of processes make on the file of src/state/store.ts, one
-- after another under the lock, with faults and crashes at every step.
use linear_agent_bridge.Base.{
  ◌≡◌, ◌≢◌, refl, Bool, true, Option, none, some, List, [], ◌∷◌, Text, arith, is_some, lookup,
}
use linear_agent_bridge.Recovery.Types.{Identity, Payload}
use linear_agent_bridge.State.Types.{ClaimStatus, Claim, Cursor, State, Env, empty_state}
use linear_agent_bridge.State.Claim.{claim_event}
use linear_agent_bridge.State.Reconcile.{claim_stop_event}
use linear_agent_bridge.State.Invariant.Stops.{claim_stop_event-Runs}
use linear_agent_bridge.State.Dispatch.{
  Ending, Owned, begin_event_dispatch, release_pre_dispatch_claim, terminalize, supersede_event,
}
use linear_agent_bridge.State.Disk.{Fault, LockFault, mutate, mutate-Runs}
use linear_agent_bridge.State.Invariant.{Inv, empty_state-Inv}
use linear_agent_bridge.State.Invariant.Claiming.{Kept, Good}
use linear_agent_bridge.State.Invariant.ClaimEvent.{claim_event-Runs}
use linear_agent_bridge.State.Invariant.Contending.{IsGrant}
use linear_agent_bridge.State.Invariant.Dispatch.{
  Marked, IsStart, OwnedIn, begin_event_dispatch-Runs,
}
use linear_agent_bridge.State.Invariant.Ending.{
  release_pre_dispatch_claim-Runs, terminalize-Runs, supersede_event-Runs,
}

-- A call with its arguments.
pub data Operation : Type 0 where
  claims : (i : Identity) (p : Option Payload) (repair_legacy_only : Bool) → Operation
  claims_stop : (i : Identity) (cursor : Cursor) (p : Option Payload) → Operation
  dispatches : (webhook_id : Text) (cursor : Option Cursor) → Operation
  releases : (webhook_id : Text) → Operation
  ends : (webhook_id : Text) (e : Ending) → Operation
  supersedes : (webhook_id by : Text) → Operation

-- The process and its surroundings, the call, and what fails.
pub record Call : Type 0 where
  pub env : Env
  pub operation : Operation
  pub lock : LockFault
  pub faults : List Fault

unfoldable pub step_operation : Call → Operation → State → State
unfolding mutate
step_operation c (claims i p b) d = (mutate c.lock c.faults (λ s. claim_event c.env s i p b) d).1
step_operation c (claims_stop i cursor p) d =
    (mutate c.lock c.faults (λ s. claim_stop_event c.env s i cursor p) d).1
step_operation c (dispatches webhook_id cursor) d =
    (mutate c.lock c.faults (λ s. begin_event_dispatch c.env s webhook_id cursor) d).1
step_operation c (releases webhook_id) d =
    (mutate c.lock c.faults (λ s. release_pre_dispatch_claim c.env s webhook_id) d).1
step_operation c (ends webhook_id e) d =
    (mutate c.lock c.faults (λ s. terminalize c.env s webhook_id e) d).1
step_operation c (supersedes webhook_id by) d =
    (mutate c.lock c.faults (λ s. supersede_event c.env s webhook_id by) d).1

-- The disk after one call, and after a history of calls.
unfoldable pub step : Call → State → State
unfolding step_operation
step c d = step_operation c c.operation d

unfoldable pub history : List Call → State → State
unfolding step
history [] d = d
history (c ∷ cs) d = history cs (step c d)

-- The call does not end a turn through this delivery.
abbrev pub Spares : Text → Operation → Type 0
Spares webhook_id (ends other e) = other ≢ webhook_id
Spares webhook_id _ = Unit {0}

-- What is asked of the call for the sake of a watched claim: it is marked, and not ended.
abbrev pub Leaves : Option Claim → Operation → Type 0
Leaves none op = Unit {0}
Leaves (some c) op = (is_some c.dispatch_started_at ≡ true) × Spares c.webhook_id op

module _ (k : Text) where
  Leaves-Marked : (w : Option Claim) (op : Operation) → Leaves w op → Marked w
  Leaves-Marked none op h = tt
  Leaves-Marked (some c) op h = h.0

  Leaves-Apart :
      (env : Env) (w : Option Claim) (webhook_id : Text) (e : Ending) (d : State)
      → Good k w d
      → Leaves w (ends webhook_id e)
      → (o : Owned) → OwnedIn env d webhook_id o
      → k ≡ (o.receipt).execution_id
      → w ≡ none
  Leaves-Apart env none webhook_id e d g h o own x = refl
  Leaves-Apart env (some c) webhook_id e d g h o own x =
      absurd (h.1 (ground (arith, g.kept, own.claim_found, own.held)))

  pub step_operation-Good :
      (c : Call) (w : Option Claim) (op : Operation) (d : State)
      → Leaves w op
      → Good k w d
      → Good k w (step_operation c op d)
  unfolding step_operation
  step_operation-Good c w (claims i p b) d h g =
      (mutate-Runs (Good k w) (IsGrant c.env i) c.lock c.faults _ d g
        (claim_event-Runs c.env k w i p d d b g)).0
  step_operation-Good c w (claims_stop i cursor p) d h g =
      (mutate-Runs (Good k w) (IsGrant c.env i) c.lock c.faults _ d g
        (claim_stop_event-Runs c.env k w i p (Leaves-Marked w _ h) d d cursor g)).0
  step_operation-Good c w (dispatches webhook_id cursor) d h g =
      (mutate-Runs (Good k w) (IsStart c.env webhook_id) c.lock c.faults _ d g
        (begin_event_dispatch-Runs c.env k w d webhook_id g cursor (Leaves-Marked w _ h))).0
  step_operation-Good c w (releases webhook_id) d h g =
      (mutate-Runs (Good k w) _ c.lock c.faults _ d g
        (release_pre_dispatch_claim-Runs c.env k w d webhook_id g (Leaves-Marked w _ h))).0
  step_operation-Good c w (ends webhook_id e) d h g =
      (mutate-Runs (Good k w) _ c.lock c.faults _ d g
        (terminalize-Runs c.env k w d webhook_id g e (Leaves-Apart c.env w webhook_id e d g h))).0
  step_operation-Good c w (supersedes webhook_id by) d h g =
      (mutate-Runs (Good k w) _ c.lock c.faults _ d g
        (supersede_event-Runs c.env k w d webhook_id g by (Leaves-Marked w _ h))).0

  -- Every call of a history leaves the watched claim alone.
  abbrev pub AllLeave : Option Claim → List Call → Type 0
  AllLeave w [] = Unit {0}
  AllLeave w (c ∷ cs) = Leaves w c.operation × AllLeave w cs

  pub history-Good :
      (w : Option Claim) (cs : List Call) (d : State)
      → AllLeave w cs
      → Good k w d
      → Good k w (history cs d)
  unfolding history
  history-Good w [] d h g = g
  history-Good w (c ∷ cs) d h g =
      history-Good w cs (step c d) h.1 (step_operation-Good c w c.operation d h.0 g)

AllLeave-none : (k : Text) (cs : List Call) → AllLeave k none cs
AllLeave-none k [] = tt
AllLeave-none k (c ∷ cs) = (tt, AllLeave-none k cs)

-- A history keeps the invariant.
pub history_from-Inv : (cs : List Call) (d : State) → Inv d → Inv (history cs d)
history_from-Inv cs d inv =
    (history-Good [] none cs d (AllLeave-none [] cs) (record { inv = inv; kept = tt })).inv

-- Whatever claims, stop claims, dispatches, releases, endings and supersessions processes call, in
-- whatever order, and wherever they fail or die: on a disk that began empty every receipt stands
-- under its own delivery id, a receipt that was dispatched or is over keeps no sealed payload, and
-- every active claim is held through exactly one receipt, which is claimed, of the same execution
-- and with the same dispatch marker.
pub history-Inv : (cs : List Call) → Inv (history cs empty_state)
history-Inv cs = history_from-Inv cs empty_state empty_state-Inv

-- The watched claim, which has its dispatch marker.
abbrev pub StillRuns : Claim → Option Claim → Type 0
StillRuns c none = ⊥
StillRuns c (some c') =
    (c'.status ≡ ClaimStatus.claimed)
    × (c'.dispatch_started_at ≡ c.dispatch_started_at)
    × (c'.webhook_id ≡ c.webhook_id)
    × (c'.owner_id ≡ c.owner_id)

StillRuns-Kept :
    (c : Claim) (o : Option Claim)
    → is_some c.dispatch_started_at ≡ true
    → Kept (some c) o
    → StillRuns c o
StillRuns-Kept c none m h = absurd h
StillRuns-Kept c (some c') m h = (h.0, h.1, h.2 m, h.3 m)

-- On a disk that satisfies the invariant, once an execution is dispatched, no history of such calls
-- of any processes, faults and crashes included, lets another delivery or process have it: as long
-- as no call ends the delivery that holds it, its claim stays active under the same delivery and
-- owner, with the same marker.
pub history-StillRuns :
    (k : Text) (c : Claim) (cs : List Call) (d : State)
    → Inv d
    → lookup k d.claims ≡ some c
    → c.status ≡ ClaimStatus.claimed
    → is_some c.dispatch_started_at ≡ true
    → AllLeave k (some c) cs
    → StillRuns c (lookup k (history cs d).claims)
history-StillRuns k c cs d inv found active marked leave =
    StillRuns-Kept c _ marked
      (history-Good k (some c) cs d leave (record { inv = inv; kept = ground (arith, found) })).kept

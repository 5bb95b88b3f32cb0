-- ===== src/Webhook/Begin.antt =====
-- The dispatch boundary of `processClaimedWebhook` in src/server.ts: its calls of the store before
-- anything is emitted or enqueued.
use linear_agent_bridge.Base.{Bool, true, false, Option, none, List, [], Text}
use linear_agent_bridge.State.Types.{Cursor, State, Env, Error}
use linear_agent_bridge.State.Dispatch.{
  DispatchStart, begin_event_dispatch, release_pre_dispatch_claim,
}
use linear_agent_bridge.State.Disk.{Fault, LockFault, Outcome, ok, err, mutate, mutate-Runs, OnOk}
use linear_agent_bridge.State.Invariant.{Inv}
use linear_agent_bridge.State.Invariant.Claiming.{Good}
use linear_agent_bridge.State.Invariant.Dispatch.{IsStart, begin_event_dispatch-Runs}
use linear_agent_bridge.State.Invariant.Ending.{IsRelease, release_pre_dispatch_claim-Runs}

-- A call of the store with what fails in it.
pub record Attempt : Type 0 where
  pub lock : LockFault
  pub faults : List Fault

-- How the boundary is left: the marker is written and the event goes on, the event was superseded,
-- or an exception is thrown: `PreDispatchClaimReleasedError`, or that of the second attempt.
pub data Crossing : Type 0 where
  crossed turned_back released : Crossing
  failed : Error → Crossing

abbrev pub of_start : DispatchStart → Crossing
of_start DispatchStart.dispatch_started = crossed
of_start DispatchStart.superseded = turned_back

unfoldable pub begins : Env → Text → Option Cursor → Attempt → State → Outcome DispatchStart × State
unfolding begin_event_dispatch mutate
begins env webhook_id cursor a d =
    mutate a.lock a.faults (λ s. begin_event_dispatch env s webhook_id cursor) d

unfoldable pub releases : Env → Text → Attempt → State → Outcome Bool × State
unfolding release_pre_dispatch_claim mutate
releases env webhook_id a d =
    mutate a.lock a.faults (λ s. release_pre_dispatch_claim env s webhook_id) d

-- The second attempt.
abbrev pub after_second : Outcome DispatchStart × State → Crossing × State
after_second (ok x, d) = (of_start x, d)
after_second (err e, d) = (failed e, d)

-- After `releasePreDispatchClaim`, whose own failure counts as a release.
unfoldable pub after_release :
    Env → Text → Option Cursor → Attempt → Outcome Bool × State → Crossing × State
unfolding begins
after_release env webhook_id cursor third (ok true, d) = (released, d)
after_release env webhook_id cursor third (ok false, d) =
    after_second (begins env webhook_id cursor third d)
after_release env webhook_id cursor third (err e, d) = (released, d)

unfoldable pub after_first :
    Env
    → Text
    → Option Cursor
    → (second third : Attempt) → Outcome DispatchStart × State
    → Crossing × State
unfolding releases after_release
after_first env webhook_id cursor second third (ok x, d) = (of_start x, d)
after_first env webhook_id cursor second third (err e, d) =
    after_release env webhook_id cursor third (releases env webhook_id second d)

-- The boundary, with the attempts at its up to three calls.
unfoldable pub cross_dispatch_boundary :
    Env → Text → Option Cursor → (first second third : Attempt) → State → Crossing × State
unfolding begins after_first
cross_dispatch_boundary env webhook_id cursor first second third d =
    after_first env webhook_id cursor second third (begins env webhook_id cursor first d)

-- What leaving the boundary says of the disk.
abbrev pub IsLeft : Env → Text → State → Crossing → Type 0
IsLeft env webhook_id d crossed = IsStart env webhook_id d DispatchStart.dispatch_started
IsLeft env webhook_id d turned_back = IsStart env webhook_id d DispatchStart.superseded
IsLeft env webhook_id d released = Unit {0}
IsLeft env webhook_id d (failed e) = Unit {0}

abbrev Leaves : Env → Text → Crossing × State → Type 0
Leaves env webhook_id (b, d) = Inv d × IsLeft env webhook_id d b

module _ (env : Env) (webhook_id : Text) (cursor : Option Cursor) where
  watched : (d : State) → Inv d → Good [] none d
  watched d inv = record { inv = inv; kept = tt }

  of_start-IsLeft :
      (d : State) (x : DispatchStart)
      → IsStart env webhook_id d x
      → IsLeft env webhook_id d (of_start x)
  of_start-IsLeft d DispatchStart.dispatch_started h = h
  of_start-IsLeft d DispatchStart.superseded h = h

  begins-IsStart :
      (a : Attempt) (d : State)
      → Inv d
      → Good [] none (begins env webhook_id cursor a d).1
        × OnOk (IsStart env webhook_id) (begins env webhook_id cursor a d)
  unfolding begins
  begins-IsStart a d inv =
      mutate-Runs (Good [] none) (IsStart env webhook_id) a.lock a.faults _ d (watched d inv)
        (begin_event_dispatch-Runs env [] none d webhook_id (watched d inv) cursor tt)

  after_second-Leaves :
      (r : Outcome DispatchStart × State)
      → Inv r.1
      → OnOk (IsStart env webhook_id) r
      → Leaves env webhook_id (after_second r)
  after_second-Leaves (ok x, d) inv h = (inv, of_start-IsLeft d x h)
  after_second-Leaves (err e, d) inv h = (inv, tt)

  after_release-Leaves :
      (third : Attempt) (r : Outcome Bool × State)
      → Inv r.1
      → Leaves env webhook_id (after_release env webhook_id cursor third r)
  unfolding after_release
  after_release-Leaves third (ok true, d) inv = (inv, tt)
  after_release-Leaves third (ok false, d) inv =
      let (good, started) = begins-IsStart third d inv in
      after_second-Leaves (begins env webhook_id cursor third d) good.inv started
  after_release-Leaves third (err e, d) inv = (inv, tt)

  after_first-Leaves :
      (second third : Attempt) (r : Outcome DispatchStart × State)
      → Inv r.1
      → OnOk (IsStart env webhook_id) r
      → Leaves env webhook_id (after_first env webhook_id cursor second third r)
  unfolding after_first releases
  after_first-Leaves second third (ok x, d) inv h = (inv, of_start-IsLeft d x h)
  after_first-Leaves second third (err e, d) inv h =
      after_release-Leaves third (releases env webhook_id second d)
        (mutate-Runs (Good [] none) (IsRelease d webhook_id) second.lock second.faults _ d
          (watched d inv)
          (release_pre_dispatch_claim-Runs env [] none d webhook_id (watched d inv) tt)).0.inv

  -- On a disk that satisfies the invariant, whatever fails in its calls: the dispatch boundary leaves
  -- the invariant; the event goes on only when the disk holds an active claim of this process with
  -- its dispatch marker; and it is dropped as superseded only when the claim is over and never had a
  -- marker.
  pub cross_dispatch_boundary-IsLeft :
      (first second third : Attempt) (d : State)
      → Inv d
      → Inv (cross_dispatch_boundary env webhook_id cursor first second third d).1
        × IsLeft env webhook_id
            (cross_dispatch_boundary env webhook_id cursor first second third d).1
            (cross_dispatch_boundary env webhook_id cursor first second third d).0
  unfolding cross_dispatch_boundary
  cross_dispatch_boundary-IsLeft first second third d inv =
      let (good, started) = begins-IsStart first d inv in
      after_first-Leaves second third (begins env webhook_id cursor first d) good.inv started

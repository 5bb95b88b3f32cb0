-- ===== src/State/Answers.antt =====
-- What a caller may conclude from an answer of src/state/store.ts, whatever fails on the way.
use linear_agent_bridge.Base.{Bool, Option, none, List, [], Text}
use linear_agent_bridge.Recovery.Types.{Identity, Payload}
use linear_agent_bridge.State.Types.{Cursor, State, Env}
use linear_agent_bridge.State.Claim.{claim_event}
use linear_agent_bridge.State.Dispatch.{begin_event_dispatch, release_pre_dispatch_claim}
use linear_agent_bridge.State.Disk.{Fault, LockFault, mutate, mutate-Runs, OnOk}
use linear_agent_bridge.State.Invariant.{Inv}
use linear_agent_bridge.State.Invariant.Claiming.{Good}
use linear_agent_bridge.State.Invariant.ClaimEvent.{claim_event-Runs}
use linear_agent_bridge.State.Invariant.Contending.{IsGrant}
use linear_agent_bridge.State.Invariant.Dispatch.{IsStart, begin_event_dispatch-Runs}
use linear_agent_bridge.State.Invariant.Ending.{IsRelease, release_pre_dispatch_claim-Runs}

module _ (env : Env) (l : LockFault) (faults : List Fault) (d : State) (inv : Inv d) where
  unwatched : Good [] none d
  unwatched = record { inv = inv; kept = tt }

  -- On a disk that satisfies the invariant, an answer `claimed` of `claimEvent` for a delivery is
  -- given only with a receipt of that delivery's whole identity, which is the one on disk under its
  -- webhook id, and only when the disk holds an active claim of the delivery's execution that is
  -- owned by this process, is held through this delivery, and has no dispatch marker.
  pub claim_event-IsGrant :
      (i : Identity) (p : Option Payload) (repair_legacy_only : Bool)
      → OnOk (IsGrant env i) (mutate l faults (λ s. claim_event env s i p repair_legacy_only) d)
  claim_event-IsGrant i p b =
      (mutate-Runs (Good [] none) (IsGrant env i) l faults _ d unwatched
        (claim_event-Runs env [] none i p d d b unwatched)).1

  -- On a disk that satisfies the invariant, `beginEventDispatch` answers `dispatch_started` only
  -- when the delivery's execution has an active claim of this process with its dispatch marker on
  -- disk, and `superseded` only when that claim is over and never had a marker.
  pub begin_event_dispatch-IsStart :
      (webhook_id : Text) (cursor : Option Cursor)
      → OnOk
          (IsStart env webhook_id)
          (mutate l faults (λ s. begin_event_dispatch env s webhook_id cursor) d)
  begin_event_dispatch-IsStart webhook_id cursor =
      (mutate-Runs (Good [] none) (IsStart env webhook_id) l faults _ d unwatched
        (begin_event_dispatch-Runs env [] none d webhook_id unwatched cursor tt)).1

  -- On a disk that satisfies the invariant, `releasePreDispatchClaim` answers `true` only when the
  -- receipt is back in the state `received`, without a dispatch marker, and its execution has no
  -- claim; it answers `false` only when it wrote nothing.
  pub release_pre_dispatch_claim-IsRelease :
      (webhook_id : Text)
      → OnOk
          (IsRelease d webhook_id)
          (mutate l faults (λ s. release_pre_dispatch_claim env s webhook_id) d)
  release_pre_dispatch_claim-IsRelease webhook_id =
      (mutate-Runs (Good [] none) (IsRelease d webhook_id) l faults _ d unwatched
        (release_pre_dispatch_claim-Runs env [] none d webhook_id unwatched tt)).1

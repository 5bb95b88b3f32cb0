-- ===== src/State/Claiming.antt =====
-- `claimEventInState` of src/state/store.ts with what it calls: a delivery is received, and is
-- granted the execution, or turned away as a duplicate, superseded or ambiguous.
use linear_agent_bridge.Base.{
  ℕ, Bool, true, false, not, ◌&&◌, ◌||◌, Option, none, some, [], ◌∷◌, ◌++◌, Text, length, same,
  lookup, put, any, leb, if◌then◌else◌, is_some,
}
use linear_agent_bridge.Recovery.Types.{Identity, Payload, created_payload, prompted_payload}
use linear_agent_bridge.State.Types.{
  IngressStatus, Disposition, Receipt, ClaimStatus, Claim, Goal, State, Env, Error,
}
use linear_agent_bridge.State.Steps.{Steps, done, throw, write, or_throw, ◌>>=◌}
use linear_agent_bridge.State.Checks.{
  is_created, is_final, clear_recovery_envelope, accepted_outcome, ambiguous_outcome, retry_outcome,
  not_dispatched_outcome, max_activity_ids_per_claim,
}
use linear_agent_bridge.State.Prune.{prune, is_finished}
use linear_agent_bridge.State.Sequence.{create_recovery_envelope, record_recovery_stop_fence}

-- `ClaimEventResult`
pub record ClaimResult : Type 0 where
  pub disposition : Disposition
  pub receipt : Receipt

abbrev pub put_receipt : Receipt → State → State
put_receipt r s = record s { receipts = put r.webhook_id r s.receipts }

abbrev pub put_claim : Claim → State → State
put_claim c s = record s { claims = put c.execution_id c s.claims }

abbrev pub is_received : IngressStatus → Bool
is_received IngressStatus.received = true
is_received _ = false

abbrev pub is_claimed : IngressStatus → Bool
is_claimed IngressStatus.claimed = true
is_claimed _ = false

-- `status` is `received`, or `claimed` before its dispatch: the work has not been handed out.
abbrev pub awaits_dispatch : Receipt → Bool
awaits_dispatch r =
    is_received r.status || (is_claimed r.status && not (is_some r.dispatch_started_at))

-- What the option `repairLegacyOnly` asks of the receipt that is there.
abbrev pub is_repairable : Option Receipt → Bool
is_repairable none = false
is_repairable (some r) =
    not (is_some r.recovery_envelope)
    && (not (is_some r.recovery_sequence)
        && (not (is_some r.dispatch_started_at) && (is_received r.status || is_claimed r.status)))

abbrev pub new_receipt : Env → Identity → Receipt
new_receipt env i = record {
  identity = i;
  status = IngressStatus.received;
  owner_id = none;
  received_at = env.now;
  updated_at = env.now;
  claimed_at = none;
  completed_at = none;
  failed_at = none;
  superseded_at = none;
  superseded_by_webhook_id = none;
  dispatch_started_at = none;
  recovery_sequence = none;
  recovery_envelope = none;
  outcome = retry_outcome;
}

-- A delivery seen for the first time is written as `received`, with its payload sealed.
unfoldable pub register : Env → State → Identity → Option Payload → Steps (State × Receipt)
unfolding create_recovery_envelope record_recovery_stop_fence
register env s i none =
    let r = new_receipt env i in write (put_receipt r s) (done (put_receipt r s, r))
register env s i (some p) = do
  recovery ← or_throw (create_recovery_envelope env s i p true) Error.recovery_envelope
  let fenced = record_recovery_stop_fence env recovery.state i p recovery.sequence
  let r = record (new_receipt env i) {
    recovery_sequence = some recovery.sequence;
    recovery_envelope = some recovery.envelope;
  }
  write (put_receipt r fenced) (done (put_receipt r fenced, r))

-- `Object.assign(receipt, recovery)`, and the stop fence.
unfoldable pub seal_again : Env → State → Identity → Payload → Receipt → Steps (State × Receipt)
unfolding create_recovery_envelope record_recovery_stop_fence
seal_again env s i p r = do
  recovery ← or_throw (create_recovery_envelope env s i p false) Error.recovery_envelope
  let r' = record r {
    recovery_sequence = some recovery.sequence;
    recovery_envelope = some recovery.envelope;
  }
  done (record_recovery_stop_fence env (put_receipt r' recovery.state) i p recovery.sequence, r')

-- A receipt that was left without an envelope gets one while its work is not handed out.
unfoldable pub attach_recovery :
    Env → State → Identity → Option Payload → Receipt → Steps (State × Receipt)
unfolding seal_again
attach_recovery env s i none r = done (s, r)
attach_recovery env s i (some p) r =
    if not (is_some r.recovery_envelope) && awaits_dispatch r
    then seal_again env s i p r
    else done (s, r)

-- The receipt of a delivery that is not dispatched because `by` is.
unfoldable pub mark_superseded : ℕ → Text → Receipt → Receipt
unfolding clear_recovery_envelope
mark_superseded timestamp by r = record (clear_recovery_envelope r) {
  status = IngressStatus.superseded;
  superseded_at = some timestamp;
  superseded_by_webhook_id = some by;
  updated_at = timestamp;
  outcome = not_dispatched_outcome Disposition.superseded;
}

-- The receipt of a delivery that is granted its execution.
unfoldable pub mark_claimed : Env → Receipt → Receipt
mark_claimed env r = record r {
  status = IngressStatus.claimed;
  owner_id = some env.owner_id;
  claimed_at = some env.now;
  updated_at = env.now;
  outcome = accepted_outcome;
}

abbrev pub supersede_prior : Env → Receipt → Option Receipt → State → State
supersede_prior env r none s = s
supersede_prior env r (some prior) s =
    if same prior.webhook_id r.webhook_id
    then s
    else put_receipt (mark_superseded env.now r.webhook_id prior) s

-- The claim of another process that never dispatched is taken over by this delivery.
unfoldable pub take_over : Env → State → Receipt → Claim → Steps ClaimResult
unfolding mark_superseded mark_claimed
take_over env s r c =
    let freed = supersede_prior env r (lookup c.webhook_id s.receipts) s in
    let r' = mark_claimed env r in
    let c' = record c {
      webhook_id = r.webhook_id;
      owner_id = env.owner_id;
      claimed_at = env.now;
      updated_at = env.now;
      recovery_sequence =
          if is_some r.recovery_sequence then r.recovery_sequence else c.recovery_sequence;
      dispatch_started_at = none;
    } in
    write (put_claim c' (put_receipt r' freed))
      (done (record { disposition = Disposition.claimed; receipt = r' }))

-- Another process has dispatched the execution, and its fate is not known.
unfoldable pub report_ambiguous : Env → State → Receipt → Claim → Steps ClaimResult
unfolding mark_superseded clear_recovery_envelope
report_ambiguous env s r c =
    let cleared = clear_recovery_envelope r in
    let r' =
      if same c.webhook_id r.webhook_id
      then record cleared {
        status = IngressStatus.claimed;
        updated_at = env.now;
        outcome = ambiguous_outcome;
      }
      else record (mark_superseded env.now c.webhook_id cleared) { outcome = ambiguous_outcome } in
    write (put_receipt r' s) (done (record { disposition = Disposition.ambiguous; receipt = r' }))

-- The execution is this process's already, or is over.
unfoldable pub turn_away : Env → State → Receipt → Claim → Steps ClaimResult
unfolding mark_superseded
turn_away env s r c =
    let r' = mark_superseded env.now c.webhook_id r in
    write (prune env (put_receipt r' s))
      (done (record { disposition = Disposition.superseded; receipt = r' }))

abbrev pub is_active_elsewhere : Env → Claim → Bool
is_active_elsewhere env c = not (is_finished c.status) && not (same c.owner_id env.owner_id)

-- The branches on `existingClaim`.
unfoldable pub contend : Env → State → Receipt → Claim → Steps ClaimResult
unfolding take_over report_ambiguous turn_away
contend env s r c =
    if is_active_elsewhere env c
    then if is_some c.dispatch_started_at then report_ambiguous env s r c else take_over env s r c
    else turn_away env s r c

-- A prompt that is no stop asks for guidance; a created event does not.
abbrev pub is_guidance : Identity → Option Payload → Bool
is_guidance i none = false
is_guidance i (some (created_payload prompt at issue)) = false
is_guidance i (some (prompted_payload prompt at signal stop)) =
    not (is_created i.action) && not stop

abbrev pub takes_guidance : Text → Goal → Bool
takes_guidance execution_id g =
    not (is_final g.status) && not (any (same execution_id) g.pending_guidance_ids)

abbrev pub add_guidance : Env → Identity → Option Goal → State → Steps State
add_guidance env i none s = done s
add_guidance env i (some g) s =
    if takes_guidance i.execution_id g
    then if leb max_activity_ids_per_claim (length g.pending_guidance_ids)
      then throw Error.too_many_entries
      else done (record s {
        autonomous_goals =
            put i.linear_session_id
              (record g {
                pending_guidance_ids = g.pending_guidance_ids ++ i.execution_id ∷ [];
                updated_at = env.now;
              })
              s.autonomous_goals;
      })
    else done s

-- `recordAutonomousGuidanceInState`
unfoldable pub record_autonomous_guidance : Env → State → Identity → Option Payload → Steps State
record_autonomous_guidance env s i payload =
    if is_guidance i payload
    then add_guidance env i (lookup i.linear_session_id s.autonomous_goals) s
    else done s

abbrev pub new_claim : Env → Identity → Receipt → Claim
new_claim env i r = record {
  execution_id = i.execution_id;
  webhook_id = i.webhook_id;
  linear_session_id = i.linear_session_id;
  action = i.action;
  status = ClaimStatus.claimed;
  owner_id = env.owner_id;
  claimed_at = env.now;
  updated_at = env.now;
  recovery_sequence = r.recovery_sequence;
  dispatch_started_at = none;
  activity_ids = [];
}

-- The first claim of an execution.
unfoldable pub grant : Env → State → Identity → Option Payload → Receipt → Steps ClaimResult
unfolding mark_claimed record_autonomous_guidance
grant env s i payload r = do
  let r' = mark_claimed env r
  guided ←
      record_autonomous_guidance env (put_claim (new_claim env i r) (put_receipt r' s)) i payload
  write (prune env guided) (done (record { disposition = Disposition.claimed; receipt = r' }))

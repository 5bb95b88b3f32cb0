-- ===== src/State/Dispatch.antt =====
-- The life of a granted claim in src/state/store.ts: its dispatch marker, its release, its end, and
-- the ids of the activities that it posts.
use linear_agent_bridge.Base.{
  Bool, true, false, not, ◌&&◌, ◌||◌, Option, none, some, Text, length, same, lookup, put, text, [],
  ◌++◌, remove, keys, leb, if◌then◌else◌, is_some,
}
use linear_agent_bridge.State.Types.{
  IngressStatus, Disposition, ReceiptErrorClass, OutcomeResult, Receipt, ClaimStatus, Claim, Cursor,
  Session, Fence, State, Env, Error,
}
use linear_agent_bridge.State.Steps.{Steps, done, throw, write, throw_if, or_throw, ◌>>=◌, ◌>>◌}
use linear_agent_bridge.State.Checks.{
  validate_identifier, validate_cursor, compare_cursors, at_most, is_created,
  is_valid_recovery_stop_fence, clear_recovery_envelope, retry_outcome, max_identifier_length,
  max_execution_id_length, max_activity_key_length, max_activity_ids_per_claim,
}
use linear_agent_bridge.State.Prune.{prune, is_finished}
use linear_agent_bridge.State.Sequence.{receipt_is_at_or_before_fence}
use linear_agent_bridge.State.Claiming.{put_receipt, put_claim, is_claimed, mark_superseded}

pub record Owned : Type 0 where
  pub claim : Claim
  pub receipt : Receipt

-- The claim is active, is this process's, and is held through this delivery.
abbrev pub is_owned : Env → Text → Claim → Bool
is_owned env webhook_id c =
    same c.webhook_id webhook_id && (not (is_finished c.status) && same c.owner_id env.owner_id)

unfoldable pub owned_active_claim : Env → State → Text → Steps Owned
owned_active_claim env s webhook_id = do
  r ← or_throw (lookup webhook_id s.receipts) Error.claim_ownership
  throw_if (not (is_claimed r.status)) Error.claim_ownership
  c ← or_throw (lookup r.execution_id s.claims) Error.claim_ownership
  throw_if (not (is_owned env webhook_id c)) Error.claim_ownership
  done (record { claim = c; receipt = r })

-- `supersedeOwnedActiveClaimInState`
unfoldable pub supersede_owned : Env → State → Text → Text → Steps State
unfolding owned_active_claim mark_superseded
supersede_owned env s webhook_id by = do
  o ← owned_active_claim env s webhook_id
  throw_if (is_some o.claim.dispatch_started_at) Error.dispatch_already_started
  let c' = record o.claim { status = ClaimStatus.completed; updated_at = env.now }
  done (put_claim c' (put_receipt (mark_superseded env.now by o.receipt) s))

-- The receipt whose turn starts: its payload is deleted with the same write.
unfoldable pub dispatched_receipt : Env → Receipt → Receipt
unfolding clear_recovery_envelope
dispatched_receipt env r = record (clear_recovery_envelope r) {
  dispatch_started_at = some env.now;
  updated_at = env.now;
  outcome = record {
    unavailable = false;
    result = OutcomeResult.dispatch_started;
    disposition = Disposition.claimed;
    error_class = none;
  };
}

-- `markDispatchStartedInState`
unfoldable pub mark_dispatch_started : Env → State → Claim → Receipt → State
unfolding dispatched_receipt
mark_dispatch_started env s c r =
    let c' = record c { dispatch_started_at = some env.now; updated_at = env.now } in
    put_claim c' (put_receipt (dispatched_receipt env r) s)

-- `DispatchStartDisposition`
pub data DispatchStart : Type 0 where
  dispatch_started superseded : DispatchStart

-- The cursor is there and does not name the prompt that is dispatched.
abbrev pub is_foreign_cursor : Receipt → Option Cursor → Bool
is_foreign_cursor r none = false
is_foreign_cursor r (some c) = is_created r.action || not (same r.execution_id c.id)

-- A stop of another execution, at or after this event in recovery order.
unfoldable pub is_fenced_for_recovery : Env → Receipt → Option Fence → Steps Bool
unfolding receipt_is_at_or_before_fence
is_fenced_for_recovery env r none = done false
is_fenced_for_recovery env r (some f) = do
  throw_if (not (is_valid_recovery_stop_fence env f)) Error.recovery_envelope
  if same f.execution_id r.execution_id
      then done false
      else or_throw (receipt_is_at_or_before_fence env r f) Error.recovery_envelope

-- `reconcile:<id>` of a session's stop fence.
abbrev pub reconcile_prefix : Text → Text
reconcile_prefix id = text "reconcile:" ++ id

abbrev pub session_stop_fence : Option Session → Option Cursor
session_stop_fence none = none
session_stop_fence (some session) = session.stop_fence

-- The stop fence of reconciliation that lies at or after the cursor.
abbrev pub fence_at_or_after : Env → Option Cursor → Option Cursor → Option Cursor
fence_at_or_after env none fence = none
fence_at_or_after env (some c) none = none
fence_at_or_after env (some c) (some f) = if at_most (compare_cursors env c f) then some f else none

-- The event is turned away on behalf of `by`.
abbrev pub turn_back : Env → State → Text → Text → Steps DispatchStart
turn_back env s webhook_id by = do
  s' ← supersede_owned env s webhook_id by
  write s' (done DispatchStart.superseded)

-- The tail of `beginEventDispatch`: the marker, or the fence of reconciliation.
abbrev pub dispatch_unless_fenced : Env → State → Text → Owned → Option Cursor → Steps DispatchStart
dispatch_unless_fenced env s webhook_id o none =
    write (mark_dispatch_started env s o.claim o.receipt) (done DispatchStart.dispatch_started)
dispatch_unless_fenced env s webhook_id o (some fence) =
    turn_back env s webhook_id (reconcile_prefix fence.id)

abbrev pub fence_webhook_id : Option Fence → Text
fence_webhook_id none = []
fence_webhook_id (some f) = f.webhook_id

-- `beginEventDispatch` for a claim without its marker.
unfoldable pub start_dispatch : Env → State → Text → Option Cursor → Owned → Steps DispatchStart
unfolding is_fenced_for_recovery supersede_owned mark_dispatch_started compare_cursors
start_dispatch env s webhook_id cursor o = do
  throw_if (is_foreign_cursor o.receipt cursor) Error.cursor_mismatch
  let session = o.receipt.linear_session_id
  let fence = lookup session s.recovery_stop_fences
  fenced ← is_fenced_for_recovery env o.receipt fence
  if fenced
      then turn_back env s webhook_id (fence_webhook_id fence)
      else dispatch_unless_fenced env s webhook_id o (
          fence_at_or_after env cursor
            (session_stop_fence (lookup session s.reconciliation_sessions)))

abbrev pub validate_optional_cursor : Env → Option Cursor → Steps (Unit {0})
validate_optional_cursor env none = done tt
validate_optional_cursor env (some c) = validate_cursor env c

unfoldable pub begin_event_dispatch : Env → State → Text → Option Cursor → Steps DispatchStart
unfolding validate_identifier validate_cursor owned_active_claim start_dispatch
begin_event_dispatch env s webhook_id cursor = do
  validate_identifier webhook_id max_identifier_length
  validate_optional_cursor env cursor
  o ← owned_active_claim env s webhook_id
  if is_some o.claim.dispatch_started_at
      then done DispatchStart.dispatch_started
      else start_dispatch env s webhook_id cursor o

-- The claim is given back, and the receipt waits for a retry.
unfoldable pub release_pre_dispatch_claim : Env → State → Text → Steps Bool
unfolding validate_identifier owned_active_claim
release_pre_dispatch_claim env s webhook_id = do
  validate_identifier webhook_id max_identifier_length
  o ← owned_active_claim env s webhook_id
  let r' = record o.receipt {
    status = IngressStatus.received;
    updated_at = env.now;
    owner_id = none;
    claimed_at = none;
    dispatch_started_at = none;
    outcome = retry_outcome;
  }
  let s' = record (put_receipt r' s) { claims = remove o.claim.execution_id s.claims }
  if is_some o.claim.dispatch_started_at then done false else write s' (done true)

-- `status` of `terminalize` with the error class of a failure.
pub data Ending : Type 0 where
  completing : Ending
  failing : ReceiptErrorClass → Ending

abbrev pub end_receipt : Env → Ending → Receipt → Receipt
end_receipt env completing r = record r {
  status = IngressStatus.completed;
  updated_at = env.now;
  completed_at = some env.now;
  failed_at = none;
  outcome = record {
    unavailable = false;
    result = OutcomeResult.completed;
    disposition = Disposition.claimed;
    error_class = none;
  };
}
end_receipt env (failing e) r = record r {
  status = IngressStatus.failed;
  updated_at = env.now;
  completed_at = none;
  failed_at = some env.now;
  outcome = record {
    unavailable = false;
    result = OutcomeResult.processing_failed;
    disposition = Disposition.claimed;
    error_class = some e;
  };
}

abbrev pub ending_status : Ending → ClaimStatus
ending_status completing = ClaimStatus.completed
ending_status (failing e) = ClaimStatus.failed

-- `completeEvent` and `failEvent`.
unfoldable pub terminalize : Env → State → Text → Ending → Steps (Unit {0})
unfolding validate_identifier owned_active_claim
terminalize env s webhook_id ending = do
  validate_identifier webhook_id max_identifier_length
  o ← owned_active_claim env s webhook_id
  throw_if (not (is_some o.claim.dispatch_started_at)) Error.dispatch_not_started
  let r' = end_receipt env ending o.receipt
  let c' = record o.claim { status = ending_status ending; updated_at = env.now }
  write (prune env (put_claim c' (put_receipt r' s))) (done tt)

-- `supersedeEvent`
unfoldable pub supersede_event : Env → State → Text → Text → Steps (Unit {0})
unfolding validate_identifier supersede_owned
supersede_event env s webhook_id by = do
  validate_identifier webhook_id max_identifier_length
  validate_identifier by max_identifier_length
  s' ← supersede_owned env s webhook_id by
  write s' (done tt)

abbrev pub activity_id : Env → State → Claim → Text → Text → Option Text → Steps Text
activity_id env s c activity_key fresh (some existing) = done existing
activity_id env s c activity_key fresh none =
    if leb max_activity_ids_per_claim (length (keys c.activity_ids))
    then throw Error.too_many_entries
    else write
        (put_claim
          (record c { activity_ids = put activity_key fresh c.activity_ids; updated_at = env.now })
          s)
        (done fresh)

-- `getOrCreateActivityId`; `fresh` is the `randomUUID()` of the call.
unfoldable pub get_or_create_activity_id : Env → State → Text → Text → Text → Steps Text
unfolding validate_identifier
get_or_create_activity_id env s execution_id activity_key fresh = do
  validate_identifier execution_id max_execution_id_length
  validate_identifier activity_key max_activity_key_length
  c ← or_throw (lookup execution_id s.claims) Error.no_claim
  throw_if (not (same c.owner_id env.owner_id)) Error.claim_ownership
  throw_if (not (is_some c.dispatch_started_at)) Error.dispatch_not_started
  activity_id env s c activity_key fresh (lookup activity_key c.activity_ids)

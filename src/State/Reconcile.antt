-- ===== src/State/Reconcile.antt =====
-- The reconciliation of src/state/store.ts: how far each session's activity has been seen, and the
-- stop that fences a session off.
use linear_agent_bridge.Base.{
  ℕ, ◌-◌, Bool, true, false, not, ◌&&◌, ◌||◌, Option, none, some, [], Text, same, lookup, put, ltb,
  if◌then◌else◌, is_some,
}
use linear_agent_bridge.Recovery.Types.{Identity, Payload}
use linear_agent_bridge.State.Types.{
  Disposition, Cursor, StalledWarning, Session, Goal, State, Env, Error,
}
use linear_agent_bridge.State.Steps.{Steps, done, throw, write, throw_if, or_throw, ◌>>=◌, ◌>>◌}
use linear_agent_bridge.State.Checks.{
  is_created, is_final, is_negative, is_positive, at_most, compare_cursors, validate_identifier,
  validate_identity, validate_cursor, max_identifier_length,
}
use linear_agent_bridge.State.Prune.{prune_reconciliation_sessions}
use linear_agent_bridge.State.Claiming.{ClaimResult}
use linear_agent_bridge.State.Claim.{claim_event_in_state}
use linear_agent_bridge.State.Dispatch.{supersede_owned, reconcile_prefix, validate_optional_cursor}
use linear_agent_bridge.State.Goals.Store.{put_goal, stopped_goal}

abbrev pub put_session : Text → Session → State → State
put_session id session s = record s {
  reconciliation_sessions = put id session s.reconciliation_sessions;
}

-- `sessions[id] ??= { updatedAt }`
abbrev pub session_or_new : Env → Option Session → Session
session_or_new env none = record {
  initialized_at = none;
  processed_through = none;
  stop_fence = none;
  updated_at = env.now;
  stalled_warning = none;
}
session_or_new env (some session) = session

abbrev pub session_of : Env → State → Text → Session
session_of env s id = session_or_new env (lookup id s.reconciliation_sessions)

-- The cursor lies before the other one; it lies after it, or there is no other one.
unfoldable pub is_before : Env → Cursor → Option Cursor → Bool
unfolding compare_cursors
is_before env c none = false
is_before env c (some other) = is_negative (compare_cursors env c other)

unfoldable pub is_after : Env → Cursor → Option Cursor → Bool
unfolding compare_cursors
is_after env c none = true
is_after env c (some other) = is_positive (compare_cursors env c other)

-- The result with the state that was written last: the object `state`, which the operation shares
-- with its caller, after a result that comes with a write.
abbrev pub with_state : {A : Type 0} → State → Steps A → Steps (State × A)
with_state s (done a) = done (s, a)
with_state s (throw e) = throw e
with_state s (write t k) = write t (with_state t k)

abbrev pub is_claim_result : Disposition → Bool
is_claim_result Disposition.claimed = true
is_claim_result _ = false

abbrev pub fence_id : Option Cursor → Text
fence_id none = []
fence_id (some c) = c.id

-- A later stop is known: this one is claimed and superseded at once.
unfoldable pub claim_late_stop : Env → State → Identity → Option Payload → Text → Steps ClaimResult
unfolding claim_event_in_state supersede_owned
claim_late_stop env s i payload by = do
  (t, a) ← with_state s (claim_event_in_state env s i payload false)
  if not (is_claim_result a.disposition) then done a else (do
    s' ← supersede_owned env t i.webhook_id by
    r ← or_throw (lookup i.webhook_id s'.receipts) Error.claim_ownership
    write s' (done (record { disposition = Disposition.superseded; receipt = r })))

abbrev pub stop_found_goal : Env → Text → Option Goal → State → State
stop_found_goal env session none s = s
stop_found_goal env session (some g) s =
    if is_final g.status then s else put_goal session (stopped_goal env g) s

-- The stop fences its session and stops its goal, and is claimed.
unfoldable pub fence_session : Env → State → Identity → Cursor → State
unfolding is_after
fence_session env s i cursor =
    let id = i.linear_session_id in
    let session = session_of env s id in
    let fenced =
      put_session id
        (if is_after env cursor session.stop_fence
          then record session { stop_fence = some cursor; updated_at = env.now }
          else session)
        s in
    stop_found_goal env id (lookup id fenced.autonomous_goals) fenced

unfoldable pub claim_stop_in_state :
    Env → State → Identity → Cursor → Option Payload → Steps ClaimResult
unfolding is_before claim_late_stop fence_session claim_event_in_state
claim_stop_in_state env s i cursor payload =
    let session = session_of env s i.linear_session_id in
    if is_before env cursor session.stop_fence
    then claim_late_stop env
        (put_session i.linear_session_id (record session { updated_at = env.now }) s) i payload
        (reconcile_prefix (fence_id session.stop_fence))
    else claim_event_in_state env (fence_session env s i cursor) i payload false

-- `claimStopEvent`
unfoldable pub claim_stop_event :
    Env → State → Identity → Cursor → Option Payload → Steps ClaimResult
unfolding validate_identity validate_cursor claim_stop_in_state
claim_stop_event env s i cursor payload = do
  validate_identity i
  validate_cursor env cursor
  throw_if (is_created i.action || not (same i.execution_id cursor.id)) Error.invalid_argument
  throw_if (is_some payload && not (is_some env.vault)) Error.recovery_envelope
  claim_stop_in_state env s i cursor payload

-- The field that `updateReconciliationCursor` is called with.
pub data CursorField : Type 0 where
  processed_through stop_fence : CursorField

abbrev pub read_field : CursorField → Session → Option Cursor
read_field processed_through session = session.processed_through
read_field stop_fence session = session.stop_fence

abbrev pub set_field : CursorField → Cursor → Session → Session
set_field processed_through c session = record session { processed_through = some c }
set_field stop_fence c session = record session { stop_fence = some c }

abbrev pub is_seen : Env → Cursor → Option Cursor → Bool
is_seen env c none = false
is_seen env c (some other) = at_most (compare_cursors env c other)

-- `updateReconciliationCursor`: `recordStopFence` and `markActivityProcessed`.
unfoldable pub update_cursor : Env → State → Text → CursorField → Cursor → Steps (Unit {0})
unfolding validate_identifier validate_cursor prune_reconciliation_sessions compare_cursors
update_cursor env s id field c = do
  validate_identifier id max_identifier_length
  validate_cursor env c
  let session = session_of env s id
  if is_seen env c (read_field field session)
      then done tt
      else write
          (prune_reconciliation_sessions env
            (put_session id (record (set_field field c session) { updated_at = env.now }) s))
          (done tt)

abbrev pub seen_through : Env → Option Cursor → Option Cursor → Option Cursor
seen_through env none existing = existing
seen_through env (some c) existing = if is_after env c existing then some c else existing

-- `initializeReconciliationSession`
unfoldable pub initialize_session : Env → State → Text → Option Cursor → Steps (Unit {0})
unfolding validate_identifier prune_reconciliation_sessions is_after
initialize_session env s id seen = do
  validate_identifier id max_identifier_length
  validate_optional_cursor env seen
  let session = session_of env s id
  let session' = record session {
    initialized_at = some env.now;
    processed_through = seen_through env seen session.processed_through;
    updated_at = env.now;
  }
  if is_some session.initialized_at
      then done tt
      else write (prune_reconciliation_sessions env (put_session id session' s)) (done tt)

abbrev pub warned_recently : Env → ℕ → Option StalledWarning → Bool
warned_recently env interval none = false
warned_recently env interval (some w) = ltb (env.now - w.warned_at) interval

-- `claimStalledSessionWarning`; a warning from the future counts as recent there and here, since
-- the difference is below every interval.
unfoldable pub claim_stalled_warning : Env → State → Text → Text → ℕ → Steps Bool
unfolding validate_identifier prune_reconciliation_sessions
claim_stalled_warning env s id activity interval = do
  validate_identifier id max_identifier_length
  validate_identifier activity max_identifier_length
  throw_if (not (ltb 0 interval)) Error.invalid_argument
  let session = session_of env s id
  let session' = record session {
    stalled_warning = some (record { activity_id = activity; warned_at = env.now });
    updated_at = env.now;
  }
  if warned_recently env interval session.stalled_warning
      then done false
      else write (prune_reconciliation_sessions env (put_session id session' s)) (done true)

abbrev pub watching_of : Env → State → Option ℕ → Steps ℕ
watching_of env s (some since) = done since
watching_of env s none = write (record s { watching_since = some env.now }) (done env.now)

-- `ensureWatchingSince` under the lock; the read before it only spares the lock.
unfoldable pub ensure_watching_since : Env → State → Steps ℕ
ensure_watching_since env s = watching_of env s s.watching_since

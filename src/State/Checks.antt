-- ===== src/State/Checks.antt =====
-- The small functions at the end of src/state/store.ts.
use linear_agent_bridge.Base.{
  ℕ, Bool, true, false, not, ◌&&◌, Option, none, some, List, Text, length, same, select, values,
  ltb, leb, ◌==◌, is_some,
}
use Prim.Native.Nat.{compare, Ordering}
use linear_agent_bridge.Recovery.Types.{IngressAction, Identity}
use linear_agent_bridge.State.Types.{
  IngressStatus, Disposition, ReceiptErrorClass, OutcomeResult, Outcome, Receipt, Cursor, Fence,
  State, Env, Error, GoalStatus,
}
use linear_agent_bridge.State.Steps.{Steps, throw_if, ◌>>◌, Quiet, throw_if-Quiet, >>-Quiet}

abbrev pub max_identifier_length : ℕ
max_identifier_length = 256

abbrev pub max_execution_id_length : ℕ
max_execution_id_length = 512

abbrev pub max_activity_key_length : ℕ
max_activity_key_length = 128

abbrev pub max_activity_ids_per_claim : ℕ
max_activity_ids_per_claim = 10000

-- `Number.MAX_SAFE_INTEGER`
abbrev pub max_safe_integer : ℕ
max_safe_integer = 9007199254740991

abbrev pub is_safe : ℕ → Bool
is_safe n = leb n max_safe_integer

abbrev pub is_created : IngressAction → Bool
is_created IngressAction.created = true
is_created IngressAction.prompted = false

abbrev pub same_action : IngressAction → IngressAction → Bool
same_action IngressAction.created b = is_created b
same_action IngressAction.prompted b = not (is_created b)

-- The test of `validateIdentifier`.
abbrev pub is_identifier : Text → ℕ → Bool
is_identifier value maximum = ltb 0 (length value) && leb (length value) maximum

unfoldable pub validate_identifier : Text → ℕ → Steps (Unit {0})
validate_identifier value maximum =
    throw_if (not (is_identifier value maximum)) Error.invalid_argument

-- The types leave no third action.
unfoldable pub validate_identity : Identity → Steps (Unit {0})
unfolding validate_identifier
validate_identity i = do
  validate_identifier i.webhook_id max_identifier_length
  validate_identifier i.execution_id max_execution_id_length
  validate_identifier i.linear_session_id max_identifier_length

unfoldable pub validate_cursor : Env → Cursor → Steps (Unit {0})
unfolding validate_identifier
validate_cursor env c = do
  validate_identifier c.id max_identifier_length
  throw_if (not (is_some (env.parse_date c.created_at))) Error.invalid_argument

-- The number that `compareCursors` and `compareRecoveryOrder` return: its sign, or NaN.
pub data Comparison : Type 0 where
  negative equal positive nan : Comparison

abbrev pub is_negative : Comparison → Bool
is_negative Comparison.negative = true
is_negative _ = false

abbrev pub is_positive : Comparison → Bool
is_positive Comparison.positive = true
is_positive _ = false

-- `c <= 0`
abbrev pub at_most : Comparison → Bool
at_most Comparison.negative = true
at_most Comparison.equal = true
at_most _ = false

abbrev pub sign_of : Ordering → Comparison
sign_of Ordering.lt = Comparison.negative
sign_of Ordering.eq = Comparison.equal
sign_of Ordering.gt = Comparison.positive

-- By time, then by `tie`; a time that does not parse makes the difference NaN.
abbrev pub by_time : Option ℕ → Option ℕ → Comparison → Comparison
by_time none b tie = Comparison.nan
by_time (some t) none tie = Comparison.nan
by_time (some t) (some u) tie = elim (compare t u) [
  | Ordering.lt ↦ Comparison.negative
  | Ordering.eq ↦ tie
  | Ordering.gt ↦ Comparison.positive
]

unfoldable pub compare_cursors : Env → Cursor → Cursor → Comparison
compare_cursors env left right =
    by_time (env.parse_date left.created_at) (env.parse_date right.created_at)
      (sign_of (env.locale_compare left.id right.id))

unfoldable pub compare_recovery_order : Env → Text → ℕ → Fence → Comparison
compare_recovery_order env occurred_at sequence other =
    by_time (env.parse_date occurred_at) (env.parse_date other.occurred_at)
      (sign_of (compare sequence other.sequence))

abbrev pub matches_iso : Env → Text → Option ℕ → Bool
matches_iso env value none = false
matches_iso env value (some ms) = same (env.to_iso_string ms) value

-- `isCanonicalRecoveryTimestamp` of src/state/recovery-envelope.ts.
unfoldable pub is_canonical_timestamp : Env → Text → Bool
is_canonical_timestamp env value =
    (length value == 24) && matches_iso env value (env.parse_date value)

unfoldable pub is_valid_recovery_stop_fence : Env → Fence → Bool
unfolding is_canonical_timestamp
is_valid_recovery_stop_fence env f =
    is_canonical_timestamp env f.occurred_at
    && (is_safe f.sequence
        && (ltb 0 f.sequence
            && (is_identifier f.webhook_id max_identifier_length
                && is_identifier f.execution_id max_execution_id_length)))

-- `assertSameIdentity` is `throw_if (not (same_identity r i))`.
unfoldable pub same_identity : Receipt → Identity → Bool
same_identity r i =
    same r.execution_id i.execution_id
    && (same r.linear_session_id i.linear_session_id && same_action r.action i.action)

abbrev pub is_terminal : IngressStatus → Bool
is_terminal IngressStatus.completed = true
is_terminal IngressStatus.failed = true
is_terminal IngressStatus.superseded = true
is_terminal IngressStatus.received = false
is_terminal IngressStatus.claimed = false

-- `goal.status` is `completed`, `stopped` or `declined`.
abbrev pub is_final : GoalStatus → Bool
is_final GoalStatus.completed = true
is_final GoalStatus.stopped = true
is_final GoalStatus.declined = true
is_final _ = false

abbrev pub is_active_recoverable : Receipt → Bool
is_active_recoverable r = not (is_terminal r.status) && not (is_some r.dispatch_started_at)

unfoldable pub active_recoverable_receipts : State → List Receipt
active_recoverable_receipts s = select is_active_recoverable (values s.receipts)

unfoldable pub clear_recovery_envelope : Receipt → Receipt
clear_recovery_envelope r = record r { recovery_sequence = none; recovery_envelope = none }

abbrev pub accepted_outcome : Outcome
accepted_outcome = record {
  unavailable = false;
  result = OutcomeResult.accepted;
  disposition = Disposition.claimed;
  error_class = none;
}

abbrev pub ambiguous_outcome : Outcome
ambiguous_outcome = record {
  unavailable = false;
  result = OutcomeResult.not_dispatched;
  disposition = Disposition.ambiguous;
  error_class = some ReceiptErrorClass.ambiguous_dispatch;
}

-- The outcome of a receipt that waits for a retry.
abbrev pub retry_outcome : Outcome
retry_outcome = record {
  unavailable = true;
  result = OutcomeResult.retry;
  disposition = Disposition.received;
  error_class = some ReceiptErrorClass.ingress_persistence_error;
}

abbrev pub not_dispatched_outcome : Disposition → Outcome
not_dispatched_outcome d = record {
  unavailable = false;
  result = OutcomeResult.not_dispatched;
  disposition = d;
  error_class = none;
}

-- The checks of arguments write nothing.
pub validate_identifier-Quiet :
    (value : Text) (maximum : ℕ) → Quiet (validate_identifier value maximum)
unfolding validate_identifier
validate_identifier-Quiet value maximum = throw_if-Quiet _ Error.invalid_argument

pub validate_identity-Quiet : (i : Identity) → Quiet (validate_identity i)
unfolding validate_identity
validate_identity-Quiet i =
    >>-Quiet (validate_identifier i.webhook_id max_identifier_length)
      (validate_identifier i.execution_id max_execution_id_length
        >> validate_identifier i.linear_session_id max_identifier_length)
      (validate_identifier-Quiet i.webhook_id max_identifier_length)
      (>>-Quiet (validate_identifier i.execution_id max_execution_id_length)
        (validate_identifier i.linear_session_id max_identifier_length)
        (validate_identifier-Quiet i.execution_id max_execution_id_length)
        (validate_identifier-Quiet i.linear_session_id max_identifier_length))

pub validate_cursor-Quiet : (env : Env) (c : Cursor) → Quiet (validate_cursor env c)
unfolding validate_cursor
validate_cursor-Quiet env c =
    >>-Quiet (validate_identifier c.id max_identifier_length)
      (throw_if (not (is_some (env.parse_date c.created_at))) Error.invalid_argument)
      (validate_identifier-Quiet c.id max_identifier_length)
      (throw_if-Quiet (not (is_some (env.parse_date c.created_at))) Error.invalid_argument)

-- ===== src/State/Types.antt =====
-- The data that src/state/store.ts keeps in its JSON file. A timestamp that the store writes
-- itself, `new Date(now).toISOString()`, is kept as the number of milliseconds that `Date.parse`
-- gives back for it. A time that comes from outside (a cursor's, a payload's) stays a string. An
-- optional map that is absent is the empty map: the store reads both alike.
use linear_agent_bridge.Base.{ℕ, Option, none, Bool, List, [], Text, Dict}
use linear_agent_bridge.Recovery.Types.{IngressAction, Identity, Envelope, NoticeKind, Vault}
use Prim.Native.Nat.{Ordering}

pub data IngressStatus : Type 0 where
  received claimed completed failed superseded : IngressStatus

pub data Disposition : Type 0 where
  received claimed duplicate superseded ambiguous : Disposition

pub data ReceiptErrorClass : Type 0 where
  ambiguous_dispatch ingress_persistence_error runtime_execution_error : ReceiptErrorClass
  runtime_timeout webhook_processing_error : ReceiptErrorClass

pub data OutcomeResult : Type 0 where
  retry accepted dispatch_started not_dispatched completed processing_failed : OutcomeResult

-- `ReceiptOutcome`; `unavailable` is HTTP status 503, and its absence 200.
pub record Outcome : Type 0 where
  pub unavailable : Bool
  pub result : OutcomeResult
  pub disposition : Disposition
  pub error_class : Option ReceiptErrorClass

-- `IngressReceipt`
pub record Receipt : Type 0 where
  pub identity : Identity
  pub open identity use *
  pub status : IngressStatus
  pub owner_id : Option Text
  pub received_at : ℕ
  pub updated_at : ℕ
  pub claimed_at : Option ℕ
  pub completed_at : Option ℕ
  pub failed_at : Option ℕ
  pub superseded_at : Option ℕ
  pub superseded_by_webhook_id : Option Text
  pub dispatch_started_at : Option ℕ
  pub recovery_sequence : Option ℕ
  pub recovery_envelope : Option Envelope
  pub outcome : Outcome

-- `IngressClaim["status"]`
pub data ClaimStatus : Type 0 where
  claimed completed failed : ClaimStatus

-- `IngressClaim`
pub record Claim : Type 0 where
  pub execution_id : Text
  pub webhook_id : Text
  pub linear_session_id : Text
  pub action : IngressAction
  pub status : ClaimStatus
  pub owner_id : Text
  pub claimed_at : ℕ
  pub updated_at : ℕ
  pub recovery_sequence : Option ℕ
  pub dispatch_started_at : Option ℕ
  pub activity_ids : Dict Text

-- `ReconciliationCursor`
pub record Cursor : Type 0 where
  pub created_at : Text
  pub id : Text

-- `stalledWarning`
pub record StalledWarning : Type 0 where
  pub activity_id : Text
  pub warned_at : ℕ

-- `PersistedSessionReconciliationState`
pub record Session : Type 0 where
  pub initialized_at : Option ℕ
  pub processed_through : Option Cursor
  pub stop_fence : Option Cursor
  pub updated_at : ℕ
  pub stalled_warning : Option StalledWarning

pub data GoalStatus : Type 0 where
  authorizing active running blocked completing completed stopped declined : GoalStatus

-- `AutonomousGoalPendingNotice`
pub record PendingNotice : Type 0 where
  pub kind : NoticeKind
  pub activity_key : Text
  pub envelope : Envelope

-- `AutonomousGoalState`
pub record Goal : Type 0 where
  pub linear_session_id : Text
  pub issue_id : Text
  pub issue_identifier : Option Text
  pub runtime : Text
  pub objective_envelope : Option Envelope
  pub status : GoalStatus
  pub step : ℕ
  pub steps_since_guidance : ℕ
  pub created_at : ℕ
  pub updated_at : ℕ
  pub running_owner_id : Option Text
  pub completion_state_id : Option Text
  pub completion_activity_key : Option Text
  pub completion_dispatch_started_at : Option ℕ
  pub pending_notice : Option PendingNotice
  pub pending_guidance_ids : List Text
  pub activity_ids : Dict Text

-- `RecoveryStopFence`
pub record Fence : Type 0 where
  pub occurred_at : Text
  pub sequence : ℕ
  pub webhook_id : Text
  pub execution_id : Text

-- `PersistedBridgeState`
pub record State : Type 0 where
  pub watching_since : Option ℕ
  pub receipts : Dict Receipt
  pub claims : Dict Claim
  pub next_recovery_sequence : Option ℕ
  pub recovery_stop_fences : Dict Fence
  pub reconciliation_sessions : Dict Session
  pub autonomous_goals : Dict Goal

-- `emptyState`, read when the file is missing.
abbrev pub empty_state : State
empty_state = record {
  watching_since = none;
  receipts = [];
  claims = [];
  next_recovery_sequence = none;
  recovery_stop_fences = [];
  reconciliation_sessions = [];
  autonomous_goals = [];
}

-- What an operation reads besides the state: the options of the constructor, the clock (one
-- reading for one operation), `Date.parse` (`none` is NaN), `toISOString`, `localeCompare`, the
-- vault of src/state/recovery-envelope.ts if a keyring is configured, and the set
-- `locallyAcceptedPreDispatchClaims` of this process.
pub record Env : Type 0 where
  pub owner_id : Text
  pub max_entries : ℕ
  pub retention_ms : ℕ
  pub max_recoverable_events : ℕ
  pub now : ℕ
  pub parse_date : Text → Option ℕ
  pub to_iso_string : ℕ → Text
  pub locale_compare : Text → Text → Ordering
  pub vault : Option Vault
  pub locally_accepted : List Text

-- The exceptions that an operation throws.
pub data Error : Type 0 where
  claim_ownership lock_timeout legacy_recovery_unavailable legacy_recovery_mismatch : Error
  recovery_envelope invalid_argument identity_mismatch dispatch_already_started : Error
  dispatch_not_started no_claim too_many_entries cursor_mismatch : Error
  no_goal goal_mismatch bad_goal_transition goal_not_owned guidance_not_pending : Error
  io_error : Error

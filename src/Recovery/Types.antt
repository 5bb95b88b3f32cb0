-- ===== src/Recovery/Types.antt =====
-- The data of src/state/recovery-envelope.ts, and the interface through which the state store
-- uses that file.
use linear_agent_bridge.Base.{ℕ, Bool, Option, some, ◌≡◌, Text}

pub data IngressAction : Type 0 where
  created prompted : IngressAction

-- `IngressRecoveryIdentity` and `IngressEventIdentity` of the store, which have the same fields.
pub record Identity : Type 0 where
  pub webhook_id : Text
  pub execution_id : Text
  pub linear_session_id : Text
  pub action : IngressAction

-- The two members of the union `IngressRecoveryPayload`.
pub data Payload : Type 0 where
  created_payload : (prompt occurred_at : Text) (issue_identifier : Option Text) → Payload
  prompted_payload : (prompt occurred_at : Text) (signal : Option Text) (stop : Bool) → Payload

-- The field `v` is always 1 and is not kept.
pub record Envelope : Type 0 where
  pub key_id : Text
  pub nonce : Text
  pub ciphertext : Text
  pub tag : Text

pub data NoticeKind : Type 0 where
  elicitation completion : NoticeKind

-- `AutonomousGoalNoticeIdentity`
pub record NoticeIdentity : Type 0 where
  pub linear_session_id : Text
  pub activity_key : Text
  pub kind : NoticeKind

-- `AutonomousGoalObjectiveIdentity`
pub record ObjectiveIdentity : Type 0 where
  pub linear_session_id : Text
  pub issue_id : Text

abbrev pub occurred_at : Payload → Text
occurred_at (created_payload prompt at issue) = at
occurred_at (prompted_payload prompt at signal stop) = at

-- What the store uses of this file with one keyring: `none` stands for a thrown
-- `IngressRecoveryEnvelopeError`. A sealed payload can be opened under the identity and the
-- sequence that it was sealed with.
pub record Vault : Type 0 where
  pub seal_ingress : Identity → ℕ → Payload → Option Envelope
  pub open_ingress : Identity → ℕ → Envelope → Option Payload
  pub seal_notice : NoticeIdentity → Text → Option Envelope
  pub open_notice : NoticeIdentity → Envelope → Option Text
  pub seal_objective : ObjectiveIdentity → Text → Option Envelope
  pub open_objective : ObjectiveIdentity → Envelope → Option Text
  pub open-seal_ingress :
      (i : Identity) (n : ℕ) (p : Payload) (e : Envelope)
      → seal_ingress i n p ≡ some e
      → open_ingress i n e ≡ some p

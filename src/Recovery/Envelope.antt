-- ===== src/Recovery/Envelope.antt =====
-- src/state/recovery-envelope.ts: sealing and opening with AES-256-GCM, whose implementation is a
-- parameter, and the data that each envelope is bound to.
use linear_agent_bridge.Base.{
  ℕ, ◌≡◌, Bool, false, ◌&&◌, Option, some, Text, text, length, ltb, leb, ◌==◌, lookup,
}
use linear_agent_bridge.Base.Options.{◌>>=◌, ◌>>◌, guard}
use linear_agent_bridge.Json.{
  whole, Json, number, string, array, object, nothing, element, empty, member, Codec, field,
  keys_of, as_record, as_string,
}
use linear_agent_bridge.Recovery.Types.{
  Identity, Payload, Envelope, NoticeIdentity, ObjectiveIdentity,
}
use linear_agent_bridge.Recovery.Base64.{
  Bytes, AreBytes, to_base64url, all_chars, exactly, at_most, decode_canonical,
}
use linear_agent_bridge.Recovery.Keyring.{Keyring}
use linear_agent_bridge.Recovery.Payloads.{
  Dates, max_ciphertext_bytes, action_text, kind_text, payload_json, validate_recovery_payload,
  validate_notice, validate_objective, boxed, unboxed,
}

-- AES-256-GCM of node:crypto with tags of 16 bytes, for keys of 32 and nonces of 12 bytes. The
-- ciphertext is as long as the plaintext; what opens gives the plaintext back, and what does not
-- carry the tag of its content does not open.
pub record Cipher : Type 0 where
  pub encrypt : (key nonce aad plaintext : Bytes) → Bytes × Bytes
  pub decrypt : (key nonce aad ciphertext tag : Bytes) → Option Bytes
  pub decrypt-encrypt :
      (key nonce aad plaintext : Bytes)
      → length key ≡ 32
      → length nonce ≡ 12
      → AreBytes plaintext
      → (let (ciphertext, tag) = encrypt key nonce aad plaintext in
          decrypt key nonce aad ciphertext tag)
        ≡ some plaintext
  pub decrypt_inverse :
      (key nonce aad ciphertext tag plaintext : Bytes)
      → decrypt key nonce aad ciphertext tag ≡ some plaintext
      → encrypt key nonce aad plaintext ≡ (ciphertext, tag)
  pub length-ciphertext :
      (key nonce aad plaintext : Bytes)
      → length (encrypt key nonce aad plaintext).0 ≡ length plaintext
  pub length-tag :
      (key nonce aad plaintext : Bytes) → length (encrypt key nonce aad plaintext).1 ≡ 16
  pub ciphertext-AreBytes :
      (key nonce aad plaintext : Bytes)
      → AreBytes plaintext
      → AreBytes (encrypt key nonce aad plaintext).0 × AreBytes (encrypt key nonce aad plaintext).1

-- The envelope as it stands in the state file.
unfoldable pub envelope_json : Envelope → Json
envelope_json e = object (
    member (text "v") (number (whole false 1)) (
      member (text "keyId") (string e.key_id) (
        member (text "nonce") (string e.nonce) (
          member (text "ciphertext") (string e.ciphertext)
            (member (text "tag") (string e.tag) empty)))))

abbrev is_version : Json → Bool
is_version (number (whole false n)) = n == 1
is_version _ = false

-- `/^[A-Za-z0-9_-]{22}$/`
abbrev pub is_key_id : Text → Bool
unfolding all_chars
is_key_id value = (length value == 22) && all_chars value

-- `parseEnvelope`; `none` is the exception.
unfoldable pub parse_envelope : Json → Option Envelope
unfolding as_record field keys_of as_string all_chars
parse_envelope value = do
  m ← as_record value
  guard (length (keys_of m) == 5)
  version ← field (text "v") m
  guard (is_version version)
  key_id ← field (text "keyId") m >>= as_string
  guard (is_key_id key_id)
  nonce ← field (text "nonce") m >>= as_string
  ciphertext ← field (text "ciphertext") m >>= as_string
  tag ← field (text "tag") m >>= as_string
  some record { key_id = key_id; nonce = nonce; ciphertext = ciphertext; tag = tag }

abbrev natural : ℕ → Json
natural n = number (whole false n)

-- `canonicalAad`
unfoldable pub canonical_aad : Identity → ℕ → Text → Json
canonical_aad identity sequence key_id = array (
    element (natural 1) (
      element (string key_id) (
        element (string identity.webhook_id) (
          element (string identity.execution_id) (
            element (string identity.linear_session_id) (
              element (string (action_text identity.action))
                (element (natural sequence) nothing)))))))

-- `canonicalAutonomousGoalNoticeAad`
unfoldable pub notice_aad : NoticeIdentity → Text → Json
notice_aad identity key_id = array (
    element (natural 1) (
      element (string key_id) (
        element (string (text "autonomous-goal-notice")) (
          element (string identity.linear_session_id) (
            element (string identity.activity_key)
              (element (string (kind_text identity.kind)) nothing))))))

-- `canonicalAutonomousGoalObjectiveAad`
unfoldable pub objective_aad : ObjectiveIdentity → Text → Json
objective_aad identity key_id = array (
    element (natural 1) (
      element (string key_id) (
        element (string (text "autonomous-goal-objective")) (
          element (string identity.linear_session_id)
            (element (string identity.issue_id) nothing)))))

-- `validateSequence`
abbrev pub is_sequence : ℕ → Bool
is_sequence n = leb n 9007199254740991 && ltb 0 n

module _ (codec : Codec) (cipher : Cipher) where
  -- The envelope of what the cipher gave.
  unfoldable pub written : Text → Bytes → Bytes × Bytes → Envelope
  unfolding to_base64url
  written key_id nonce (ciphertext, tag) = record {
    key_id = key_id;
    nonce = to_base64url nonce;
    ciphertext = to_base64url ciphertext;
    tag = to_base64url tag;
  }

  -- `sealEnvelope`, with the nonce that `randomBytes` gave.
  unfoldable pub seal_envelope : Keyring → Bytes → Bytes → (Text → Json) → Option Envelope
  unfolding written
  seal_envelope keyring nonce plaintext aad = do
    guard (leb (length plaintext) max_ciphertext_bytes)
    some (
        written keyring.primary.id nonce (
          cipher.encrypt keyring.primary.bytes nonce (codec.encode (aad keyring.primary.id))
            plaintext))

  -- `openEnvelope`; `none` is the exception.
  unfoldable pub open_envelope : Keyring → Json → (Text → Json) → Option Bytes
  unfolding parse_envelope lookup decode_canonical
  open_envelope keyring value aad = do
    envelope ← parse_envelope value
    key ← lookup envelope.key_id keyring.keys_by_id
    nonce ← decode_canonical envelope.nonce (exactly 12)
    ciphertext ← decode_canonical envelope.ciphertext (at_most max_ciphertext_bytes)
    tag ← decode_canonical envelope.tag (exactly 16)
    plaintext ← cipher.decrypt key.bytes nonce (codec.encode (aad envelope.key_id)) ciphertext tag
    guard (leb (length plaintext) max_ciphertext_bytes)
    some plaintext

  -- `sealIngressRecoveryPayload`
  unfoldable pub seal_ingress_recovery_payload :
      Dates → Keyring → Bytes → Identity → ℕ → Payload → Option Envelope
  unfolding payload_json validate_recovery_payload seal_envelope canonical_aad
  seal_ingress_recovery_payload dates keyring nonce identity sequence payload = do
    guard (is_sequence sequence)
    checked ← validate_recovery_payload dates identity (payload_json payload)
    seal_envelope keyring nonce (codec.encode (payload_json payload))
        (canonical_aad identity sequence)

  -- `openIngressRecoveryPayload`
  unfoldable pub open_ingress_recovery_payload :
      Dates → Keyring → Identity → ℕ → Json → Option Payload
  unfolding validate_recovery_payload open_envelope canonical_aad
  open_ingress_recovery_payload dates keyring identity sequence value = do
    guard (is_sequence sequence)
    plaintext ← open_envelope keyring value (canonical_aad identity sequence)
    payload ← codec.decode plaintext
    validate_recovery_payload dates identity payload

  -- `sealAutonomousGoalNotice`
  unfoldable pub seal_autonomous_goal_notice :
      Keyring → Bytes → NoticeIdentity → Text → Option Envelope
  unfolding validate_notice seal_envelope notice_aad
  seal_autonomous_goal_notice keyring nonce identity body = do
    guard (validate_notice identity body)
    seal_envelope keyring nonce (codec.encode (boxed (text "body") body)) (notice_aad identity)

  -- `openAutonomousGoalNotice`
  unfoldable pub open_autonomous_goal_notice : Keyring → NoticeIdentity → Json → Option Text
  unfolding unboxed validate_notice open_envelope notice_aad
  open_autonomous_goal_notice keyring identity value = do
    plaintext ← open_envelope keyring value (notice_aad identity)
    payload ← codec.decode plaintext
    body ← unboxed (text "body") payload
    guard (validate_notice identity body)
    some body

  -- `sealAutonomousGoalObjective`
  unfoldable pub seal_autonomous_goal_objective :
      Keyring → Bytes → ObjectiveIdentity → Text → Option Envelope
  unfolding validate_objective seal_envelope objective_aad
  seal_autonomous_goal_objective keyring nonce identity objective = do
    guard (validate_objective identity objective)
    seal_envelope keyring nonce (codec.encode (boxed (text "objective") objective))
        (objective_aad identity)

  -- `openAutonomousGoalObjective`
  unfoldable pub open_autonomous_goal_objective : Keyring → ObjectiveIdentity → Json → Option Text
  unfolding unboxed validate_objective open_envelope objective_aad
  open_autonomous_goal_objective keyring identity value = do
    plaintext ← open_envelope keyring value (objective_aad identity)
    payload ← codec.decode plaintext
    objective ← unboxed (text "objective") payload
    guard (validate_objective identity objective)
    some objective

-- ===== src/Recovery/RoundTrip.antt =====
-- src/state/recovery-envelope.ts: lemmas on sealing followed by opening, with any two keyrings.
use linear_agent_bridge.Base.{
  ℕ, ◌<◌, ◌≡◌, refl, sym, ap, subst, Bool, true, Option, none, some, Text, text, text_dec, length,
  same, leb, arith, any, ltb→lt,
}
use linear_agent_bridge.Base.Options.{bind_inv, guard_inv}
use linear_agent_bridge.Json.{
  Json, object, Members, empty, Codec, field, keys_of, as_record, as_string, as_boolean,
  has_exact_keys, is_flat,
}
use linear_agent_bridge.Recovery.Types.{
  IngressAction, created, prompted, Identity, Payload, created_payload, prompted_payload, Envelope,
  NoticeIdentity, ObjectiveIdentity,
}
use linear_agent_bridge.Recovery.Base64.{
  Bytes, AreBytes, exactly, at_most, decode_canonical-to_base64url, some_eq,
}
use linear_agent_bridge.Recovery.Keyring.{RecoveryKey, Keyring, Opens}
use linear_agent_bridge.Recovery.Payloads.{
  Dates, max_prompt_bytes, byte_length, is_canonical_recovery_timestamp, action_text,
  max_ciphertext_bytes, payload_json, validate_recovery_payload, validate_created,
  validate_prompted, validate_branch, validate_notice, validate_objective, boxed, unboxed,
}
use linear_agent_bridge.Recovery.Envelope.{
  envelope_json, parse_envelope, is_key_id, Cipher, written, seal_envelope, open_envelope,
  is_sequence, seal_ingress_recovery_payload, open_ingress_recovery_payload, canonical_aad,
  notice_aad, objective_aad, seal_autonomous_goal_notice, open_autonomous_goal_notice,
  seal_autonomous_goal_objective, open_autonomous_goal_objective,
}

abbrev members_of : Json → Members
members_of (object m) = m
members_of _ = empty

branch-created :
    (action : IngressAction) (prompt at : Text) (issue : Option Text) (q : Payload)
    → validate_branch action (members_of (payload_json (created_payload prompt at issue))) prompt at
      ≡ some q
    → q ≡ created_payload prompt at issue
unfolding payload_json validate_created validate_prompted has_exact_keys field keys_of text_dec any
branch-created created prompt at none q h = sym (some_eq h)
branch-created created prompt at (some t) q h = ground arith
branch-created prompted prompt at none q h = cc
branch-created prompted prompt at (some t) q h = cc

branch-prompted :
    (action : IngressAction) (prompt at : Text) (signal : Option Text) (stop : Bool) (q : Payload)
    → validate_branch action
        (members_of (payload_json (prompted_payload prompt at signal stop)))
        prompt
        at
      ≡ some q
    → q ≡ prompted_payload prompt at signal stop
unfolding payload_json validate_created validate_prompted has_exact_keys field keys_of text_dec any
    as_boolean
branch-prompted created prompt at none stop q h = cc
branch-prompted created prompt at (some t) stop q h = cc
branch-prompted prompted prompt at none stop q h =
    sym (some_eq (guard_inv _ (some (prompted_payload prompt at none stop)) q h).1)
branch-prompted prompted prompt at (some t) stop q h = ground arith

-- A validated payload is the payload whose value was validated.
validate_recovery_payload-payload_json :
    (dates : Dates) (i : Identity) (p q : Payload)
    → validate_recovery_payload dates i (payload_json p) ≡ some q
    → q ≡ p
unfolding validate_recovery_payload payload_json as_record field as_string text_dec
validate_recovery_payload-payload_json dates i (created_payload prompt at issue) q h =
    let (first, h1) = guard_inv (same (text "created") (action_text i.action)) _ q h in
    let (second, h2) = guard_inv (leb (byte_length prompt) max_prompt_bytes) _ q h1 in
    let (third, h3) = guard_inv (is_canonical_recovery_timestamp dates at) _ q h2 in
    branch-created i.action prompt at issue q h3
validate_recovery_payload-payload_json dates i (prompted_payload prompt at signal stop) q h =
    let (first, h1) = guard_inv (same (text "prompted") (action_text i.action)) _ q h in
    let (second, h2) = guard_inv (leb (byte_length prompt) max_prompt_bytes) _ q h1 in
    let (third, h3) = guard_inv (is_canonical_recovery_timestamp dates at) _ q h2 in
    branch-prompted i.action prompt at signal stop q h3

payload_json-is_flat : (p : Payload) → is_flat (payload_json p) ≡ true
unfolding payload_json is_flat field text_dec
payload_json-is_flat (created_payload prompt at none) = refl
payload_json-is_flat (created_payload prompt at (some t)) = refl
payload_json-is_flat (prompted_payload prompt at none stop) = refl
payload_json-is_flat (prompted_payload prompt at (some t) stop) = refl

parse_envelope-envelope_json :
    (e : Envelope) → is_key_id e.key_id ≡ true → parse_envelope (envelope_json e) ≡ some e
unfolding parse_envelope envelope_json as_record field keys_of as_string text_dec
parse_envelope-envelope_json e h = rw h refl

-- What a keyring made by `createIngressRecoveryKeyring` has of each key.
abbrev pub IsKey : RecoveryKey → Type 0
IsKey key = (length key.bytes ≡ 32) × (is_key_id key.id ≡ true)

module _ (codec : Codec) (cipher : Cipher) where
  -- The parts of an envelope decode to what was encrypted.
  open_envelope-written :
      (reader : Keyring) (key : RecoveryKey) (nonce plaintext : Bytes) (aad : Text → Json)
      → IsKey key
      → Opens reader key
      → AreBytes nonce
      → length nonce ≡ 12
      → AreBytes plaintext
      → 0 < length plaintext
      → leb (length plaintext) max_ciphertext_bytes ≡ true
      → open_envelope codec cipher reader
          (envelope_json (
            written codec cipher key.id nonce
              (cipher.encrypt key.bytes nonce (codec.encode (aad key.id)) plaintext)))
          aad
        ≡ some plaintext
  unfolding open_envelope written
  open_envelope-written reader key nonce plaintext aad is opens bytes long plain some_bytes small =
      let made = cipher.encrypt key.bytes nonce (codec.encode (aad key.id)) plaintext in
      let are =
        cipher.ciphertext-AreBytes key.bytes nonce (codec.encode (aad key.id)) plaintext plain in
      let size = cipher.length-ciphertext key.bytes nonce (codec.encode (aad key.id)) plaintext in
      let tag_size = cipher.length-tag key.bytes nonce (codec.encode (aad key.id)) plaintext in
      rw
        (
          parse_envelope-envelope_json (written codec cipher key.id nonce made) is.1,
          opens,
          decode_canonical-to_base64url nonce (exactly 12) bytes (omega (arith, long))
              (ground (arith, long)),
          decode_canonical-to_base64url made.0 (at_most max_ciphertext_bytes) are.0
              (omega (arith, size, some_bytes)) (rw size small),
          decode_canonical-to_base64url made.1 (exactly 16) are.1 (omega (arith, tag_size))
              (ground (arith, tag_size)),
          cipher.decrypt-encrypt key.bytes nonce (codec.encode (aad key.id)) plaintext is.0 long
              plain,
          small,
        )
        refl

  open_envelope-seal_envelope :
      (writer reader : Keyring) (nonce plaintext : Bytes) (aad : Text → Json) (e : Envelope)
      → IsKey writer.primary
      → Opens reader writer.primary
      → AreBytes nonce
      → length nonce ≡ 12
      → AreBytes plaintext
      → 0 < length plaintext
      → seal_envelope codec cipher writer nonce plaintext aad ≡ some e
      → open_envelope codec cipher reader (envelope_json e) aad ≡ some plaintext
  unfolding seal_envelope
  open_envelope-seal_envelope writer reader nonce plaintext aad e is opens bytes long plain
        some_bytes h =
      let (small, made) = guard_inv (leb (length plaintext) max_ciphertext_bytes) _ e h in
      subst (λ x. open_envelope codec cipher reader (envelope_json x) aad ≡ some plaintext)
        (some_eq made)
        (open_envelope-written reader writer.primary nonce plaintext aad is opens bytes long plain
          some_bytes small)

  -- A payload that was sealed under an identity and a sequence opens under them, with every keyring
  -- that still finds the key.
  pub open_ingress-seal_ingress :
      (dates : Dates) (writer reader : Keyring) (nonce : Bytes) (i : Identity) (n : ℕ) (p : Payload)
      (e : Envelope)
      → IsKey writer.primary
      → Opens reader writer.primary
      → AreBytes nonce
      → length nonce ≡ 12
      → seal_ingress_recovery_payload codec cipher dates writer nonce i n p ≡ some e
      → open_ingress_recovery_payload codec cipher dates reader i n (envelope_json e) ≡ some p
  unfolding seal_ingress_recovery_payload open_ingress_recovery_payload
  open_ingress-seal_ingress dates writer reader nonce i n p e is opens bytes long h =
      let (sequence, h1) = guard_inv (is_sequence n) _ e h in
      let (q, checked, sealed) =
        bind_inv (validate_recovery_payload dates i (payload_json p)) _ e h1 in
      let same_payload = validate_recovery_payload-payload_json dates i p q checked in
      let opened =
        open_envelope-seal_envelope writer reader nonce (codec.encode (payload_json p))
          (canonical_aad i n) e is opens bytes long (codec.encode-AreBytes (payload_json p))
          (ltb→lt 0 _ (codec.encode-some (payload_json p))) sealed in
      rw (sequence, opened, codec.decode-encode (payload_json p) (payload_json-is_flat p), checked)
        (ap some same_payload)

  pub open_notice-seal_notice :
      (writer reader : Keyring) (nonce : Bytes) (i : NoticeIdentity) (body : Text) (e : Envelope)
      → IsKey writer.primary
      → Opens reader writer.primary
      → AreBytes nonce
      → length nonce ≡ 12
      → seal_autonomous_goal_notice codec cipher writer nonce i body ≡ some e
      → open_autonomous_goal_notice codec cipher reader i (envelope_json e) ≡ some body
  unfolding seal_autonomous_goal_notice open_autonomous_goal_notice unboxed is_flat as_record
      as_string has_exact_keys keys_of field any text_dec
  open_notice-seal_notice writer reader nonce i body e is opens bytes long h =
      let (valid, sealed) = guard_inv (validate_notice i body) _ e h in
      let plaintext = codec.encode (boxed (text "body") body) in
      let opened =
        open_envelope-seal_envelope writer reader nonce plaintext (notice_aad i) e is opens bytes
          long (codec.encode-AreBytes (boxed (text "body") body))
          (ltb→lt 0 _ (codec.encode-some (boxed (text "body") body))) sealed in
      rw (opened, codec.decode-encode (boxed (text "body") body) refl, valid) refl

  pub open_objective-seal_objective :
      (writer reader : Keyring) (nonce : Bytes) (i : ObjectiveIdentity) (objective : Text)
      (e : Envelope)
      → IsKey writer.primary
      → Opens reader writer.primary
      → AreBytes nonce
      → length nonce ≡ 12
      → seal_autonomous_goal_objective codec cipher writer nonce i objective ≡ some e
      → open_autonomous_goal_objective codec cipher reader i (envelope_json e) ≡ some objective
  unfolding seal_autonomous_goal_objective open_autonomous_goal_objective unboxed is_flat as_record
      as_string has_exact_keys keys_of field any text_dec
  open_objective-seal_objective writer reader nonce i objective e is opens bytes long h =
      let (valid, sealed) = guard_inv (validate_objective i objective) _ e h in
      let plaintext = codec.encode (boxed (text "objective") objective) in
      let opened =
        open_envelope-seal_envelope writer reader nonce plaintext (objective_aad i) e is opens bytes
          long (codec.encode-AreBytes (boxed (text "objective") objective))
          (ltb→lt 0 _ (codec.encode-some (boxed (text "objective") objective))) sealed in
      rw (opened, codec.decode-encode (boxed (text "objective") objective) refl, valid) refl

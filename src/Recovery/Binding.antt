-- ===== src/Recovery/Binding.antt =====
-- src/state/recovery-envelope.ts: what an envelope is bound to, and what an envelope that opens is.
use linear_agent_bridge.Base.{
  ℕ, ◌≡◌, refl, sym, ap, ◌∙◌, true, some, Text, length, leb, arith, lookup,
}
use linear_agent_bridge.Base.Options.{bind_inv, guard_inv}
use linear_agent_bridge.Json.{Json, Codec, is_flat}
use linear_agent_bridge.Recovery.Types.{
  IngressAction, created, prompted, Identity, Payload, Envelope, NoticeKind, NoticeIdentity,
  ObjectiveIdentity,
}
use linear_agent_bridge.Recovery.Base64.{
  Bytes, to_base64url, exactly, at_most, decode_canonical, decode_canonical-inverse,
  decode_canonical-fits, eqb→eq, some_eq,
}
use linear_agent_bridge.Recovery.Keyring.{RecoveryKey, Keyring}
use linear_agent_bridge.Recovery.Payloads.{
  Dates, action_text, kind_text, max_ciphertext_bytes, validate_recovery_payload,
}
use linear_agent_bridge.Recovery.Envelope.{
  Cipher, parse_envelope, written, open_envelope, is_sequence, open_ingress_recovery_payload,
  canonical_aad, notice_aad, objective_aad,
}

-- What an envelope can be sealed for.
pub data Purpose : Type 0 where
  for_ingress : Identity → ℕ → Purpose
  for_notice : NoticeIdentity → Purpose
  for_objective : ObjectiveIdentity → Purpose

unfoldable pub aad_of : Purpose → Text → Json
unfolding canonical_aad notice_aad objective_aad
aad_of (for_ingress i n) = canonical_aad i n
aad_of (for_notice i) = notice_aad i
aad_of (for_objective i) = objective_aad i

-- The sequence, if there is one, is a safe integer.
abbrev pub HasSafeSequence : Purpose → Type 0
HasSafeSequence (for_ingress i n) = leb n 9007199254740991 ≡ true
HasSafeSequence _ = Unit

aad_of-is_flat : (p : Purpose) (k : Text) → HasSafeSequence p → is_flat (aad_of p k) ≡ true
unfolding aad_of is_flat canonical_aad notice_aad objective_aad
aad_of-is_flat (for_ingress i n) k h = rw h refl
aad_of-is_flat (for_notice i) k h = refl
aad_of-is_flat (for_objective i) k h = refl

identity_eq :
    {a b c a' b' c' : Text} (x y : IngressAction)
    → a ≡ a'
    → b ≡ b'
    → c ≡ c'
    → action_text x ≡ action_text y
    → ◌≡◌ {A = Identity}
        record { webhook_id = a; execution_id = b; linear_session_id = c; action = x }
        record { webhook_id = a'; execution_id = b'; linear_session_id = c'; action = y }
identity_eq created created p q r h = cc
identity_eq created prompted p q r h = cc
identity_eq prompted created p q r h = cc
identity_eq prompted prompted p q r h = cc

notice_eq :
    {a b a' b' : Text} (x y : NoticeKind)
    → a ≡ a'
    → b ≡ b'
    → kind_text x ≡ kind_text y
    → ◌≡◌ {A = NoticeIdentity}
        record { linear_session_id = a; activity_key = b; kind = x }
        record { linear_session_id = a'; activity_key = b'; kind = y }
notice_eq NoticeKind.elicitation NoticeKind.elicitation p q h = cc
notice_eq NoticeKind.elicitation NoticeKind.completion p q h = cc
notice_eq NoticeKind.completion NoticeKind.elicitation p q h = cc
notice_eq NoticeKind.completion NoticeKind.completion p q h = cc

ap_for_ingress : {i j : Identity} {n m : ℕ} → i ≡ j → n ≡ m → for_ingress i n ≡ for_ingress j m
ap_for_ingress h k = cc

aad_of-injective : (p q : Purpose) (k l : Text) → aad_of p k ≡ aad_of q l → (p ≡ q) × (k ≡ l)
unfolding aad_of canonical_aad notice_aad objective_aad
aad_of-injective (for_ingress i n) (for_ingress j m) k l h = (
  ap_for_ingress
      (identity_eq i.action j.action (ground (arith, h)) (ground (arith, h)) (ground (arith, h))
        (ground (arith, h)))
      (ground (arith, h)),
  ground (arith, h),
)
aad_of-injective (for_ingress i n) (for_notice j) k l h = cc
aad_of-injective (for_ingress i n) (for_objective j) k l h = cc
aad_of-injective (for_notice i) (for_ingress j m) k l h = cc
aad_of-injective (for_notice i) (for_notice j) k l h = (
  ap for_notice
      (notice_eq i.kind j.kind (ground (arith, h)) (ground (arith, h)) (ground (arith, h))),
  ground (arith, h),
)
aad_of-injective (for_notice i) (for_objective j) k l h = cc
aad_of-injective (for_objective i) (for_ingress j m) k l h = cc
aad_of-injective (for_objective i) (for_notice j) k l h = cc
aad_of-injective (for_objective i) (for_objective j) k l h = (ground (arith, h), ground (arith, h))

-- The bytes that an envelope is bound to determine its purpose (ingress payload, notice or
-- objective), the whole identity, the sequence and the id of the key, for sequences that are safe
-- integers.
pub encode-aad_of-injective :
    (codec : Codec) (p q : Purpose) (k l : Text)
    → HasSafeSequence p
    → HasSafeSequence q
    → codec.encode (aad_of p k) ≡ codec.encode (aad_of q l)
    → (p ≡ q) × (k ≡ l)
encode-aad_of-injective codec p q k l safe safe' h =
    let back = codec.decode-encode (aad_of p k) (aad_of-is_flat p k safe) in
    let back' = codec.decode-encode (aad_of q l) (aad_of-is_flat q l safe') in
    aad_of-injective p q k l (some_eq (sym back ∙ (ap codec.decode h ∙ back')))

-- `value` is an envelope that AES-256-GCM made of `plaintext` with a key of the keyring and the data
-- of `aad`.
abbrev pub IsSealing :
    Codec
    → Cipher
    → Keyring
    → Json
    → (Text → Json)
    → Bytes
    → Envelope
    → RecoveryKey
    → Bytes
    → Type 0
IsSealing codec cipher keyring value aad plaintext e key nonce =
    (parse_envelope value ≡ some e)
    × (lookup e.key_id keyring.keys_by_id ≡ some key)
    × (length nonce ≡ 12)
    × (e
        ≡ written codec cipher e.key_id nonce
            (cipher.encrypt key.bytes nonce (codec.encode (aad e.key_id)) plaintext))

envelope_eq :
    {a b c d a' b' c' d' : Text}
    → a ≡ a'
    → b ≡ b'
    → c ≡ c'
    → d ≡ d'
    → ◌≡◌ {A = Envelope}
        record { key_id = a; nonce = b; ciphertext = c; tag = d }
        record { key_id = a'; nonce = b'; ciphertext = c'; tag = d' }
envelope_eq p q r h = cc

written_eq :
    (codec : Codec) (cipher : Cipher) (e : Envelope) (nonce ciphertext tag : Bytes)
    (made : Bytes × Bytes)
    → made ≡ (ciphertext, tag)
    → to_base64url nonce ≡ e.nonce
    → to_base64url ciphertext ≡ e.ciphertext
    → to_base64url tag ≡ e.tag
    → e ≡ written codec cipher e.key_id nonce made
unfolding written to_base64url
written_eq codec cipher e nonce ciphertext tag made h p q r =
    envelope_eq refl (sym p) (sym q ∙ ap (λ x. to_base64url x.0) (sym h))
      (sym r ∙ ap (λ x. to_base64url x.1) (sym h))

-- What opens was sealed.
open_envelope_inverse :
    (codec : Codec) (cipher : Cipher) (keyring : Keyring) (value : Json) (aad : Text → Json)
    (plaintext : Bytes)
    → open_envelope codec cipher keyring value aad ≡ some plaintext
    → (e : Envelope) × (key : RecoveryKey) × (nonce : Bytes) × IsSealing codec cipher keyring value
        aad plaintext e key nonce
unfolding open_envelope
open_envelope_inverse codec cipher keyring value aad plaintext h =
    let (e, parsed, h1) = bind_inv (parse_envelope value) _ plaintext h in
    let (key, found, h2) = bind_inv (lookup e.key_id keyring.keys_by_id) _ plaintext h1 in
    let (nonce, n, h3) = bind_inv (decode_canonical e.nonce (exactly 12)) _ plaintext h2 in
    let (ciphertext, c, h4) =
      bind_inv (decode_canonical e.ciphertext (at_most max_ciphertext_bytes)) _ plaintext h3 in
    let (tag, t, h5) = bind_inv (decode_canonical e.tag (exactly 16)) _ plaintext h4 in
    let (opened, d, h6) =
      bind_inv (cipher.decrypt key.bytes nonce (codec.encode (aad e.key_id)) ciphertext tag) _
        plaintext h5 in
    let (small, end) = guard_inv (leb (length opened) max_ciphertext_bytes) _ plaintext h6 in
    let made =
      cipher.decrypt_inverse key.bytes nonce (codec.encode (aad e.key_id)) ciphertext tag plaintext
        (d ∙ end) in
    (
      e,
      key,
      nonce,
      (
        parsed,
        found,
        eqb→eq (length nonce) 12 (decode_canonical-fits e.nonce (exactly 12) nonce n),
        written_eq codec cipher e nonce ciphertext tag
            (cipher.encrypt key.bytes nonce (codec.encode (aad e.key_id)) plaintext) made
            (decode_canonical-inverse e.nonce (exactly 12) nonce n)
            (decode_canonical-inverse e.ciphertext (at_most max_ciphertext_bytes) ciphertext c)
            (decode_canonical-inverse e.tag (exactly 16) tag t),
      ),
    )

-- A value that opens as an ingress payload under an identity and a sequence is an envelope that
-- AES-256-GCM made with a key of the keyring, bound to that identity and that sequence, of the bytes
-- of a JSON value that the validation accepts for the identity as this payload.
pub open_ingress_inverse :
    (codec : Codec) (cipher : Cipher) (dates : Dates) (keyring : Keyring) (i : Identity) (n : ℕ)
    (value : Json) (p : Payload)
    → open_ingress_recovery_payload codec cipher dates keyring i n value ≡ some p
    → (plaintext : Bytes) × (e : Envelope) × (key : RecoveryKey) × (nonce : Bytes) × (j : Json)
      × (IsSealing codec cipher keyring value (canonical_aad i n) plaintext e key nonce)
      × (codec.decode plaintext ≡ some j)
      × (validate_recovery_payload dates i j ≡ some p)
unfolding open_ingress_recovery_payload
open_ingress_inverse codec cipher dates keyring i n value p h =
    let (sequence, h1) = guard_inv (is_sequence n) _ p h in
    let (plaintext, opened, h2) =
      bind_inv (open_envelope codec cipher keyring value (canonical_aad i n)) _ p h1 in
    let (j, decoded, valid) = bind_inv (codec.decode plaintext) _ p h2 in
    let (e, key, nonce, sealing) =
      open_envelope_inverse codec cipher keyring value (canonical_aad i n) plaintext opened in
    (plaintext, e, key, nonce, j, sealing, decoded, valid)

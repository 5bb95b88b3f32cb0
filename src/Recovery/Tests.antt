-- ===== src/Recovery/Tests.antt =====
-- Concrete parameters for src/state/recovery-envelope.ts, in Plain, and what the theorems say with
-- them: a prompt that is sealed before a rotation of the keys, and opened after it.
mod Plain
use linear_agent_bridge.Base.{
  ℕ, ◌≡◌, refl, Bool, true, false, Option, none, some, List, [], ◌∷◌, Text, text, length, text_dec,
  lookup, put, inl, inr, arith, any,
}
use linear_agent_bridge.Json.{
  Json, field, keys_of, as_record, as_string, as_boolean, has_exact_keys, Codec,
}
use linear_agent_bridge.Recovery.Types.{
  prompted, Identity, Payload, prompted_payload, Envelope, NoticeKind,
}
use linear_agent_bridge.Recovery.Base64.{
  Bytes, AreBytes, to_base64url, from_base64url, all_chars, decode_canonical,
}
use linear_agent_bridge.Recovery.Keyring.{
  RecoveryKey, Keyring, parse_canonical_recovery_key, key_of, parse_keys, add_keys, create_keyring,
}
use linear_agent_bridge.Recovery.Payloads.{
  byte_length, trim_start, trim_end, trim, is_stop_word, is_stop_prompt,
  is_canonical_recovery_timestamp, payload_json, validate_created, validate_prompted,
  validate_recovery_payload,
}
use linear_agent_bridge.Recovery.Envelope.{
  envelope_json, parse_envelope, canonical_aad, notice_aad, written, seal_envelope, open_envelope,
  seal_ingress_recovery_payload, open_ingress_recovery_payload,
}
use linear_agent_bridge.Recovery.Rotation.{open_ingress-seal_ingress_rotated}
use linear_agent_bridge.Recovery.Binding.{
  Purpose, for_ingress, for_notice, aad_of, encode-aad_of-injective, IsSealing,
  open_ingress_inverse,
}
use Plain.{codec, cipher, digest, dates, open_with}

abbrev old_key : Text
old_key = text "AAAAAAAAAAAAAAAAAAAAAAAAAAAAAAAAAAAAAAAAAAA"

abbrev new_key : Text
new_key = text "BAAAAAAAAAAAAAAAAAAAAAAAAAAAAAAAAAAAAAAAAAA"

abbrev or_empty : Option Keyring → Keyring
or_empty none = record { primary = record { id = []; bytes = [] }; keys_by_id = [] }
or_empty (some r) = r

abbrev writer : Keyring
unfolding create_keyring
writer = or_empty (create_keyring digest old_key [])

abbrev reader : Keyring
unfolding create_keyring
reader = or_empty (create_keyring digest new_key (old_key ∷ []))

abbrev pub identity : Identity
identity = record {
  webhook_id = text "w";
  execution_id = text "e";
  linear_session_id = text "s";
  action = prompted;
}

abbrev pub nonce : Bytes
nonce = 1 ∷ 2 ∷ 3 ∷ 4 ∷ 5 ∷ 6 ∷ 7 ∷ 8 ∷ 9 ∷ 10 ∷ 11 ∷ 12 ∷ []

abbrev pub payload : Payload
payload = prompted_payload (text " Stop! ") (text "2026-01-01T00:00:00.000Z") none true

abbrev or_nothing : Option Envelope → Envelope
or_nothing none = record { key_id = []; nonce = []; ciphertext = []; tag = [] }
or_nothing (some e) = e

abbrev sealed : Envelope
unfolding seal_ingress_recovery_payload
sealed =
    or_nothing (seal_ingress_recovery_payload codec cipher dates writer nonce identity 7 payload)

-- The keyrings can be made, the payload is sealed, and it opens with both keyrings.
test_writer : create_keyring digest old_key [] ≡ some writer
unfolding create_keyring parse_keys add_keys parse_canonical_recovery_key key_of to_base64url
    from_base64url all_chars text_dec lookup put
test_writer = refl

test_reader : create_keyring digest new_key (old_key ∷ []) ≡ some reader
unfolding create_keyring parse_keys add_keys parse_canonical_recovery_key key_of to_base64url
    from_base64url all_chars text_dec lookup put
test_reader = refl

test_sealed :
    seal_ingress_recovery_payload codec cipher dates writer nonce identity 7 payload ≡ some sealed
unfolding create_keyring parse_keys add_keys parse_canonical_recovery_key key_of to_base64url
    from_base64url all_chars text_dec lookup put seal_ingress_recovery_payload
    validate_recovery_payload payload_json as_record as_string as_boolean has_exact_keys field
    keys_of any byte_length is_stop_prompt is_stop_word trim trim_start trim_end
    is_canonical_recovery_timestamp validate_prompted seal_envelope written canonical_aad
test_sealed = refl

nonce-AreBytes : AreBytes nonce
nonce-AreBytes = (
  omega arith,
  (
    omega arith,
    (
      omega arith,
      (
        omega arith,
        (
          omega arith,
          (
            omega arith,
            (
              omega arith,
              (omega arith, (omega arith, (omega arith, (omega arith, (omega arith, tt))))),
            ),
          ),
        ),
      ),
    ),
  ),
)

open_ingress-seal_ingress_rotated_example :
    open_ingress_recovery_payload codec cipher dates reader identity 7 (envelope_json sealed)
    ≡ some payload
open_ingress-seal_ingress_rotated_example =
    open_ingress-seal_ingress_rotated codec cipher dates digest old_key [] writer new_key
      (old_key ∷ []) reader nonce identity 7 payload sealed test_writer test_reader (inr (inl refl))
      nonce-AreBytes refl test_sealed

encode-aad_of-injective_example :
    (for_ingress identity 7 ≡ for_ingress identity 7) × (text "k" ≡ text "k")
encode-aad_of-injective_example =
    encode-aad_of-injective codec (for_ingress identity 7) (for_ingress identity 7) (text "k")
      (text "k") refl refl refl

open_ingress_inverse_example :
    (plaintext : Bytes) × (e : Envelope) × (key : RecoveryKey) × (used : Bytes) × (j : Json)
    × (IsSealing codec cipher reader
        (envelope_json sealed)
        (canonical_aad identity 7)
        plaintext
        e
        key
        used)
    × (codec.decode plaintext ≡ some j)
    × (validate_recovery_payload dates identity j ≡ some payload)
open_ingress_inverse_example =
    open_ingress_inverse codec cipher dates reader identity 7 (envelope_json sealed) payload
      open_ingress-seal_ingress_rotated_example

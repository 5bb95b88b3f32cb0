-- ===== src/Recovery/Rotation.antt =====
-- src/state/recovery-envelope.ts with keyrings made by createIngressRecoveryKeyring: what the state
-- store and a rotation of the keys rely on.
use linear_agent_bridge.Base.{
  ℕ, ◌≡◌, refl, sym, ap, subst, ◌∙◌, true, ◌&&◌, some, List, [], ◌∷◌, Text, length, same, ◌==◌,
  Dict,
}
use linear_agent_bridge.Base.Lists.{Has}
use linear_agent_bridge.Base.Options.{bind_inv}
use linear_agent_bridge.Json.{Codec}
use linear_agent_bridge.Recovery.Types.{Identity, Payload, Envelope, Vault}
use linear_agent_bridge.Recovery.Base64.{
  Bytes, AreBytes, to_base64url, from_base64url, all_chars, length-to_base64url,
  all_chars-to_base64url, both, conjuncts, guarded, some_eq, eqb→eq,
}
use linear_agent_bridge.Recovery.Keyring.{
  Digest, RecoveryKey, Keyring, parse_canonical_recovery_key, key_of, parse_keys, add_keys,
  with_first, create_keyring, Opens, create_keyring-Opens,
}
use linear_agent_bridge.Recovery.Payloads.{Dates}
use linear_agent_bridge.Recovery.Envelope.{
  envelope_json, Cipher, seal_ingress_recovery_payload, open_ingress_recovery_payload,
  seal_autonomous_goal_notice, open_autonomous_goal_notice, seal_autonomous_goal_objective,
  open_autonomous_goal_objective,
}
use linear_agent_bridge.Recovery.RoundTrip.{IsKey, open_ingress-seal_ingress}

with_first-head :
    (key : RecoveryKey) (keys : List RecoveryKey) (m : Dict RecoveryKey) (r : Keyring)
    → with_first (key ∷ keys) m ≡ some r
    → r.primary ≡ key
with_first-head key keys m r h = ap (λ x. x.primary) (sym (some_eq h))

parse_canonical_recovery_key-length :
    (value : Text) (bs : Bytes) → parse_canonical_recovery_key value ≡ some bs → length bs ≡ 32
unfolding parse_canonical_recovery_key
parse_canonical_recovery_key-length value bs h =
    let decoded = from_base64url value in
    let key = (length decoded == 32) && same (to_base64url decoded) value in
    let (tests, e) = guarded ((length value == 43) && (all_chars value && key)) decoded bs h in
    let (long, others) = conjuncts (length value == 43) (all_chars value && key) tests in
    let (chars, is) = conjuncts (all_chars value) key others in
    let (size, again) = conjuncts (length decoded == 32) (same (to_base64url decoded) value) is in
    ap length (sym e) ∙ eqb→eq (length decoded) 32 size

key_of-IsKey : (digest : Digest) (bs : Bytes) → length bs ≡ 32 → IsKey (key_of digest bs)
unfolding key_of all_chars
key_of-IsKey digest bs h =
    let id = to_base64url (digest.key_digest bs) in
    let long : (length id == 22) ≡ true =
      rw (length-to_base64url (digest.key_digest bs), digest.length-key_digest bs) refl in
    let chars = all_chars-to_base64url (digest.key_digest bs) (digest.key_digest-AreBytes bs) in
    (h, both (length id == 22) (all_chars id) long chars)

-- The first key of a keyring is that of the first value.
pub create_keyring-primary :
    (digest : Digest) (k : Text) (previous : List Text) (r : Keyring)
    → create_keyring digest k previous ≡ some r
    → (bs : Bytes) × (parse_canonical_recovery_key k ≡ some bs) × (r.primary ≡ key_of digest bs)
unfolding create_keyring parse_keys
create_keyring-primary digest k previous r made =
    let (keys, parsed, more) = bind_inv (parse_keys digest (k ∷ previous)) _ r made in
    let (m, added, end) = bind_inv (add_keys [] keys) _ r more in
    let (bs, first, rest_parsed) = bind_inv (parse_canonical_recovery_key k) _ keys parsed in
    let (rest, others, last) = bind_inv (parse_keys digest previous) _ keys rest_parsed in
    (
      bs,
      first,
      with_first-head (key_of digest bs) rest m r
          (subst (λ x. with_first x m ≡ some r) (sym (some_eq last)) end),
    )

pub create_keyring-IsKey :
    (digest : Digest) (k : Text) (previous : List Text) (r : Keyring)
    → create_keyring digest k previous ≡ some r
    → IsKey r.primary
create_keyring-IsKey digest k previous r made =
    let (bs, parsed, e) = create_keyring-primary digest k previous r made in
    subst IsKey (sym e) (key_of-IsKey digest bs (parse_canonical_recovery_key-length k bs parsed))

pub create_keyring-Opens_primary :
    (digest : Digest) (k : Text) (previous : List Text) (writer : Keyring) (k' : Text)
    (previous' : List Text) (reader : Keyring)
    → create_keyring digest k previous ≡ some writer
    → create_keyring digest k' previous' ≡ some reader
    → Has (k' ∷ previous') k
    → Opens reader writer.primary
create_keyring-Opens_primary digest k previous writer k' previous' reader made made' h =
    let (bs, parsed, e) = create_keyring-primary digest k previous writer made in
    subst (Opens reader) (sym e)
      (create_keyring-Opens digest k' previous' reader k bs made' h parsed)

-- A payload sealed with the keyring of one configuration opens, under the same identity and
-- sequence, with the keyring of any configuration that still lists that primary key, first or among
-- the previous ones.
pub open_ingress-seal_ingress_rotated :
    (codec : Codec) (cipher : Cipher) (dates : Dates) (digest : Digest) (k : Text)
    (previous : List Text) (writer : Keyring) (k' : Text) (previous' : List Text) (reader : Keyring)
    (nonce : Bytes) (i : Identity) (n : ℕ) (p : Payload) (e : Envelope)
    → create_keyring digest k previous ≡ some writer
    → create_keyring digest k' previous' ≡ some reader
    → Has (k' ∷ previous') k
    → AreBytes nonce
    → length nonce ≡ 12
    → seal_ingress_recovery_payload codec cipher dates writer nonce i n p ≡ some e
    → open_ingress_recovery_payload codec cipher dates reader i n (envelope_json e) ≡ some p
open_ingress-seal_ingress_rotated codec cipher dates digest k previous writer k' previous' reader
      nonce i n p e made made' h bytes long sealed =
    open_ingress-seal_ingress codec cipher dates writer reader nonce i n p e
      (create_keyring-IsKey digest k previous writer made)
      (create_keyring-Opens_primary digest k previous writer k' previous' reader made made' h) bytes
      long sealed

-- The vault of one operation of the state store, with the nonce that `randomBytes` gives it.
unfoldable pub vault_of :
    (codec : Codec) (cipher : Cipher) (dates : Dates) (keyring : Keyring) (nonce : Bytes)
    → IsKey keyring.primary
    → Opens keyring keyring.primary
    → AreBytes nonce
    → length nonce ≡ 12
    → Vault
unfolding seal_ingress_recovery_payload open_ingress_recovery_payload seal_autonomous_goal_notice
    open_autonomous_goal_notice seal_autonomous_goal_objective open_autonomous_goal_objective
    envelope_json
vault_of codec cipher dates keyring nonce is opens bytes long = record {
  seal_ingress = seal_ingress_recovery_payload codec cipher dates keyring nonce;
  open_ingress =
      λ i n e. open_ingress_recovery_payload codec cipher dates keyring i n (envelope_json e);
  seal_notice = seal_autonomous_goal_notice codec cipher keyring nonce;
  open_notice = λ i e. open_autonomous_goal_notice codec cipher keyring i (envelope_json e);
  seal_objective = seal_autonomous_goal_objective codec cipher keyring nonce;
  open_objective = λ i e. open_autonomous_goal_objective codec cipher keyring i (envelope_json e);
  open-seal_ingress = λ i n p e. λ h.
      open_ingress-seal_ingress codec cipher dates keyring keyring nonce i n p e is opens bytes long
        h;
}

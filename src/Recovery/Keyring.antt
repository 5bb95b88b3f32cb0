-- ===== src/Recovery/Keyring.antt =====
-- src/state/recovery-envelope.ts: the keys that payloads are sealed with, of which the first seals
-- and all open.
use linear_agent_bridge.Base.{
  ◌≡◌, refl, sym, ap, ◌∙◌, Bool, true, not, ◌&&◌, Option, none, some, List, [], ◌∷◌, Text, length,
  same, ◌==◌, if◌then◌else◌, is_some, Dict, lookup, put, subst, inl, inr, ◌≢◌,
}
use linear_agent_bridge.Base.Lists.{Has}
use linear_agent_bridge.Base.Dicts.{lookup-put_ne, lookup-put_self}
use linear_agent_bridge.Base.Options.{◌>>=◌, ◌>>◌, guard, bind_inv, guard_inv}
use linear_agent_bridge.Recovery.Base64.{
  Bytes, AreBytes, to_base64url, from_base64url, all_chars, some_eq,
}

-- `createHash("sha256").update(bytes).digest().subarray(0, KEY_ID_BYTES)`
pub record Digest : Type 0 where
  pub key_digest : Bytes → Bytes
  pub length-key_digest : (bs : Bytes) → length (key_digest bs) ≡ 16
  pub key_digest-AreBytes : (bs : Bytes) → AreBytes (key_digest bs)

-- `RecoveryKey`
pub record RecoveryKey : Type 0 where
  pub id : Text
  pub bytes : Bytes

-- `IngressRecoveryKeyring`
pub record Keyring : Type 0 where
  pub primary : RecoveryKey
  pub keys_by_id : Dict RecoveryKey

abbrev is_key : Text → Bytes → Bool
unfolding to_base64url
is_key value decoded = (length decoded == 32) && same (to_base64url decoded) value

-- `parseCanonicalRecoveryKey`
unfoldable pub parse_canonical_recovery_key : Text → Option Bytes
unfolding all_chars from_base64url to_base64url
parse_canonical_recovery_key value =
    if (length value == 43) && (all_chars value && is_key value (from_base64url value))
    then some (from_base64url value)
    else none

unfoldable pub key_of : Digest → Bytes → RecoveryKey
unfolding to_base64url
key_of digest bs = record { id = to_base64url (digest.key_digest bs); bytes = bs }

-- `values.map(...)`; `none` is the exception for a value that is no key.
unfoldable pub parse_keys : Digest → List Text → Option (List RecoveryKey)
unfolding parse_canonical_recovery_key key_of
parse_keys digest [] = some []
parse_keys digest (value ∷ values) = do
  bs ← parse_canonical_recovery_key value
  rest ← parse_keys digest values
  some (key_of digest bs ∷ rest)

-- The loop that fills `keysById`; `none` is the exception for a key given twice.
unfoldable pub add_keys : Dict RecoveryKey → List RecoveryKey → Option (Dict RecoveryKey)
unfolding lookup put
add_keys m [] = some m
add_keys m (key ∷ keys) = do
  guard (not (is_some (lookup key.id m)))
  add_keys (put key.id key m) keys

abbrev pub with_first : List RecoveryKey → Dict RecoveryKey → Option Keyring
with_first [] m = none
with_first (key ∷ keys) m = some record { primary = key; keys_by_id = m }

-- `createIngressRecoveryKeyring`
unfoldable pub create_keyring : Digest → Text → List Text → Option Keyring
unfolding parse_keys add_keys
create_keyring digest primary previous = do
  keys ← parse_keys digest (primary ∷ previous)
  m ← add_keys [] keys
  with_first keys m

was_missing : (o : Option RecoveryKey) → not (is_some o) ≡ true → o ≡ none
was_missing none h = refl
was_missing (some key) h = cc

none_ne : (key : RecoveryKey) → ◌≢◌ {A = Option RecoveryKey} none (some key)
none_ne key e = cc

with_first_inv :
    (keys : List RecoveryKey) (m : Dict RecoveryKey) (r : Keyring)
    → with_first keys m ≡ some r
    → m ≡ r.keys_by_id
with_first_inv [] m r h = cc
with_first_inv (key ∷ keys) m r h = ap (λ x. x.keys_by_id) (some_eq h)

-- Adding keys keeps the entries that are there.
add_keys-keeps :
    (m m' : Dict RecoveryKey) (keys : List RecoveryKey) (id : Text) (key : RecoveryKey)
    → add_keys m keys ≡ some m'
    → lookup id m ≡ some key
    → lookup id m' ≡ some key
unfolding add_keys
add_keys-keeps m m' [] id key added found = ap (lookup id) (sym (some_eq added)) ∙ found
add_keys-keeps m m' (k ∷ keys) id key added found =
    let step = guard_inv (not (is_some (lookup k.id m))) (add_keys (put k.id k m) keys) m' added in
    let missing = was_missing (lookup k.id m) step.0 in
    let other : k.id ≢ id = λ e. none_ne key (sym missing ∙ (ap (λ j. lookup j m) e ∙ found)) in
    add_keys-keeps (put k.id k m) m' keys id key step.1 (lookup-put_ne id k.id k m other ∙ found)

-- Every added key is found under its id.
add_keys-lookup :
    (m m' : Dict RecoveryKey) (keys : List RecoveryKey) (key : RecoveryKey)
    → add_keys m keys ≡ some m'
    → Has keys key
    → lookup key.id m' ≡ some key
unfolding add_keys
add_keys-lookup m m' [] key added h = absurd h
add_keys-lookup m m' (k ∷ keys) key added (inl e) =
    let step = guard_inv (not (is_some (lookup k.id m))) (add_keys (put k.id k m) keys) m' added in
    subst (λ x. lookup x.id m' ≡ some x) e
      (add_keys-keeps (put k.id k m) m' keys k.id k step.1 (lookup-put_self k.id k m))
add_keys-lookup m m' (k ∷ keys) key added (inr h) =
    let step = guard_inv (not (is_some (lookup k.id m))) (add_keys (put k.id k m) keys) m' added in
    add_keys-lookup (put k.id k m) m' keys key step.1 h

parse_keys-Has :
    (digest : Digest) (values : List Text) (keys : List RecoveryKey) (value : Text) (bs : Bytes)
    → parse_keys digest values ≡ some keys
    → Has values value
    → parse_canonical_recovery_key value ≡ some bs
    → Has keys (key_of digest bs)
unfolding parse_keys
parse_keys-Has digest [] keys value bs parsed h is = absurd h
parse_keys-Has digest (v ∷ values) keys value bs parsed h is =
    let (found, first, more) = bind_inv (parse_canonical_recovery_key v) _ keys parsed in
    let (rest, others, end) = bind_inv (parse_keys digest values) _ keys more in
    subst (λ x. Has x (key_of digest bs)) (some_eq end)
      (elim h [
        | inl e ↦
            inl
              (ap (key_of digest) (some_eq (sym first ∙ (ap parse_canonical_recovery_key e ∙ is))))
        | inr there ↦ inr (parse_keys-Has digest values rest value bs others there is)
      ])

-- A keyring finds `key` under its id.
abbrev pub Opens : Keyring → RecoveryKey → Type 0
unfolding lookup
Opens r key = lookup key.id r.keys_by_id ≡ some key

-- A keyring opens with every key that it is made of.
pub create_keyring-Opens :
    (digest : Digest) (primary : Text) (previous : List Text) (r : Keyring) (value : Text)
    (bs : Bytes)
    → create_keyring digest primary previous ≡ some r
    → Has (primary ∷ previous) value
    → parse_canonical_recovery_key value ≡ some bs
    → Opens r (key_of digest bs)
unfolding create_keyring
create_keyring-Opens digest primary previous r value bs made h is =
    let (keys, parsed, more) = bind_inv (parse_keys digest (primary ∷ previous)) _ r made in
    let (m, added, end) = bind_inv (add_keys [] keys) _ r more in
    let there = parse_keys-Has digest (primary ∷ previous) keys value bs parsed h is in
    subst (λ x. lookup (key_of digest bs).id x ≡ some (key_of digest bs))
      (with_first_inv keys m r end) (add_keys-lookup [] m keys (key_of digest bs) added there)

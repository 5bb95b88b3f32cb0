-- ===== src/State/Recoverable.antt =====
-- src/state/store.ts: the events that wait to be run again after a crash, read from the state:
-- assertRecoverableEventsAvailable, listRecoverableEvents, decodeRecoverableReceipt and
-- assertRecoveryStateIsBounded.
pub mod Listed
use linear_agent_bridge.Base.{
  ℕ, zero, suc, ◌+◌, ◌≤◌, ◌<◌, ◌≡◌, refl, sym, ap, subst, ◌∙◌, Bool, true, false, not, ◌&&◌, ◌||◌,
  Option, none, some, List, [], ◌∷◌, map, Text, length, ltb, leb, ◌==◌, if◌then◌else◌, arith,
  is_some, values, select, sort_by, any, Bool-cases, Option-cases, inl, inr, ltb→lt, leb→le,
}
use linear_agent_bridge.Base.Lists.{All, All-map, select-All, sort_by-All}
use linear_agent_bridge.Base.Options.{◌>>=◌, ◌>>◌, guard, bind_inv, guard_inv}
use linear_agent_bridge.Recovery.Types.{Identity, Payload, Envelope, Vault}
use linear_agent_bridge.State.Types.{Receipt, Fence, State, Env, Error}
use linear_agent_bridge.State.Checks.{
  is_safe, max_safe_integer, at_most, sign_of, is_valid_recovery_stop_fence,
  active_recoverable_receipts,
}
use Prim.Native.Nat.{compare, Ordering}

-- `RecoverableIngressEvent`; an event that is not available is `missing` or invalid, and nothing
-- reads the sequence that it may have.
pub data Recoverable : Type 0 where
  available : (identity : Identity) (sequence : ℕ) (payload : Payload) → Recoverable
  unavailable : (identity : Identity) (missing : Bool) → Recoverable

-- A number that is a safe integer and positive.
abbrev pub is_usable : ℕ → Bool
is_usable n = is_safe n && ltb 0 n

abbrev pub opened : Identity → ℕ → Option Payload → Recoverable
opened i n none = unavailable i false
opened i n (some p) = available i n p

abbrev pub decode_with : Receipt → Option Vault → Option ℕ → Option Envelope → Recoverable
decode_with r vault none none = unavailable r.identity true
decode_with r vault none (some e) = unavailable r.identity false
decode_with r none (some n) e = unavailable r.identity false
decode_with r (some vault) (some n) none = unavailable r.identity false
decode_with r (some vault) (some n) (some e) =
    if is_usable n
    then opened r.identity n (vault.open_ingress r.identity n e)
    else unavailable r.identity false

-- `decodeRecoverableReceipt`
unfoldable pub decode_recoverable_receipt : Env → Receipt → Recoverable
decode_recoverable_receipt env r = decode_with r env.vault r.recovery_sequence r.recovery_envelope

abbrev all_fences_valid : Env → List Fence → Bool
unfolding is_valid_recovery_stop_fence
all_fences_valid env [] = true
all_fences_valid env (f ∷ fences) =
    is_valid_recovery_stop_fence env f && all_fences_valid env fences

-- `assertRecoveryStateIsBounded`: whether it does not throw.
unfoldable pub recovery_state_is_bounded : Env → State → Bool
unfolding is_valid_recovery_stop_fence active_recoverable_receipts
recovery_state_is_bounded env s =
    all_fences_valid env (values s.recovery_stop_fences)
    && leb (length (active_recoverable_receipts s)) env.max_recoverable_events

-- The loop of `assertRecoverableEventsAvailable`, with the sequences seen and whether a legacy
-- receipt without an envelope was met; the answer is the exception, if there is one.
unfoldable pub check_available : List Recoverable → List ℕ → Bool → Option Error
unfolding any
check_available [] seen missing = if missing then some Error.legacy_recovery_unavailable else none
check_available (available i n p ∷ candidates) seen missing =
    let rest = check_available candidates (n ∷ seen) missing in
    if any (λ m. m == n) seen then some Error.recovery_envelope else rest
check_available (unavailable i false ∷ candidates) seen missing = some Error.recovery_envelope
check_available (unavailable i true ∷ candidates) seen missing =
    check_available candidates seen true

-- `assertRecoverableEventsAvailable`
unfoldable pub assert_recoverable_events_available : Env → State → Option Error
unfolding recovery_state_is_bounded check_available active_recoverable_receipts
    decode_recoverable_receipt
assert_recoverable_events_available env s =
    if recovery_state_is_bounded env s
    then check_available (map (decode_recoverable_receipt env) (active_recoverable_receipts s)) []
        false
    else some Error.recovery_envelope

abbrev pub is_above : ℕ → Option ℕ → Bool
is_above after_sequence none = false
is_above after_sequence (some n) = ltb after_sequence n

abbrev pub is_listed_after : ℕ → Receipt → Bool
is_listed_after after_sequence r = is_above after_sequence r.recovery_sequence

abbrev sequence_of : Receipt → ℕ
sequence_of r = elim r.recovery_sequence [ none ↦ max_safe_integer | some n ↦ n ]

-- By sequence, then by webhook id.
abbrev pub comes_before : Env → Receipt → Receipt → Bool
comes_before env left right = elim (compare (sequence_of left) (sequence_of right)) [
  | Ordering.lt ↦ true
  | Ordering.eq ↦ at_most (sign_of (env.locale_compare left.webhook_id right.webhook_id))
  | Ordering.gt ↦ false
]

-- `list.slice(0, n)`
abbrev pub first {ℓ} : {A : Type ℓ} → ℕ → List A → List A
first zero xs = []
first (suc n) [] = []
first (suc n) (x ∷ xs) = x ∷ first n xs

-- `RECOVERABLE_INGRESS_BATCH_SIZE`
abbrev pub recoverable_ingress_batch_size : ℕ
recoverable_ingress_batch_size = 16

-- `listRecoverableEvents`; `none` is the exception.
unfoldable pub list_recoverable_events : Env → State → ℕ → Option (List Recoverable)
unfolding recovery_state_is_bounded active_recoverable_receipts decode_recoverable_receipt select
    sort_by
list_recoverable_events env s after_sequence =
    if is_safe after_sequence && recovery_state_is_bounded env s
    then some (
        map (decode_recoverable_receipt env) (
          first recoverable_ingress_batch_size (
            sort_by (comes_before env)
              (select (is_listed_after after_sequence) (active_recoverable_receipts s)))))
    else none

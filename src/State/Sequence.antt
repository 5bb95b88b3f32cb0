-- ===== src/State/Sequence.antt =====
-- The order in which accepted events are recovered: the sequence numbers and sealed payloads of
-- `createRecoveryEnvelope`, and the stop fences of `recordRecoveryStopFence`. The one exception
-- thrown here is `IngressRecoveryEnvelopeError`: `none` stands for it.
use linear_agent_bridge.Base.{
  ℕ, ◌+◌, max, Bool, true, false, not, ◌&&◌, ◌||◌, Option, none, some, List, [], ◌∷◌, Text, length,
  same, lookup, put, values, any, ltb, leb, if◌then◌else◌, get_or,
}
use linear_agent_bridge.Recovery.Types.{
  Identity, Payload, created_payload, prompted_payload, occurred_at, Envelope,
}
use linear_agent_bridge.Base.Options.{◌>>=◌, ◌>>◌, guard}
use linear_agent_bridge.State.Types.{Receipt, Fence, State, Env}
use linear_agent_bridge.State.Checks.{
  is_safe, is_created, is_positive, at_most, by_time, sign_of, compare_recovery_order,
  is_valid_recovery_stop_fence, active_recoverable_receipts,
}
use Prim.Native.Nat.{compare}

-- The loop over the receipts: an unsafe number is passed over.
abbrev pub safe_sequence : Option ℕ → ℕ
safe_sequence none = 0
safe_sequence (some n) = if is_safe n then n else 0

unfoldable pub highest_of_receipts : List Receipt → ℕ
highest_of_receipts [] = 0
highest_of_receipts (r ∷ rs) = max (safe_sequence r.recovery_sequence) (highest_of_receipts rs)

-- The loop over the fences goes on from `highest`; an invalid fence throws.
unfoldable pub highest_of_fences : Env → List Fence → ℕ → Option ℕ
highest_of_fences env [] highest = some highest
highest_of_fences env (f ∷ fs) highest =
    if is_valid_recovery_stop_fence env f
    then highest_of_fences env fs (max highest f.sequence)
    else none

-- `state.nextRecoverySequence` is there and is no positive safe integer.
abbrev pub is_bad_next : Option ℕ → Bool
is_bad_next none = false
is_bad_next (some n) = not (is_safe n) || not (ltb 0 n)

-- The two capacity tests: a new event needs a free place, an old one only that none is exceeded.
abbrev pub exceeds_capacity : Env → State → Bool → Bool
exceeds_capacity env s admitting_new_event =
    let active = length (active_recoverable_receipts s) in
    (admitting_new_event && leb env.max_recoverable_events active)
    || (not admitting_new_event && ltb env.max_recoverable_events active)

pub record Recovery : Type 0 where
  pub state : State
  pub sequence : ℕ
  pub envelope : Envelope

-- The sequence number after `highest` and after the counter of the state.
abbrev pub next_sequence : State → ℕ → ℕ
next_sequence s highest = max (get_or s.next_recovery_sequence 1) (highest + 1)

unfoldable pub create_recovery_envelope : Env → State → Identity → Payload → Bool → Option Recovery
unfolding highest_of_receipts highest_of_fences
create_recovery_envelope env s identity payload admitting_new_event = do
  vault ← env.vault
  guard (not (exceeds_capacity env s admitting_new_event))
  highest ←
      highest_of_fences env (values s.recovery_stop_fences)
        (highest_of_receipts (values s.receipts))
  guard (not (is_bad_next s.next_recovery_sequence))
  guard (is_safe (next_sequence s highest))
  guard (is_safe (next_sequence s highest + 1))
  envelope ← vault.seal_ingress identity (next_sequence s highest) payload
  some (record {
    state = record s { next_recovery_sequence = some (next_sequence s highest + 1) };
    sequence = next_sequence s highest;
    envelope = envelope;
  })

abbrev pub is_stop_payload : Payload → Bool
is_stop_payload (created_payload prompt at issue) = false
is_stop_payload (prompted_payload prompt at signal stop) = stop

-- Another delivery of the same execution has a receipt.
unfoldable pub semantic_delivery_exists : State → Identity → Bool
semantic_delivery_exists s i =
    any (λ r. not (same r.webhook_id i.webhook_id) && same r.execution_id i.execution_id)
      (values s.receipts)

abbrev pub is_later_stop : Env → Text → ℕ → Option Fence → Bool
is_later_stop env at sequence none = true
is_later_stop env at sequence (some f) = is_positive (compare_recovery_order env at sequence f)

unfoldable pub record_recovery_stop_fence : Env → State → Identity → Payload → ℕ → State
unfolding semantic_delivery_exists
record_recovery_stop_fence env s i payload sequence =
    if not (is_stop_payload payload) || semantic_delivery_exists s i
    then s
    else if is_later_stop env (occurred_at payload) sequence
        (lookup i.linear_session_id s.recovery_stop_fences)
    then record s {
      recovery_stop_fences =
          put i.linear_session_id
            (record {
              occurred_at = occurred_at payload;
              sequence = sequence;
              webhook_id = i.webhook_id;
              execution_id = i.execution_id;
            })
            s.recovery_stop_fences;
    }
    else s

-- `receiptIsAtOrBeforeFence`: a created event lies before every stop of its session.
unfoldable pub receipt_is_at_or_before_fence : Env → Receipt → Fence → Option Bool
receipt_is_at_or_before_fence env r fence = do
  vault ← env.vault
  envelope ← r.recovery_envelope
  sequence ← r.recovery_sequence
  payload ← vault.open_ingress r.identity sequence envelope
  guard (is_valid_recovery_stop_fence env fence)
  some (
      is_created r.action
      || at_most (
          by_time (env.parse_date (occurred_at payload)) (env.parse_date fence.occurred_at)
            (sign_of (compare sequence fence.sequence))))

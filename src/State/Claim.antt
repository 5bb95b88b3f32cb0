-- ===== src/State/Claim.antt =====
-- `claimEvent` of src/state/store.ts: `claimEventInState` as a whole, and `resolveExistingReceipt`
-- for a delivery that has been seen.
use linear_agent_bridge.Base.{
  Bool, true, false, not, ◌&&◌, Option, none, some, same, lookup, any, if◌then◌else◌, is_some,
}
use linear_agent_bridge.Recovery.Types.{Identity, Payload}
use linear_agent_bridge.State.Types.{IngressStatus, Disposition, Receipt, Claim, State, Env, Error}
use linear_agent_bridge.State.Steps.{Steps, done, write, throw_if, ◌>>=◌, ◌>>◌}
use linear_agent_bridge.State.Checks.{
  validate_identity, same_identity, accepted_outcome, ambiguous_outcome, not_dispatched_outcome,
}
use linear_agent_bridge.State.Prune.{prune, is_finished}
use linear_agent_bridge.State.Claiming.{
  ClaimResult, put_receipt, put_claim, is_received, is_claimed, is_repairable, register,
  attach_recovery, contend, grant, mark_claimed,
}

-- The receipt and the claim are each other's, and the claim is active.
abbrev pub is_live_pair : Receipt → Claim → Bool
is_live_pair r c =
    is_claimed r.status && (not (is_finished c.status) && same c.webhook_id r.webhook_id)

-- Both records are stamped as granted, and nothing else in them changes.
unfoldable pub grant_again : Env → State → Receipt → Claim → Steps ClaimResult
unfolding mark_claimed
grant_again env s r c =
    let r' = mark_claimed env r in
    let c' = record c { owner_id = env.owner_id; claimed_at = env.now; updated_at = env.now } in
    write (put_claim c' (put_receipt r' s))
      (done (record { disposition = Disposition.claimed; receipt = r' }))

-- The same delivery once more, for a process that granted it and lost the answer: the receipt
-- keeps its owner, which is this process.
unfoldable pub regrant_own : Env → State → Receipt → Claim → Steps ClaimResult
regrant_own env s r c =
    let r' = record r {
      claimed_at = some env.now;
      updated_at = env.now;
      outcome = accepted_outcome;
    } in
    let c' = record c { claimed_at = env.now; updated_at = env.now } in
    write (put_claim c' (put_receipt r' s))
      (done (record { disposition = Disposition.claimed; receipt = r' }))

-- The receipt is answered with `d` and stays in its state.
unfoldable pub answer : Env → State → Receipt → Disposition → Steps ClaimResult
answer env s r d =
    let r' = record r { updated_at = env.now; outcome = not_dispatched_outcome d } in
    write (put_receipt r' s) (done (record { disposition = d; receipt = r' }))

unfoldable pub answer_ambiguous : Env → State → Receipt → Steps ClaimResult
answer_ambiguous env s r =
    let r' = record r { updated_at = env.now; outcome = ambiguous_outcome } in
    write (put_receipt r' s) (done (record { disposition = Disposition.ambiguous; receipt = r' }))

-- The first branch of `resolveExistingReceipt`.
unfoldable pub resolve_live : Env → State → Receipt → Claim → Steps ClaimResult
unfolding grant_again regrant_own answer answer_ambiguous
resolve_live env s r c =
    if same c.owner_id env.owner_id
    then if not (is_some c.dispatch_started_at)
        && not (any (same r.webhook_id) env.locally_accepted)
      then regrant_own env s r c
      else answer env s r Disposition.duplicate
    else if is_some c.dispatch_started_at
    then answer_ambiguous env s r
    else grant_again env s r c

abbrev pub is_ambiguous : Disposition → Bool
is_ambiguous Disposition.ambiguous = true
is_ambiguous _ = false

abbrev pub repeated_disposition : IngressStatus → Disposition
repeated_disposition IngressStatus.superseded = Disposition.superseded
repeated_disposition _ = Disposition.duplicate

-- Its other branches: what the receipt says is said again.
unfoldable pub resolve_settled : Env → State → Receipt → Steps ClaimResult
unfolding answer
resolve_settled env s r =
    if is_ambiguous r.outcome.disposition
    then done (record { disposition = Disposition.ambiguous; receipt = r })
    else answer env s r (repeated_disposition r.status)

abbrev pub resolve_with : Env → State → Receipt → Option Claim → Steps ClaimResult
resolve_with env s r none = resolve_settled env s r
resolve_with env s r (some c) =
    if is_live_pair r c then resolve_live env s r c else resolve_settled env s r

unfoldable pub resolve_existing_receipt : Env → State → Receipt → Steps ClaimResult
unfolding resolve_live resolve_settled
resolve_existing_receipt env s r = resolve_with env s r (lookup r.execution_id s.claims)

-- The branches on the claim of the execution.
abbrev pub claim_with :
    Env → State → Identity → Option Payload → Receipt → Option Claim → Steps ClaimResult
claim_with env s i payload r none = grant env s i payload r
claim_with env s i payload r (some c) = contend env s r c

unfoldable pub claim_execution :
    Env → State → Identity → Option Payload → Receipt → Steps ClaimResult
unfolding grant contend
claim_execution env s i payload r = claim_with env s i payload r (lookup i.execution_id s.claims)

-- A delivery with a receipt: its identity must be the same; then the receipt is resolved, or
-- claimed if it was only received.
unfoldable pub claim_seen : Env → State → Identity → Option Payload → Receipt → Steps ClaimResult
unfolding attach_recovery claim_execution resolve_existing_receipt
claim_seen env s i payload r = do
  throw_if (not (same_identity r i)) Error.identity_mismatch
  (s', r') ← attach_recovery env s i payload r
  if is_received r'.status
      then claim_execution env s' i payload r'
      else resolve_existing_receipt env s' r'

-- A delivery without one.
unfoldable pub claim_unseen : Env → State → Identity → Option Payload → Steps ClaimResult
unfolding register attach_recovery claim_execution
claim_unseen env s i payload = do
  (s', r) ← register env s i payload
  (s'', r') ← attach_recovery env s' i payload r
  claim_execution env s'' i payload r'

abbrev pub claim_by_receipt :
    Env → State → Identity → Option Payload → Option Receipt → Steps ClaimResult
claim_by_receipt env s i payload none = claim_unseen env s i payload
claim_by_receipt env s i payload (some r) = claim_seen env s i payload r

unfoldable pub claim_event_in_state :
    Env → State → Identity → Option Payload → Bool → Steps ClaimResult
unfolding claim_seen claim_unseen
claim_event_in_state env s i payload repair_legacy_only = do
  let kept = prune env s
  let existing = lookup i.webhook_id kept.receipts
  throw_if (repair_legacy_only && not (is_repairable existing)) Error.legacy_recovery_mismatch
  claim_by_receipt env kept i payload existing

unfoldable pub claim_event : Env → State → Identity → Option Payload → Bool → Steps ClaimResult
unfolding validate_identity claim_event_in_state
claim_event env s i payload repair_legacy_only = do
  validate_identity i
  throw_if (repair_legacy_only && not (is_some payload)) Error.legacy_recovery_mismatch
  throw_if (is_some payload && not (is_some env.vault)) Error.recovery_envelope
  claim_event_in_state env s i payload repair_legacy_only

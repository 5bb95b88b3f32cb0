-- ===== src/State/Prune.antt =====
-- `prune` of src/state/store.ts with its three parts, and `removeReceipt`.
use linear_agent_bridge.Base.{
  ℕ, ◌-◌, Bool, true, false, not, ◌&&◌, Option, none, some, List, [], ◌∷◌, Text, Dict, length, same,
  lookup, remove, values, keys, select, sort_by, ltb, leb, if◌then◌else◌, is_some,
}
use linear_agent_bridge.State.Types.{Receipt, ClaimStatus, Claim, Session, Goal, Fence, State, Env}
use linear_agent_bridge.State.Checks.{is_terminal, is_final, is_valid_recovery_stop_fence}

abbrev pub is_finished : ClaimStatus → Bool
is_finished ClaimStatus.claimed = false
is_finished ClaimStatus.completed = true
is_finished ClaimStatus.failed = true

-- The test of `removeReceipt` on the claim of the receipt's execution.
abbrev pub is_own_finished_claim : Receipt → Option Claim → Bool
is_own_finished_claim r none = false
is_own_finished_claim r (some c) = same c.webhook_id r.webhook_id && is_finished c.status

unfoldable pub remove_receipt : Receipt → State → State
remove_receipt r s = record s {
  receipts = remove r.webhook_id s.receipts;
  claims =
      if is_own_finished_claim r (lookup r.execution_id s.claims)
      then remove r.execution_id s.claims
      else s.claims;
}

-- The receipts in a terminal state, the least recently updated first.
unfoldable pub terminal_receipts : State → List Receipt
terminal_receipts s =
    sort_by (λ left right. leb left.updated_at right.updated_at)
      (select (λ r. is_terminal r.status) (values s.receipts))

-- The `for` loop of `prune`.
unfoldable pub remove_expired : ℕ → List Receipt → State → State
unfolding remove_receipt
remove_expired cutoff [] s = s
remove_expired cutoff (r ∷ rs) s =
    remove_expired cutoff rs (if ltb r.updated_at cutoff then remove_receipt r s else s)

-- The `while` loop of `prune`.
unfoldable pub remove_excess : ℕ → List Receipt → State → State
unfolding remove_receipt
remove_excess max_entries [] s = s
remove_excess max_entries (r ∷ rs) s =
    if ltb max_entries (length (keys s.receipts))
    then remove_excess max_entries rs (remove_receipt r s)
    else s

abbrev pub is_orphan_fence : Env → Dict Receipt → Fence → Bool
is_orphan_fence env receipts f =
    is_valid_recovery_stop_fence env f && not (is_some (lookup f.webhook_id receipts))

-- The loop over the entries of `recoveryStopFences`.
unfoldable pub prune_fences : Env → Dict Receipt → List (Text × Fence) → Dict Fence → Dict Fence
prune_fences env receipts [] fences = fences
prune_fences env receipts ((k, f) ∷ rest) fences =
    prune_fences env receipts rest
      (if is_orphan_fence env receipts f then remove k fences else fences)

-- The `while` loop of `pruneReconciliationSessions` over the ordered entries.
unfoldable pub trim_sessions : ℕ → List (Text × Session) → Dict Session → Dict Session
trim_sessions max_entries [] sessions = sessions
trim_sessions max_entries ((k, v) ∷ rest) sessions =
    if ltb max_entries (length ((k, v) ∷ rest))
    then trim_sessions max_entries rest (remove k sessions)
    else sessions

unfoldable pub prune_reconciliation_sessions : Env → State → State
unfolding trim_sessions
prune_reconciliation_sessions env s = record s {
  reconciliation_sessions =
      trim_sessions env.max_entries
        (sort_by (λ left right. leb (left.1).updated_at (right.1).updated_at)
          s.reconciliation_sessions)
        s.reconciliation_sessions;
}

-- The `for` loop of `pruneAutonomousGoals`.
unfoldable pub remove_expired_goals : ℕ → List (Text × Goal) → Dict Goal → Dict Goal
remove_expired_goals cutoff [] goals = goals
remove_expired_goals cutoff ((k, g) ∷ rest) goals =
    remove_expired_goals cutoff rest (if ltb g.updated_at cutoff then remove k goals else goals)

-- Its `while` loop.
unfoldable pub remove_excess_goals : ℕ → List (Text × Goal) → Dict Goal → Dict Goal
remove_excess_goals max_entries [] goals = goals
remove_excess_goals max_entries ((k, g) ∷ rest) goals =
    if ltb max_entries (length (keys goals))
    then remove_excess_goals max_entries rest (remove k goals)
    else goals

unfoldable pub terminal_goals : Dict Goal → List (Text × Goal)
terminal_goals goals =
    sort_by (λ left right. leb (left.1).updated_at (right.1).updated_at)
      (select (λ e. is_final (e.1).status) goals)

unfoldable pub prune_goals : ℕ → ℕ → Dict Goal → Dict Goal
unfolding remove_expired_goals remove_excess_goals terminal_goals
prune_goals max_entries cutoff goals =
    let kept = remove_expired_goals cutoff (terminal_goals goals) goals in
    remove_excess_goals max_entries (select (λ e. is_some (lookup e.0 kept)) (terminal_goals goals))
      kept

-- `-` stops at 0, and no time lies below 0, so a negative cutoff removes nothing here either.
abbrev pub cutoff : Env → ℕ
cutoff env = env.now - env.retention_ms

-- The first two loops of `prune`.
unfoldable pub prune_receipts : Env → State → State
unfolding remove_expired remove_excess terminal_receipts
prune_receipts env s =
    let kept = remove_expired (cutoff env) (terminal_receipts s) s in
    remove_excess env.max_entries (terminal_receipts kept) kept

unfoldable pub prune : Env → State → State
unfolding prune_receipts prune_fences prune_reconciliation_sessions prune_goals
prune env s =
    let kept = prune_receipts env s in
    let fenced = record kept {
      recovery_stop_fences =
          prune_fences env kept.receipts kept.recovery_stop_fences kept.recovery_stop_fences;
    } in
    let trimmed = prune_reconciliation_sessions env fenced in
    record trimmed {
      autonomous_goals = prune_goals env.max_entries (cutoff env) trimmed.autonomous_goals;
    }

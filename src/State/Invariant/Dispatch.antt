-- ===== src/State/Invariant/Dispatch.antt =====
-- The later operations on a claim keep the invariant: the dispatch marker, the release, the end of
-- a turn, and the activities' ids. A claim that has its marker keeps it through all but its end.
use linear_agent_bridge.Base.{
  ◌≡◌, refl, ◌∙◌, ap, subst, Bool, true, false, inl, inr, Option, none, some, Text, lookup, arith,
  Bool-cases, is_some, if◌then◌else◌,
}
use linear_agent_bridge.Base.Dicts.{lookup-put}
use linear_agent_bridge.State.Types.{
  IngressStatus, Receipt, ClaimStatus, Claim, Cursor, Fence, State, Env, Error,
}
use linear_agent_bridge.State.Steps.{done, throw_if, Quiet, Runs, Runs-Quiet, throw_if-Quiet}
use linear_agent_bridge.State.Checks.{
  clear_recovery_envelope, validate_identifier, validate_identifier-Quiet, validate_cursor-Quiet,
  max_identifier_length,
}
use linear_agent_bridge.State.Claiming.{put_receipt, put_claim, mark_superseded}
use linear_agent_bridge.State.Dispatch.{
  Owned, owned_active_claim, supersede_owned, dispatched_receipt, mark_dispatch_started,
  DispatchStart, fence_webhook_id, fence_at_or_after, session_stop_fence, is_foreign_cursor,
  is_fenced_for_recovery, turn_back, dispatch_unless_fenced, start_dispatch, begin_event_dispatch,
  validate_optional_cursor,
}
use linear_agent_bridge.State.Invariant.{IsReceipt}
use linear_agent_bridge.State.Invariant.Claiming.{Kept, Good, put_pair-Good, SameExecution-found}

-- What `owned_active_claim` returns.
pub record OwnedIn (env : Env) (s : State) (webhook_id : Text) (o : Owned) : Type 0 where
  pub receipt_found : lookup webhook_id s.receipts ≡ some o.receipt
  pub claim_found : lookup (o.receipt).execution_id s.claims ≡ some o.claim
  pub receipt_claimed : (o.receipt).status ≡ IngressStatus.claimed
  pub claim_active : (o.claim).status ≡ ClaimStatus.claimed
  pub held : (o.claim).webhook_id ≡ webhook_id
  pub mine : (o.claim).owner_id ≡ env.owner_id

pub owned_active_claim-OwnedIn :
    (env : Env) (s : State) (webhook_id : Text) (o : Owned)
    → owned_active_claim env s webhook_id ≡ done o
    → OwnedIn env s webhook_id o
unfolding owned_active_claim
owned_active_claim-OwnedIn env s webhook_id o h = ground arith

pub owned_active_claim-Quiet :
    (env : Env) (s : State) (webhook_id : Text) → Quiet (owned_active_claim env s webhook_id)
unfolding owned_active_claim
owned_active_claim-Quiet env s webhook_id = ground arith

-- A watched claim that has its dispatch marker.
abbrev pub Marked : Option Claim → Type 0
Marked none = Unit {0}
Marked (some c) = is_some c.dispatch_started_at ≡ true

-- The claim that is written anew is not the watched one.
pub Kept-spare : (w o : Option Claim) → w ≡ none → Kept w o
Kept-spare none o e = tt
Kept-spare (some c) o e = cc

pub spare-Marked :
    (w : Option Claim) (c : Claim)
    → Marked w
    → c.dispatch_started_at ≡ none
    → Kept w (some c)
    → w ≡ none
spare-Marked none c m e h = refl
spare-Marked (some x) c m e h = ground arith

module _ (env : Env) (k : Text) (w : Option Claim) (s : State) (webhook_id : Text) (o : Owned)
    (g : Good k w s) (own : OwnedIn env s webhook_id o) where
  pub keys_agree :
      ((o.receipt).webhook_id ≡ webhook_id) × ((o.claim).execution_id ≡ (o.receipt).execution_id)
  keys_agree = (
    ground (arith, own.receipt_found, g.inv.receipt webhook_id),
    ground (arith, own.claim_found, g.inv.claim (o.receipt).execution_id),
  )

  pub Kept-claim : k ≡ (o.receipt).execution_id → Kept w (some o.claim)
  Kept-claim e = subst (Kept w) (ap (λ j. lookup j s.claims) e ∙ own.claim_found) g.kept

  -- The pair of the owned claim and its receipt, written anew.
  pub rewritten-Good :
      (r : Receipt) (c : Claim)
      → r.identity ≡ (o.receipt).identity
      → c.execution_id ≡ (o.claim).execution_id
      → c.webhook_id ≡ (o.claim).webhook_id
      → (c.status ≡ ClaimStatus.claimed
          → (r.status ≡ IngressStatus.claimed) × (r.dispatch_started_at ≡ c.dispatch_started_at))
      → (k ≡ (o.receipt).execution_id → Kept w (some c))
      → IsReceipt r.webhook_id (some r)
      → Good k w (put_claim c (put_receipt r s))
  rewritten-Good r c a b d agree kept ok =
      put_pair-Good env k w s r c g (ground (arith, keys_agree))
        (SameExecution-found o.receipt r _ (ground (arith, keys_agree, own.receipt_found)) a)
        (λ e. (ground (arith, keys_agree, own.held), (agree e).0, (agree e).1))
        (λ e. kept (ground (arith, keys_agree))) ok

  module _ (marked : Marked w) (undispatched : (o.claim).dispatch_started_at ≡ none) where
    spare : k ≡ (o.receipt).execution_id → (c : Option Claim) → Kept w c
    spare e c = Kept-spare w c (spare-Marked w o.claim marked undispatched (Kept-claim e))

    pub superseded-Good :
        (by : Text)
        → Good k w (
            put_claim
              (record o.claim { status = ClaimStatus.completed; updated_at = env.now })
              (put_receipt (mark_superseded env.now by o.receipt) s))
    unfolding mark_superseded clear_recovery_envelope
    superseded-Good by =
        rewritten-Good (mark_superseded env.now by o.receipt) _ refl refl refl (λ e. cc)
          (λ e. spare e _) (refl, (λ e. cc), (λ e. refl), (λ e. refl))

    marked-Good : Good k w (mark_dispatch_started env s o.claim o.receipt)
    unfolding mark_dispatch_started dispatched_receipt clear_recovery_envelope
    marked-Good =
        rewritten-Good _
          (record o.claim { dispatch_started_at = some env.now; updated_at = env.now }) refl refl
          refl (λ e. (own.receipt_claimed, refl)) (λ e. spare e _)
          (ground (arith, own.receipt_claimed))

-- The claim of a delivery's execution.
abbrev pub claim_of_receipt : State → Option Receipt → Option Claim
claim_of_receipt s none = none
claim_of_receipt s (some r) = lookup r.execution_id s.claims

abbrev pub claim_of : State → Text → Option Claim
claim_of s webhook_id = claim_of_receipt s (lookup webhook_id s.receipts)

-- The execution runs for this process; the execution is over and was never dispatched.
abbrev pub RunsHere : Env → Option Claim → Type 0
RunsHere env none = ⊥
RunsHere env (some c) =
    (c.status ≡ ClaimStatus.claimed)
    × (c.owner_id ≡ env.owner_id)
    × (is_some c.dispatch_started_at ≡ true)

abbrev pub NeverRuns : Option Claim → Type 0
NeverRuns none = ⊥
NeverRuns (some c) = (c.status ≡ ClaimStatus.completed) × (c.dispatch_started_at ≡ none)

-- What the answer of `beginEventDispatch` says of the disk.
abbrev pub IsStart : Env → Text → State → DispatchStart → Type 0
IsStart env webhook_id d DispatchStart.dispatch_started = RunsHere env (claim_of d webhook_id)
IsStart env webhook_id d DispatchStart.superseded = NeverRuns (claim_of d webhook_id)

module _ (env : Env) (k : Text) (w : Option Claim) (s : State) (webhook_id : Text) (o : Owned)
    (g : Good k w s) (owned : owned_active_claim env s webhook_id ≡ done o) (marked : Marked w)
    (undispatched : (o.claim).dispatch_started_at ≡ none) where
  own : OwnedIn env s webhook_id o
  own = owned_active_claim-OwnedIn env s webhook_id o owned

  pub ended : Text → State
  ended by =
      put_claim (record o.claim { status = ClaimStatus.completed; updated_at = env.now })
        (put_receipt (mark_superseded env.now by o.receipt) s)

  pub supersede_owned-ended : (by : Text) → supersede_owned env s webhook_id by ≡ done (ended by)
  unfolding supersede_owned ended
  supersede_owned-ended by = rw (owned, undispatched) refl

  pub ended-Good : (by : Text) → Good k w (ended by)
  unfolding ended
  ended-Good by = superseded-Good env k w s webhook_id o g own marked undispatched by

  pub ended-NeverRuns : (by : Text) → NeverRuns (claim_of (ended by) webhook_id)
  unfolding ended mark_superseded clear_recovery_envelope
  ended-NeverRuns by = ground (
    arith,
    keys_agree env k w s webhook_id o g own,
    lookup-put webhook_id (o.receipt).webhook_id (mark_superseded env.now by o.receipt) s.receipts,
    lookup-put (o.receipt).execution_id (o.claim).execution_id
        (record o.claim { status = ClaimStatus.completed; updated_at = env.now }) s.claims,
  )

  turn_back-Runs :
      (d : State) (by : Text)
      → Runs (Good k w) (IsStart env webhook_id) d (turn_back env s webhook_id by)
  turn_back-Runs d by = rw (supersede_owned-ended by) (ended-Good by, ended-NeverRuns by)

  marked-RunsHere :
      RunsHere env (claim_of (mark_dispatch_started env s o.claim o.receipt) webhook_id)
  unfolding mark_dispatch_started dispatched_receipt clear_recovery_envelope
  marked-RunsHere = ground (
    arith,
    keys_agree env k w s webhook_id o g own,
    own.claim_active,
    own.mine,
    lookup-put webhook_id (o.receipt).webhook_id (dispatched_receipt env o.receipt) s.receipts,
    lookup-put (o.receipt).execution_id (o.claim).execution_id
        (record o.claim { dispatch_started_at = some env.now; updated_at = env.now }) s.claims,
  )

  dispatch_unless_fenced-Runs :
      (d : State) (f : Option Cursor)
      → Runs (Good k w) (IsStart env webhook_id) d (dispatch_unless_fenced env s webhook_id o f)
  dispatch_unless_fenced-Runs d none =
      (marked-Good env k w s webhook_id o g own marked undispatched, marked-RunsHere)
  dispatch_unless_fenced-Runs d (some f) = turn_back-Runs d _

  is_fenced-Quiet : (f : Option Fence) → Quiet (is_fenced_for_recovery env o.receipt f)
  unfolding is_fenced_for_recovery
  is_fenced-Quiet none = tt
  is_fenced-Quiet (some f) = ground arith

  start_dispatch-Runs :
      (d : State) (cursor : Option Cursor)
      → Runs (Good k w) (IsStart env webhook_id) d (start_dispatch env s webhook_id cursor o)
  unfolding start_dispatch
  start_dispatch-Runs d cursor =
      Runs-Quiet (Good k w) (IsStart env webhook_id)
        (throw_if (is_foreign_cursor o.receipt cursor) Error.cursor_mismatch) _ d
        (throw_if-Quiet (is_foreign_cursor o.receipt cursor) Error.cursor_mismatch)
        λ a _.
          Runs-Quiet (Good k w) (IsStart env webhook_id)
            (is_fenced_for_recovery env o.receipt fence) _ d (is_fenced-Quiet fence) branch
    where
      fence : Option Fence
      fence = lookup (o.receipt).linear_session_id s.recovery_stop_fences

      branch :
          (b : Bool)
          → is_fenced_for_recovery env o.receipt fence ≡ done b
          → Runs (Good k w) (IsStart env webhook_id) d (
              if b
              then turn_back env s webhook_id (fence_webhook_id fence)
              else dispatch_unless_fenced env s webhook_id o (
                  fence_at_or_after env cursor (
                    session_stop_fence
                      (lookup (o.receipt).linear_session_id s.reconciliation_sessions))))
      branch true e = turn_back-Runs d _
      branch false e = dispatch_unless_fenced-Runs d _

-- `beginEventDispatch` keeps the invariant and every marked claim, and its answer is true of the
-- disk. With the marker already there it writes nothing.
module _ (env : Env) (k : Text) (w : Option Claim) (s : State) (webhook_id : Text)
    (g : Good k w s) where
  validate_optional_cursor-Quiet : (c : Option Cursor) → Quiet (validate_optional_cursor env c)
  validate_optional_cursor-Quiet none = tt
  validate_optional_cursor-Quiet (some c) = validate_cursor-Quiet env c

  already-RunsHere :
      (o : Owned)
      → OwnedIn env s webhook_id o
      → is_some (o.claim).dispatch_started_at ≡ true
      → RunsHere env (claim_of s webhook_id)
  already-RunsHere o own e =
      ground (arith, own.receipt_found, own.claim_found, own.claim_active, own.mine)

  pub begin_event_dispatch-Runs :
      (cursor : Option Cursor)
      → Marked w
      → Runs (Good k w) (IsStart env webhook_id) s (begin_event_dispatch env s webhook_id cursor)
  unfolding begin_event_dispatch
  begin_event_dispatch-Runs cursor marked =
      Runs-Quiet (Good k w) (IsStart env webhook_id)
        (validate_identifier webhook_id max_identifier_length) _ s
        (validate_identifier-Quiet webhook_id max_identifier_length)
        λ a _.
          Runs-Quiet (Good k w) (IsStart env webhook_id) (validate_optional_cursor env cursor) _ s
            (validate_optional_cursor-Quiet cursor)
            λ b _.
              Runs-Quiet (Good k w) (IsStart env webhook_id) (owned_active_claim env s webhook_id) _
                s (owned_active_claim-Quiet env s webhook_id) branch
    where
      branch :
          (o : Owned)
          → owned_active_claim env s webhook_id ≡ done o
          → Runs (Good k w) (IsStart env webhook_id) s (
              if is_some (o.claim).dispatch_started_at
              then done DispatchStart.dispatch_started
              else start_dispatch env s webhook_id cursor o)
      branch o e = elim (Bool-cases (is_some (o.claim).dispatch_started_at)) [
        | inl old ↦
            rw old (already-RunsHere o (owned_active_claim-OwnedIn env s webhook_id o e) old)
        | inr new ↦
            rw new (start_dispatch-Runs env k w s webhook_id o g e marked (ground arith) s cursor)
      ]

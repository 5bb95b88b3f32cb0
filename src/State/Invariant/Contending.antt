-- ===== src/State/Invariant/Contending.antt =====
-- The branches of `claimEventInState` on the claim of the execution keep the invariant and every
-- active claim, and grant an execution only undispatched.
use linear_agent_bridge.Base.{
  ◌≡◌, ◌≢◌, refl, sym, subst, inl, inr, Option, none, some, Text, lookup, put, arith, Bool-cases,
  Option-cases, text_dec, same, is_some, if◌then◌else◌, leb, length,
}
use linear_agent_bridge.Base.Dicts.{lookup-put, lookup-put_self, lookup-put_ne, put-put}
use linear_agent_bridge.Recovery.Types.{Identity, Payload}
use linear_agent_bridge.State.Types.{
  IngressStatus, Disposition, Receipt, ClaimStatus, Claim, Goal, State, Env,
}
use linear_agent_bridge.State.Steps.{Runs, Runs->>=}
use linear_agent_bridge.State.Checks.{clear_recovery_envelope, max_activity_ids_per_claim}
use linear_agent_bridge.State.Prune.{prune}
use linear_agent_bridge.State.Claiming.{
  ClaimResult, put_receipt, put_claim, new_claim, mark_superseded, mark_claimed, supersede_prior,
  take_over, report_ambiguous, turn_away, contend, is_active_elsewhere, record_autonomous_guidance,
  add_guidance, takes_guidance, grant, is_guidance,
}
use linear_agent_bridge.State.Invariant.{
  Inv, IsReceipt, IsClaim, Holds, Agrees, put_receipt-Inv, put_claim-Inv, put_pair-Inv,
}
use linear_agent_bridge.State.Invariant.Pruning.{prune-active, prune-live, Inv-cong}
use linear_agent_bridge.State.Invariant.Claiming.{
  Kept, Good, SameRecords, Current, Good-cong, prune-Good, put_receipt-Good, put_pair-Good,
  Current-IsReceipt, SameExecution-found,
}

-- The execution of the receipt is claimed by this process through this receipt, and has not been
-- dispatched.
abbrev pub Granted : Env → Receipt → Option Claim → Type 0
Granted env r none = ⊥
Granted env r (some c) =
    (c.status ≡ ClaimStatus.claimed)
    × (c.owner_id ≡ env.owner_id)
    × (c.webhook_id ≡ r.webhook_id)
    × (c.dispatch_started_at ≡ none)

-- The answer `claimed` to a call with the identity `i` is given only with the receipt of `i`, as it
-- stands on disk under the delivery of `i`, and only if the execution of `i` is granted on disk.
abbrev pub IsGrant : Env → Identity → State → ClaimResult → Type 0
IsGrant env i d a =
    a.disposition ≡ Disposition.claimed
    → ((a.receipt).identity ≡ i)
      × (lookup i.webhook_id d.receipts ≡ some a.receipt)
      × Granted env a.receipt (lookup i.execution_id d.claims)

-- An undispatched claim may pass to another delivery and process.
pub Kept-same :
    (w : Option Claim) (c c' : Claim)
    → c'.status ≡ c.status
    → c.status ≡ ClaimStatus.claimed
    → c.dispatch_started_at ≡ none
    → Kept w (some c)
    → c'.dispatch_started_at ≡ none
    → Kept w (some c')
Kept-same none c c' a b e h f = tt
Kept-same (some x) c c' a b e h f =
    (ground arith, ground arith, (λ m. absurd (ground arith)), (λ m. absurd (ground arith)))

module _ (env : Env) (k : Text) (w : Option Claim) (s : State) (r : Receipt) (cur : Current k w s r)
    (fresh : r.status ≡ IngressStatus.received) where
  Holds-absurd :
      (c : Claim) → Holds c (lookup c.webhook_id s.receipts) → c.webhook_id ≢ r.webhook_id
  Holds-absurd c h e = ground (arith, cur.found)

  -- An active claim is not held through a receipt that is still `received`.
  received-unheld_at :
      (o : Option Claim) (c : Claim)
      → o ≡ some c
      → IsClaim r.execution_id o s.receipts
      → c.status ≡ ClaimStatus.claimed
      → c.webhook_id ≢ r.webhook_id
  received-unheld_at none c e h a = cc
  received-unheld_at (some c') c e h a = Holds-absurd c (ground arith)

  received-unheld :
      (c : Claim)
      → lookup r.execution_id s.claims ≡ some c
      → c.status ≡ ClaimStatus.claimed
      → c.webhook_id ≢ r.webhook_id
  received-unheld c e a =
      received-unheld_at (lookup r.execution_id s.claims) c e (cur.good.inv.claim r.execution_id) a

  -- A receipt of the same identity may take its place, whatever it says.
  Agrees-received :
      (r' : Receipt) (o : Option Claim)
      → r'.identity ≡ r.identity
      → lookup r.execution_id s.claims ≡ o
      → Agrees r' o
  Agrees-received r' none same e = tt
  Agrees-received r' (some c) same e = λ a b. absurd (received-unheld c e a (ground arith))

  replace-Good :
      (r' : Receipt)
      → r'.identity ≡ r.identity
      → IsReceipt r'.webhook_id (some r')
      → Good k w (put_receipt r' s)
  replace-Good r' same ok =
      put_receipt-Good env k w s r' cur.good ok
        (SameExecution-found r r' _ (ground (arith, cur.found)) same)
        (Agrees-received r' _ same (ground arith))

  pub report_ambiguous-Runs :
      (d : State) (c : Claim)
      → Runs (Good k w) (IsGrant env r.identity) d (report_ambiguous env s r c)
  unfolding report_ambiguous mark_superseded clear_recovery_envelope
  report_ambiguous-Runs d c =
      (replace-Good _ (ground arith) (ground arith), (λ e. absurd (ground arith)))

  pub turn_away-Runs :
      (d : State) (c : Claim) → Runs (Good k w) (IsGrant env r.identity) d (turn_away env s r c)
  unfolding turn_away mark_superseded clear_recovery_envelope
  turn_away-Runs d c =
      (prune-Good env k w _ (replace-Good _ refl (ground arith)), (λ e. absurd (ground arith)))

  -- The receipt as it is granted, and the claim as it is taken over.
  granted_IsReceipt : IsReceipt r.webhook_id (some (mark_claimed env r))
  unfolding mark_claimed
  granted_IsReceipt = let known = Current-IsReceipt env k w s r cur in ground arith

  module _ (c : Claim) (found : lookup r.execution_id s.claims ≡ some c)
      (active : c.status ≡ ClaimStatus.claimed) (undispatched : c.dispatch_started_at ≡ none) where
    -- The claim, out of the way.
    ended : Claim
    ended = record c { status = ClaimStatus.completed }

    claim_key : c.execution_id ≡ r.execution_id
    claim_key = ground (arith, cur.good.inv.claim r.execution_id)

    ended-Inv : Inv (put_claim ended s)
    unfolding ended
    ended-Inv = put_claim-Inv s cur.good.inv ended (refl, (λ e. cc))

    prior-Inv :
        (prior : Receipt)
        → lookup c.webhook_id s.receipts ≡ some prior
        → Inv (put_receipt (mark_superseded env.now r.webhook_id prior) (put_claim ended s))
    unfolding mark_superseded clear_recovery_envelope ended
    prior-Inv prior e =
        put_receipt-Inv (put_claim ended s) ended-Inv _ (ground arith)
          (SameExecution-found prior (mark_superseded env.now r.webhook_id prior) _
            (ground (arith, cur.good.inv.receipt c.webhook_id)) refl)
          (ground (
            arith,
            cur.good.inv.receipt c.webhook_id,
            cur.good.inv.claim r.execution_id,
            lookup-put prior.execution_id c.execution_id ended s.claims,
          ))

    -- `take_over` writes this pair.
    taken : Claim
    taken = record c {
      webhook_id = r.webhook_id;
      owner_id = env.owner_id;
      claimed_at = env.now;
      updated_at = env.now;
      recovery_sequence =
          if is_some r.recovery_sequence then r.recovery_sequence else c.recovery_sequence;
      dispatch_started_at = none;
    }

    taken-Inv :
        (prior : Receipt)
        → lookup c.webhook_id s.receipts ≡ some prior
        → Inv (
            put_claim taken (
              put_receipt
                (mark_claimed env r)
                (put_receipt (mark_superseded env.now r.webhook_id prior) (put_claim ended s))))
    unfolding taken mark_claimed mark_superseded clear_recovery_envelope ended
    taken-Inv prior e =
        put_pair-Inv (put_receipt (mark_superseded env.now r.webhook_id prior) (put_claim ended s))
          (prior-Inv prior e) (mark_claimed env r) taken claim_key
          (ground (
            arith,
            cur.found,
            received-unheld c found active,
            cur.good.inv.receipt c.webhook_id,
            lookup-put r.webhook_id prior.webhook_id (mark_superseded env.now r.webhook_id prior)
                s.receipts,
          ))
          (λ _. (refl, refl, ground (arith, cur.good.inv.receipt r.webhook_id, cur.found)))
          granted_IsReceipt

    Kept-here : k ≡ c.execution_id → Kept w (some c)
    Kept-here e = subst (Kept w) (ground (arith, claim_key)) cur.good.kept

    taken-Kept : Kept w (lookup k (put c.execution_id taken s.claims))
    unfolding taken
    taken-Kept = elim (text_dec k c.execution_id) [
      | yes e ↦
          rw (e, lookup-put_self c.execution_id taken s.claims)
            (Kept-same w c taken refl active undispatched (Kept-here e) refl)
      | no e ↦ rw (lookup-put_ne k c.execution_id taken s.claims (λ p. e (sym p))) cur.good.kept
    ]

    taken-Good :
        (prior : Receipt)
        → lookup c.webhook_id s.receipts ≡ some prior
        → Good k w (
            put_claim taken (
              put_receipt
                (mark_claimed env r)
                (put_receipt (mark_superseded env.now r.webhook_id prior) s)))
    unfolding ended taken mark_claimed mark_superseded clear_recovery_envelope
    taken-Good prior e = record {
      inv =
          Inv-cong
            (put_claim taken (
              put_receipt (mark_claimed env r)
                (put_receipt (mark_superseded env.now r.webhook_id prior) (put_claim ended s))))
            (put_claim taken (
              put_receipt (mark_claimed env r)
                (put_receipt (mark_superseded env.now r.webhook_id prior) s)))
            refl (sym (put-put c.execution_id taken ended s.claims)) (taken-Inv prior e);
      kept = taken-Kept;
    }

    holder :
        (o : Option Receipt)
        → lookup c.webhook_id s.receipts ≡ o
        → (prior : Receipt) × (lookup c.webhook_id s.receipts ≡ some prior)
          × (prior.webhook_id ≢ r.webhook_id)
    holder none e = absurd (ground (arith, cur.good.inv.claim r.execution_id))
    holder (some prior) e = (
      prior,
      e,
      ground (arith, cur.good.inv.receipt c.webhook_id, received-unheld c found active),
    )

    freed :
        (prior : Receipt)
        → prior.webhook_id ≢ r.webhook_id
        → supersede_prior env r (some prior) s
          ≡ put_receipt (mark_superseded env.now r.webhook_id prior) s
    freed prior other = ground arith

    taken-Granted :
        Granted env (mark_claimed env r) (lookup r.execution_id (put c.execution_id taken s.claims))
    unfolding taken mark_claimed
    taken-Granted =
        ground (arith, lookup-put r.execution_id c.execution_id taken s.claims, claim_key)

    pub take_over-Runs :
        (d : State) → Runs (Good k w) (IsGrant env r.identity) d (take_over env s r c)
    unfolding take_over taken mark_claimed
    take_over-Runs d =
        let (prior, e, other) = holder (lookup c.webhook_id s.receipts) refl in
        rw (e, freed prior other)
          (
            taken-Good prior e,
            (λ _. (refl, lookup-put_self r.webhook_id (mark_claimed env r) _, taken-Granted)),
          )

  -- Every branch on an existing claim.
  pub contend-Runs :
      (d : State) (c : Claim)
      → lookup r.execution_id s.claims ≡ some c
      → Runs (Good k w) (IsGrant env r.identity) d (contend env s r c)
  unfolding contend
  contend-Runs d c e = elim (Bool-cases (is_active_elsewhere env c)) [
    | inl elsewhere ↦ elim (Option-cases c.dispatch_started_at) [
      | inl undispatched ↦
          rw (elsewhere, undispatched) (take_over-Runs c e (ground arith) undispatched d)
      | inr (t, dispatched) ↦ rw (elsewhere, dispatched) (report_ambiguous-Runs d c)
    ]
    | inr own ↦ rw own (turn_away-Runs d c)
  ]

-- Recording guidance writes nothing, and changes neither receipts nor claims.
module _ (P : State → Type 0) (d : State) (env : Env) (s : State) (i : Identity) where
  add_guidance-Runs :
      (o : Option Goal) → Runs P (λ d' t. SameRecords s t) d (add_guidance env i o s)
  add_guidance-Runs none = (refl, refl)
  add_guidance-Runs (some g) = elim (Bool-cases (takes_guidance i.execution_id g)) [
    | inl takes ↦
        elim (Bool-cases (leb max_activity_ids_per_claim (length g.pending_guidance_ids))) [
          | inl full ↦ rw (takes, full) tt
          | inr room ↦ rw (takes, room) (refl, refl)
        ]
    | inr old ↦ rw old (refl, refl)
  ]

  pub record_autonomous_guidance-Runs :
      (p : Option Payload)
      → Runs P (λ d' t. SameRecords s t) d (record_autonomous_guidance env s i p)
  unfolding record_autonomous_guidance
  record_autonomous_guidance-Runs p = elim (Bool-cases (is_guidance i p)) [
    | inl e ↦ rw e (add_guidance-Runs (lookup i.linear_session_id s.autonomous_goals))
    | inr e ↦ rw e (refl, refl)
  ]

-- A watched claim is there.
Kept-absent : (w : Option Claim) (o o' : Option Claim) → o ≡ none → Kept w o → Kept w o'
Kept-absent none o o' e h = tt
Kept-absent (some c) none o' e h = absurd h
Kept-absent (some c) (some c') o' e h = cc

module _ (env : Env) (k : Text) (w : Option Claim) (s : State) (r : Receipt) (cur : Current k w s r)
    (fresh : r.status ≡ IngressStatus.received)
    (unclaimed : lookup r.execution_id s.claims ≡ none) where
  -- What `grant` stores before guidance is recorded.
  first : State
  first = put_claim (new_claim env r.identity r) (put_receipt (mark_claimed env r) s)

  first-Good : Good k w first
  unfolding first mark_claimed
  first-Good =
      put_pair-Good env k w s (mark_claimed env r) (new_claim env r.identity r) cur.good refl
        (SameExecution-found r (mark_claimed env r) _ cur.found refl)
        (λ _. (refl, refl, ground (arith, cur.good.inv.receipt r.webhook_id, cur.found)))
        (λ e. Kept-absent w (lookup k s.claims) _ (rw e unclaimed) cur.good.kept)
        (granted_IsReceipt env k w s r cur fresh)

  given-Granted :
      (t : State)
      → SameRecords first t
      → Granted env (mark_claimed env r) (lookup r.execution_id (prune env t).claims)
  unfolding first mark_claimed
  given-Granted t same =
      rw
        (prune-active r.execution_id (new_claim env r.identity r) refl env t
          (Good-cong env k w first t same first-Good).inv
          (rw same.1 (lookup-put_self r.execution_id (new_claim env r.identity r) s.claims)))
        (refl, refl, refl, refl)

  given-found :
      (t : State)
      → SameRecords first t
      → lookup r.webhook_id (prune env t).receipts ≡ some (mark_claimed env r)
  unfolding first mark_claimed
  given-found t same =
      prune-live r.webhook_id (mark_claimed env r) refl env t
        (Good-cong env k w first t same first-Good).inv
        (rw same.0 (lookup-put_self r.webhook_id (mark_claimed env r) s.receipts))

  grant_own-Runs :
      (d : State) (p : Option Payload)
      → Runs (Good k w) (IsGrant env r.identity) d (grant env s r.identity p r)
  unfolding grant first mark_claimed
  grant_own-Runs d p =
      Runs->>= (Good k w) (λ d' t. SameRecords first t) (IsGrant env r.identity)
        (record_autonomous_guidance env first r.identity p) _ d
        (record_autonomous_guidance-Runs (Good k w) d env first r.identity p)
        (λ d' t same. (
          prune-Good env k w t (Good-cong env k w first t same first-Good),
          (λ _. (refl, given-found t same, given-Granted t same)),
        ))

  -- The first claim of an execution.
  pub grant-Runs :
      (d : State) (i : Identity) (p : Option Payload)
      → i ≡ r.identity
      → Runs (Good k w) (IsGrant env r.identity) d (grant env s i p r)
  grant-Runs d i p e = rw e (grant_own-Runs d p)

-- ===== src/State/Invariant/ClaimEvent.antt =====
-- `claimEvent` as a whole: the invariant, what happens to active claims, and what its answer
-- `claimed` means.
use linear_agent_bridge.Base.{
  ◌≡◌, ◌≢◌, refl, sym, ◌∙◌, subst, Bool, true, not, ◌&&◌, inl, inr, Option, none, some, Text,
  lookup, put, arith, Bool-cases, same, is_some, if◌then◌else◌, any,
}
use linear_agent_bridge.Base.Dicts.{lookup-put, lookup-put_self}
use linear_agent_bridge.Recovery.Types.{Identity, Payload}
use linear_agent_bridge.State.Types.{IngressStatus, Disposition, Receipt, Claim, State, Env, Error}
use linear_agent_bridge.State.Steps.{
  Steps, throw_if, ◌>>◌, Runs, Runs->>=, Runs-throw_if, Runs-Quiet,
}
use linear_agent_bridge.State.Checks.{
  same_identity, validate_identity, validate_identity-Quiet, accepted_outcome,
}
use linear_agent_bridge.State.Prune.{prune}
use linear_agent_bridge.State.Claiming.{
  ClaimResult, put_receipt, put_claim, mark_claimed, is_received, register, attach_recovery,
}
use linear_agent_bridge.State.Claim.{
  is_live_pair, grant_again, regrant_own, answer, answer_ambiguous, resolve_live, resolve_settled,
  resolve_with, resolve_existing_receipt, claim_with, claim_execution, claim_seen, claim_unseen,
  claim_by_receipt, claim_event_in_state, claim_event, is_ambiguous, repeated_disposition,
}
use linear_agent_bridge.State.Invariant.Claiming.{
  Kept, Good, Current, prune-Good, put_pair-Good, Current-IsReceipt, SameExecution-found, Attached,
  put_same-Current, register-Runs, attach_recovery-Runs,
}
use linear_agent_bridge.State.Invariant.Contending.{
  Granted, IsGrant, contend-Runs, grant-Runs, Kept-same,
}

repeated-ne-claimed : (st : IngressStatus) → repeated_disposition st ≢ Disposition.claimed
repeated-ne-claimed IngressStatus.superseded = λ e. cc
repeated-ne-claimed _ = λ e. cc

module _ (env : Env) (k : Text) (w : Option Claim) (s : State) (r : Receipt)
    (cur : Current k w s r) where
  answer-Runs :
      (d : State) (x : Disposition)
      → x ≢ Disposition.claimed
      → Runs (Good k w) (IsGrant env r.identity) d (answer env s r x)
  unfolding answer
  answer-Runs d x other = (
    (put_same-Current env k w s s r _ cur (refl, refl) refl refl refl
        (Current-IsReceipt env k w s r cur)).good,
    (λ e. absurd (other e)),
  )

  answer_ambiguous-Runs :
      (d : State) → Runs (Good k w) (IsGrant env r.identity) d (answer_ambiguous env s r)
  unfolding answer_ambiguous
  answer_ambiguous-Runs d = (
    (put_same-Current env k w s s r _ cur (refl, refl) refl refl refl
        (Current-IsReceipt env k w s r cur)).good,
    (λ e. absurd (ground arith)),
  )

  resolve_settled-Runs :
      (d : State) → Runs (Good k w) (IsGrant env r.identity) d (resolve_settled env s r)
  unfolding resolve_settled
  resolve_settled-Runs d = elim (Bool-cases (is_ambiguous r.outcome.disposition)) [
    | inl e ↦ rw e (λ h. cc)
    | inr e ↦ rw e (answer-Runs d (repeated_disposition r.status) (repeated-ne-claimed r.status))
  ]

  module _ (c : Claim) (found : lookup r.execution_id s.claims ≡ some c)
      (live : is_live_pair r c ≡ true) (undispatched : c.dispatch_started_at ≡ none) where
    regranted-Good :
        (r' : Receipt) (c' : Claim)
        → r'.identity ≡ r.identity
        → r'.status ≡ r.status
        → r'.dispatch_started_at ≡ r.dispatch_started_at
        → r'.recovery_envelope ≡ r.recovery_envelope
        → c'.execution_id ≡ c.execution_id
        → c'.webhook_id ≡ c.webhook_id
        → c'.status ≡ c.status
        → c'.dispatch_started_at ≡ c.dispatch_started_at
        → Good k w (put_claim c' (put_receipt r' s))
    regranted-Good r' c' a b x y e f g h =
        let known = Current-IsReceipt env k w s r cur in
        let mine = cur.good.inv.claim r.execution_id in
        put_pair-Good env k w s r' c' cur.good (ground arith)
          (SameExecution-found r r' _ (ground (arith, cur.found)) a)
          (λ _. ground (arith, cur.found))
          (λ here.
            Kept-same w c c' g (ground arith) undispatched
              (subst (Kept w) (ground arith) cur.good.kept) (ground arith))
          (ground arith)

    regranted-Granted :
        (r' : Receipt) (c' : Claim)
        → r'.identity ≡ r.identity
        → c'.execution_id ≡ c.execution_id
        → c'.webhook_id ≡ c.webhook_id
        → c'.status ≡ c.status
        → c'.dispatch_started_at ≡ c.dispatch_started_at
        → c'.owner_id ≡ env.owner_id
        → Granted env r' (lookup r'.execution_id (put c'.execution_id c' s.claims))
    regranted-Granted r' c' a e f g h o =
        let mine = cur.good.inv.claim r.execution_id in
        ground (arith, lookup-put r'.execution_id c'.execution_id c' s.claims)

    grant_again-Runs :
        (d : State) → Runs (Good k w) (IsGrant env r.identity) d (grant_again env s r c)
    unfolding grant_again mark_claimed
    grant_again-Runs d = (
      regranted-Good _ _ refl (ground arith) refl refl refl refl refl refl,
      (λ _. (
        refl,
        lookup-put_self r.webhook_id (mark_claimed env r) s.receipts,
        regranted-Granted (mark_claimed env r) _ refl refl refl refl refl refl,
      )),
    )

    regrant_own-Runs :
        (d : State)
        → c.owner_id ≡ env.owner_id
        → Runs (Good k w) (IsGrant env r.identity) d (regrant_own env s r c)
    unfolding regrant_own
    regrant_own-Runs d mine = (
      regranted-Good _ _ refl refl refl refl refl refl refl refl,
      (λ _. (
        refl,
        lookup-put_self r.webhook_id _ s.receipts,
        regranted-Granted
            (record r {
              claimed_at = some env.now;
              updated_at = env.now;
              outcome = accepted_outcome;
            })
            _ refl refl refl refl refl mine,
      )),
    )

  resolve_live-Runs :
      (d : State) (c : Claim)
      → lookup r.execution_id s.claims ≡ some c
      → is_live_pair r c ≡ true
      → Runs (Good k w) (IsGrant env r.identity) d (resolve_live env s r c)
  unfolding resolve_live
  resolve_live-Runs d c found live = elim (Bool-cases (is_some c.dispatch_started_at)) [
    | inl marked ↦ elim (Bool-cases (same c.owner_id env.owner_id)) [
      | inl mine ↦ rw (mine, marked) (answer-Runs d Disposition.duplicate (λ e. cc))
      | inr other ↦ rw (other, marked) (answer_ambiguous-Runs d)
    ]
    | inr unmarked ↦ elim (Bool-cases (same c.owner_id env.owner_id)) [
      | inr other ↦ rw (other, unmarked) (grant_again-Runs c found live (ground arith) d)
      | inl mine ↦ elim (Bool-cases (any (same r.webhook_id) env.locally_accepted)) [
        | inl known ↦ rw (mine, unmarked, known) (answer-Runs d Disposition.duplicate (λ e. cc))
        | inr lost ↦
            rw (mine, unmarked, lost)
              (regrant_own-Runs c found live (ground arith) d (ground arith))
      ]
    ]
  ]

  resolve_with-Runs :
      (d : State) (o : Option Claim)
      → lookup r.execution_id s.claims ≡ o
      → Runs (Good k w) (IsGrant env r.identity) d (resolve_with env s r o)
  resolve_with-Runs d none e = resolve_settled-Runs d
  resolve_with-Runs d (some c) e = elim (Bool-cases (is_live_pair r c)) [
    | inl live ↦ rw live (resolve_live-Runs d c e live)
    | inr dead ↦ rw dead (resolve_settled-Runs d)
  ]

  resolve_existing_receipt-Runs :
      (d : State) → Runs (Good k w) (IsGrant env r.identity) d (resolve_existing_receipt env s r)
  unfolding resolve_existing_receipt
  resolve_existing_receipt-Runs d = resolve_with-Runs d (lookup r.execution_id s.claims) refl

  claim_with-Runs :
      (d : State) (i : Identity) (p : Option Payload) (o : Option Claim)
      → r.status ≡ IngressStatus.received
      → i ≡ r.identity
      → lookup r.execution_id s.claims ≡ o
      → Runs (Good k w) (IsGrant env r.identity) d (claim_with env s i p r o)
  claim_with-Runs d i p none fresh e absent = grant-Runs env k w s r cur fresh absent d i p e
  claim_with-Runs d i p (some c) fresh e there = contend-Runs env k w s r cur fresh d c there

  claim_execution-Runs :
      (d : State) (i : Identity) (p : Option Payload)
      → r.status ≡ IngressStatus.received
      → i ≡ r.identity
      → Runs (Good k w) (IsGrant env r.identity) d (claim_execution env s i p r)
  unfolding claim_execution
  claim_execution-Runs d i p fresh e =
      claim_with-Runs d i p (lookup i.execution_id s.claims) fresh e (ground arith)

module _ (env : Env) (k : Text) (w : Option Claim) (i : Identity) (p : Option Payload) where
  -- `same_identity` leaves the webhook id, under which the receipt was found.
  identity_eq :
      (r : Receipt) → same_identity r i ≡ true → r.webhook_id ≡ i.webhook_id → i ≡ r.identity
  unfolding same_identity
  identity_eq r h e = ground arith

  -- What runs for the identity of its receipt runs for the identity of the call, if it is the same.
  granted_for :
      (d : State) (m : Steps ClaimResult) (j : Identity)
      → j ≡ i
      → Runs (Good k w) (IsGrant env j) d m
      → Runs (Good k w) (IsGrant env i) d m
  granted_for d m j e h = subst (λ x. Runs (Good k w) (IsGrant env x) d m) e h

  claim_seen-Runs :
      (s d : State) (r : Receipt)
      → Current k w s r
      → r.webhook_id ≡ i.webhook_id
      → Runs (Good k w) (IsGrant env i) d (claim_seen env s i p r)
  unfolding claim_seen
  claim_seen-Runs s d r cur e =
      Runs-throw_if (Good k w) (IsGrant env i) (not (same_identity r i)) Error.identity_mismatch _ d
        λ ok.
          Runs->>= (Good k w) (Attached env k w r) (IsGrant env i) (attach_recovery env s i p r) _ d
            (attach_recovery-Runs env k w s d i p r cur) λ d' a h. branch d' a h (ground arith)
    where
      branch :
          (d' : State) (a : State × Receipt)
          → Attached env k w r d' a
          → same_identity r i ≡ true
          → Runs (Good k w) (IsGrant env i) d' (
              if is_received (a.1).status
              then claim_execution env a.0 i p a.1
              else resolve_existing_receipt env a.0 a.1)
      branch d' a h ok = elim (Bool-cases (is_received (a.1).status)) [
        | inl fresh ↦ rw fresh (
            granted_for d' _ (a.1).identity (sym (identity_eq r ok e ∙ sym h.1)) (
              claim_execution-Runs env k w a.0 a.1 h.0 d' i p (ground arith)
                (identity_eq r ok e ∙ sym h.1)))
        | inr seen ↦ rw seen (
            granted_for d' _ (a.1).identity (sym (identity_eq r ok e ∙ sym h.1))
              (resolve_existing_receipt-Runs env k w a.0 a.1 h.0 d'))
      ]

  claim_unseen-Runs :
      (s d : State)
      → Good k w s
      → lookup i.webhook_id s.receipts ≡ none
      → Runs (Good k w) (IsGrant env i) d (claim_unseen env s i p)
  unfolding claim_unseen
  claim_unseen-Runs s d g fresh =
      Runs->>= (Good k w) _ (IsGrant env i) (register env s i p) _ d
        (register-Runs env k w s d i p g fresh)
        λ d' a h.
          Runs->>= (Good k w) (Attached env k w a.1) (IsGrant env i)
            (attach_recovery env a.0 i p a.1) _ d' (attach_recovery-Runs env k w a.0 d' i p a.1 h.0)
            λ d'' b h'.
              granted_for d'' _ (b.1).identity (h'.1 ∙ h.1)
                (claim_execution-Runs env k w b.0 b.1 h'.0 d'' i p (h'.2 ∙ h.2) (sym (h'.1 ∙ h.1)))

  claim_by_receipt-Runs :
      (s d : State) (o : Option Receipt)
      → Good k w s
      → lookup i.webhook_id s.receipts ≡ o
      → Runs (Good k w) (IsGrant env i) d (claim_by_receipt env s i p o)
  claim_by_receipt-Runs s d none g e = claim_unseen-Runs s d g e
  claim_by_receipt-Runs s d (some r) g e =
      let key : r.webhook_id ≡ i.webhook_id = ground (arith, g.inv.receipt i.webhook_id) in
      claim_seen-Runs s d r
        (record { good = g; found = subst (λ t. lookup t s.receipts ≡ some r) (sym key) e }) key

  pub claim_event_in_state-Runs :
      (s d : State) (repair : Bool)
      → Good k w s
      → Runs (Good k w) (IsGrant env i) d (claim_event_in_state env s i p repair)
  unfolding claim_event_in_state
  claim_event_in_state-Runs s d repair g =
      Runs-throw_if (Good k w) (IsGrant env i) _ Error.legacy_recovery_mismatch
        (claim_by_receipt env (prune env s) i p (lookup i.webhook_id (prune env s).receipts)) d
        λ _. claim_by_receipt-Runs (prune env s) d _ (prune-Good env k w s g) refl

  pub claim_event-Runs :
      (s d : State) (repair : Bool)
      → Good k w s
      → Runs (Good k w) (IsGrant env i) d (claim_event env s i p repair)
  unfolding claim_event
  claim_event-Runs s d repair g =
      Runs-Quiet (Good k w) (IsGrant env i) (validate_identity i) _ d (validate_identity-Quiet i)
        λ a _.
          Runs-throw_if (Good k w) (IsGrant env i) (repair && not (is_some p))
            Error.legacy_recovery_mismatch
            (throw_if (is_some p && not (is_some env.vault)) Error.recovery_envelope
              >> claim_event_in_state env s i p repair)
            d
            λ _.
              Runs-throw_if (Good k w) (IsGrant env i) (is_some p && not (is_some env.vault))
                Error.recovery_envelope (claim_event_in_state env s i p repair) d
                λ _. claim_event_in_state-Runs s d repair g

-- ===== src/State/Invariant/Ending.antt =====
-- The operations that give a claim back or end it keep the invariant and every other claim.
use linear_agent_bridge.Base.{
  ◌≡◌, refl, sym, ◌∙◌, subst, Bool, true, false, not, inl, inr, Option, none, some, Text, lookup,
  remove, arith, Bool-cases, text_dec, is_some, if◌then◌else◌,
}
use linear_agent_bridge.Base.Dicts.{lookup-put, lookup-remove}
use linear_agent_bridge.State.Types.{IngressStatus, Receipt, Claim, State, Env, Error}
use linear_agent_bridge.State.Steps.{
  done, write, Quiet, >>=-eq-done, Runs, Runs-Quiet, Runs-throw_if,
}
use linear_agent_bridge.State.Checks.{
  retry_outcome, validate_identifier, validate_identifier-Quiet, max_identifier_length,
}
use linear_agent_bridge.State.Claiming.{put_receipt, put_claim}
use linear_agent_bridge.State.Dispatch.{
  Owned, owned_active_claim, release_pre_dispatch_claim, Ending, completing, failing, end_receipt,
  ending_status, terminalize, supersede_owned, supersede_event,
}
use linear_agent_bridge.State.Invariant.{IsReceipt, IsClaim}
use linear_agent_bridge.State.Invariant.Claiming.{
  Kept, Good, prune-Good, put_receipt-Good, SameExecution-found,
}
use linear_agent_bridge.State.Invariant.Dispatch.{
  OwnedIn, owned_active_claim-OwnedIn, owned_active_claim-Quiet, Marked, Kept-spare, spare-Marked,
  keys_agree, Kept-claim, rewritten-Good, ended, ended-Good as turned_back-Good,
  supersede_owned-ended, ended-NeverRuns, NeverRuns, claim_of,
}

done_eq : {s t : State} → done s ≡ done t → s ≡ t
done_eq h = ground arith

-- After a release the receipt waits for recovery with its payload, and nobody holds the execution.
abbrev pub IsReleased : State → Option Receipt → Type 0
IsReleased d none = ⊥
IsReleased d (some r) =
    (r.status ≡ IngressStatus.received)
    × (r.dispatch_started_at ≡ none)
    × (lookup r.execution_id d.claims ≡ none)

-- What the answer to a release says of the disk: `s` was there before.
abbrev pub IsRelease : State → Text → State → Bool → Type 0
IsRelease s webhook_id d true = IsReleased d (lookup webhook_id d.receipts)
IsRelease s webhook_id d false = d ≡ s

module _ (env : Env) (k : Text) (w : Option Claim) (s : State) (webhook_id : Text)
    (g : Good k w s) where
  module _ (o : Owned) (own : OwnedIn env s webhook_id o) where
    opened : State
    opened = record s { claims = remove (o.claim).execution_id s.claims }

    opened-IsClaim : (j : Text) → IsClaim j (lookup j opened.claims) opened.receipts
    unfolding opened
    opened-IsClaim j =
        ground (arith, lookup-remove j (o.claim).execution_id s.claims, g.inv.claim j)

    opened-Good : (k ≡ (o.receipt).execution_id → w ≡ none) → Good k w opened
    unfolding opened
    opened-Good spare = record {
      inv = record { receipt = g.inv.receipt; claim = opened-IsClaim; distinct = g.inv.distinct };
      kept = elim (text_dec (o.claim).execution_id k) [
        | yes e ↦ Kept-spare w _ (spare (sym e ∙ (keys_agree env k w s webhook_id o g own).1))
        | no e ↦
            subst (Kept w) (ground (arith, lookup-remove k (o.claim).execution_id s.claims)) g.kept
      ];
    }

    released : Receipt
    released = record o.receipt {
      status = IngressStatus.received;
      updated_at = env.now;
      owner_id = none;
      claimed_at = none;
      dispatch_started_at = none;
      outcome = retry_outcome;
    }

    released-Good :
        (k ≡ (o.receipt).execution_id → w ≡ none)
        → (o.claim).dispatch_started_at ≡ none
        → Good k w (put_receipt released opened)
    unfolding released opened
    released-Good spare undispatched =
        put_receipt-Good env k w opened released (opened-Good spare)
          (refl, (λ e. refl), (λ e. cc), (λ e. cc))
          (SameExecution-found o.receipt released _
            (ground (arith, own.receipt_found, keys_agree env k w s webhook_id o g own)) refl)
          (ground (
            arith,
            keys_agree env k w s webhook_id o g own,
            lookup-remove (o.receipt).execution_id (o.claim).execution_id s.claims,
          ))

    ended_receipt-IsReceipt :
        (e : Ending)
        → is_some (o.claim).dispatch_started_at ≡ true
        → IsReceipt (o.receipt).webhook_id (some (end_receipt env e o.receipt))
    ended_receipt-IsReceipt completing d =
        let both = g.inv.receipt webhook_id in
        ground (
          arith,
          own.receipt_found,
          own.claim_found,
          own.held,
          own.claim_active,
          g.inv.claim (o.receipt).execution_id,
        )
    ended_receipt-IsReceipt (failing x) d =
        let both = g.inv.receipt webhook_id in
        ground (
          arith,
          own.receipt_found,
          own.claim_found,
          own.held,
          own.claim_active,
          g.inv.claim (o.receipt).execution_id,
        )

    ended-Good :
        (e : Ending)
        → (k ≡ (o.receipt).execution_id → w ≡ none)
        → is_some (o.claim).dispatch_started_at ≡ true
        → Good k w (
            put_claim
              (record o.claim { status = ending_status e; updated_at = env.now })
              (put_receipt (end_receipt env e o.receipt) s))
    ended-Good completing spare d =
        rewritten-Good env k w s webhook_id o g own (end_receipt env completing o.receipt) _ refl
          refl refl (λ h. cc) (λ h. Kept-spare w _ (spare h)) (ended_receipt-IsReceipt completing d)
    ended-Good (failing x) spare d =
        rewritten-Good env k w s webhook_id o g own (end_receipt env (failing x) o.receipt) _ refl
          refl refl (λ h. cc) (λ h. Kept-spare w _ (spare h))
          (ended_receipt-IsReceipt (failing x) d)

  released-IsReleased :
      (o : Owned) (own : OwnedIn env s webhook_id o)
      → IsReleased
          (put_receipt (released o own) (opened o own))
          (lookup webhook_id (put_receipt (released o own) (opened o own)).receipts)
  unfolding released opened
  released-IsReleased o own = ground (
    arith,
    keys_agree env k w s webhook_id o g own,
    lookup-put webhook_id (o.receipt).webhook_id (released o own) s.receipts,
    lookup-remove (o.receipt).execution_id (o.claim).execution_id s.claims,
  )

  pub release_pre_dispatch_claim-Runs :
      Marked w
      → Runs (Good k w) (IsRelease s webhook_id) s (release_pre_dispatch_claim env s webhook_id)
  unfolding release_pre_dispatch_claim released opened
  release_pre_dispatch_claim-Runs marked =
      Runs-Quiet (Good k w) (IsRelease s webhook_id)
        (validate_identifier webhook_id max_identifier_length) _ s
        (validate_identifier-Quiet webhook_id max_identifier_length)
        λ a _.
          Runs-Quiet (Good k w) (IsRelease s webhook_id) (owned_active_claim env s webhook_id) _ s
            (owned_active_claim-Quiet env s webhook_id)
            λ o e. branch o (owned_active_claim-OwnedIn env s webhook_id o e)
    where
      branch :
          (o : Owned) (own : OwnedIn env s webhook_id o)
          → Runs (Good k w) (IsRelease s webhook_id) s (
              if is_some (o.claim).dispatch_started_at
              then done false
              else write (put_receipt (released o own) (opened o own)) (done true))
      branch o own = elim (Bool-cases (is_some (o.claim).dispatch_started_at)) [
        | inl started ↦ rw started refl
        | inr waiting ↦ rw waiting (
          released-Good o own
              (λ h.
                spare-Marked w o.claim marked (ground arith)
                  (Kept-claim env k w s webhook_id o g own h))
              (ground arith),
          released-IsReleased o own,
        )
      ]

  -- The claim that is ended is not the watched one.
  abbrev pub Apart : Type 0
  Apart = (o : Owned) → OwnedIn env s webhook_id o → k ≡ (o.receipt).execution_id → w ≡ none

  pub terminalize-Runs :
      (e : Ending) → Apart → Runs (Good k w) (λ d a. Unit {0}) s (terminalize env s webhook_id e)
  unfolding terminalize
  terminalize-Runs e apart =
      Runs-Quiet (Good k w) (λ d a. Unit {0}) (validate_identifier webhook_id max_identifier_length)
        _ s (validate_identifier-Quiet webhook_id max_identifier_length)
        λ a _.
          Runs-Quiet (Good k w) (λ d a. Unit {0}) (owned_active_claim env s webhook_id) _ s
            (owned_active_claim-Quiet env s webhook_id)
            λ o h.
              let own = owned_active_claim-OwnedIn env s webhook_id o h in
              Runs-throw_if (Good k w) (λ d a. Unit {0})
                (not (is_some (o.claim).dispatch_started_at)) Error.dispatch_not_started _ s
                λ started.
                  (prune-Good env k w _ (ended-Good o own e (apart o own) (ground arith)), tt)

  pub supersede_owned-Quiet : (by : Text) → Quiet (supersede_owned env s webhook_id by)
  unfolding supersede_owned owned_active_claim
  supersede_owned-Quiet by = ground arith

  supersede_owned-undispatched :
      (by : Text) (s' : State)
      → supersede_owned env s webhook_id by ≡ done s'
      → (o : Owned) × (owned_active_claim env s webhook_id ≡ done o)
        × ((o.claim).dispatch_started_at ≡ none)
  unfolding supersede_owned
  supersede_owned-undispatched by s' h =
      let (o, e, rest) = >>=-eq-done (owned_active_claim env s webhook_id) _ s' h in
      (o, e, ground arith)

  -- The claim that is superseded never runs, and no other is touched.
  pub supersede_owned-Good :
      (by : Text)
      → Marked w
      → (s' : State) → supersede_owned env s webhook_id by ≡ done s'
      → Good k w s' × NeverRuns (claim_of s' webhook_id)
  supersede_owned-Good by marked s' h =
      let (o, e, waiting) = supersede_owned-undispatched by s' h in
      let same : s' ≡ ended env k w s webhook_id o g e marked waiting by =
        done_eq (sym h ∙ supersede_owned-ended env k w s webhook_id o g e marked waiting by) in
      subst (λ t. Good k w t × NeverRuns (claim_of t webhook_id)) (sym same)
        (
          turned_back-Good env k w s webhook_id o g e marked waiting by,
          ended-NeverRuns env k w s webhook_id o g e marked waiting by,
        )

  pub supersede_event-Runs :
      (by : Text)
      → Marked w
      → Runs
          (Good k w)
          (λ d a. NeverRuns (claim_of d webhook_id))
          s
          (supersede_event env s webhook_id by)
  unfolding supersede_event
  supersede_event-Runs by marked =
      Runs-Quiet (Good k w) (λ d a. NeverRuns (claim_of d webhook_id))
        (validate_identifier webhook_id max_identifier_length) _ s
        (validate_identifier-Quiet webhook_id max_identifier_length)
        λ a _.
          Runs-Quiet (Good k w) (λ d a. NeverRuns (claim_of d webhook_id))
            (validate_identifier by max_identifier_length) _ s
            (validate_identifier-Quiet by max_identifier_length)
            λ b _.
              Runs-Quiet (Good k w) (λ d a. NeverRuns (claim_of d webhook_id))
                (supersede_owned env s webhook_id by) _ s (supersede_owned-Quiet by)
                (supersede_owned-Good by marked)

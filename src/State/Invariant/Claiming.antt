-- ===== src/State/Invariant/Claiming.antt =====
-- The steps of `claimEventInState` keep the invariant, and every active claim with its marker.
use linear_agent_bridge.Base.{
  ℕ, ◌≡◌, refl, sym, subst, ◌∙◌, ◌&&◌, Bool, true, false, not, inl, inr, Option, none, some, Text,
  lookup, arith, Bool-cases, text_dec, same, is_some,
}
use linear_agent_bridge.Base.Dicts.{lookup-put_self, lookup-put_ne}
use linear_agent_bridge.Recovery.Types.{Identity, Payload}
use linear_agent_bridge.State.Types.{IngressStatus, Receipt, ClaimStatus, Claim, State, Env}
use linear_agent_bridge.State.Steps.{Runs, Runs-or_throw}
use linear_agent_bridge.State.Prune.{prune}
use linear_agent_bridge.State.Sequence.{
  Recovery, create_recovery_envelope, record_recovery_stop_fence,
}
use linear_agent_bridge.State.Claiming.{
  put_receipt, put_claim, new_receipt, register, attach_recovery, seal_again, awaits_dispatch,
}
use linear_agent_bridge.State.Invariant.{
  Inv, IsReceipt, IsClaim, SameExecution, Agrees, put_receipt-Inv, put_pair-Inv,
}
use linear_agent_bridge.State.Invariant.Pruning.{Survives, prune-Inv, prune-Survives, Inv-cong}

-- If a claim is watched, it survives.
abbrev pub Kept : Option Claim → Option Claim → Type 0
Kept none o = Unit {0}
Kept (some c) o = Survives c o

-- The invariant, and the watched claim under `k`.
pub record Good (k : Text) (w : Option Claim) (s : State) : Type 0 where
  pub inv : Inv s
  pub kept : Kept w (lookup k s.claims)

-- A state with the same receipts and claims.
abbrev pub SameRecords : State → State → Type 0
SameRecords s t = (t.receipts ≡ s.receipts) × (t.claims ≡ s.claims)

pub SameRecords-trans : (s t u : State) → SameRecords s t → SameRecords t u → SameRecords s u
SameRecords-trans s t u h k = (k.0 ∙ h.0, k.1 ∙ h.1)

-- Sealing a payload changes neither receipts nor claims.
pub create_recovery_envelope-SameRecords :
    (env : Env) (s : State) (i : Identity) (p : Payload) (b : Bool) (a : Recovery)
    → create_recovery_envelope env s i p b ≡ some a
    → SameRecords s a.state
unfolding create_recovery_envelope
create_recovery_envelope-SameRecords env s i p b a h = ground arith

pub record_recovery_stop_fence-SameRecords :
    (env : Env) (s : State) (i : Identity) (p : Payload) (n : ℕ)
    → SameRecords s (record_recovery_stop_fence env s i p n)
unfolding record_recovery_stop_fence
record_recovery_stop_fence-SameRecords env s i p n = ground arith

module _ (env : Env) (k : Text) (w : Option Claim) where
  pub Good-cong : (s t : State) → SameRecords s t → Good k w s → Good k w t
  Good-cong s t h g = record { inv = Inv-cong s t h.0 h.1 g.inv; kept = rw h.1 g.kept }

  Kept-prune :
      (s : State) (o : Option Claim)
      → Inv s
      → Kept o (lookup k s.claims)
      → Kept o (lookup k (prune env s).claims)
  Kept-prune s none inv h = tt
  Kept-prune s (some c) inv h = prune-Survives env s k c inv h

  pub prune-Good : (s : State) → Good k w s → Good k w (prune env s)
  prune-Good s g = record { inv = prune-Inv env s g.inv; kept = Kept-prune s w g.inv g.kept }

  pub put_receipt-Good :
      (s : State) (r : Receipt)
      → Good k w s
      → IsReceipt r.webhook_id (some r)
      → SameExecution r (lookup r.webhook_id s.receipts)
      → Agrees r (lookup r.execution_id s.claims)
      → Good k w (put_receipt r s)
  put_receipt-Good s r g a b c = record { inv = put_receipt-Inv s g.inv r a b c; kept = g.kept }

  pub put_pair-Good :
      (s : State) (r : Receipt) (c : Claim)
      → Good k w s
      → c.execution_id ≡ r.execution_id
      → SameExecution r (lookup r.webhook_id s.receipts)
      → (c.status ≡ ClaimStatus.claimed
          → (c.webhook_id ≡ r.webhook_id)
            × (r.status ≡ IngressStatus.claimed)
            × (r.dispatch_started_at ≡ c.dispatch_started_at))
      → (k ≡ c.execution_id → Kept w (some c))
      → IsReceipt r.webhook_id (some r)
      → Good k w (put_claim c (put_receipt r s))
  put_pair-Good s r c g one kept held mine ok = record {
    inv = put_pair-Inv s g.inv r c one kept held ok;
    kept = elim (text_dec k c.execution_id) [
      | yes e ↦ rw (e, lookup-put_self c.execution_id c s.claims) (mine e)
      | no e ↦ rw (lookup-put_ne k c.execution_id c s.claims (λ p. e (sym p))) g.kept
    ];
  }

-- The invariant, and the receipt that the code holds as `receipt`.
pub record Current (k : Text) (w : Option Claim) (s : State) (r : Receipt) : Type 0 where
  pub good : Good k w s
  pub found : lookup r.webhook_id s.receipts ≡ some r

-- No active claim is held through a receipt that is not there.
Agrees-absent :
    (s : State) (r : Receipt) (k : Text) (o : Option Claim)
    → lookup r.webhook_id s.receipts ≡ none
    → IsClaim k o s.receipts
    → Agrees r o
Agrees-absent s r k none e h = tt
Agrees-absent s r k (some c) e h = λ a b. absurd (ground arith)

SameExecution-absent : (r : Receipt) (o : Option Receipt) → o ≡ none → SameExecution r o
SameExecution-absent r o e = ground arith

-- A receipt that takes the place of one with the same identity.
pub SameExecution-found :
    (r r' : Receipt) (o : Option Receipt)
    → o ≡ some r
    → r'.identity ≡ r.identity
    → SameExecution r' o
SameExecution-found r r' o e same = ground arith

module _ (env : Env) (k : Text) (w : Option Claim) where
  put_new-Current :
      (s t : State) (r : Receipt)
      → Good k w s
      → SameRecords s t
      → lookup r.webhook_id s.receipts ≡ none
      → r.status ≡ IngressStatus.received
      → r.dispatch_started_at ≡ none
      → Current k w (put_receipt r t) r
  put_new-Current s t r g same fresh a b =
      let gone : lookup r.webhook_id t.receipts ≡ none = rw same.0 fresh in
      record {
        good =
            put_receipt-Good env k w t r (Good-cong env k w s t same g)
              (refl, (λ _. b), (λ h. ground arith), (λ h. ground arith))
              (SameExecution-absent r _ gone)
              (Agrees-absent t r r.execution_id _ gone
                ((Good-cong env k w s t same g).inv.claim r.execution_id));
        found = lookup-put_self r.webhook_id r t.receipts;
      }

  -- A new delivery is stored as received, under an id that no receipt had.
  pub register-Runs :
      (s d : State) (i : Identity) (p : Option Payload)
      → Good k w s
      → lookup i.webhook_id s.receipts ≡ none
      → Runs
          (Good k w)
          (λ d' a.
            Current k w a.0 a.1 × ((a.1).identity ≡ i) × ((a.1).status ≡ IngressStatus.received))
          d
          (register env s i p)
  unfolding register
  register-Runs s d i none g fresh =
      let cur : Current k w (put_receipt (new_receipt env i) s) (new_receipt env i) =
        put_new-Current s s (new_receipt env i) g (refl, refl) fresh refl refl in
      (cur.good, (cur, refl, refl))
  register-Runs s d i (some p) g fresh =
      Runs-or_throw (Good k w) _ (create_recovery_envelope env s i p true) _ _ d λ a e.
        let same : SameRecords s (record_recovery_stop_fence env a.state i p a.sequence) =
          SameRecords-trans s a.state (record_recovery_stop_fence env a.state i p a.sequence)
            (create_recovery_envelope-SameRecords env s i p true a e)
            (record_recovery_stop_fence-SameRecords env a.state i p a.sequence) in
        let cur =
          put_new-Current s (record_recovery_stop_fence env a.state i p a.sequence)
            (record (new_receipt env i) {
              recovery_sequence = some a.sequence;
              recovery_envelope = some a.envelope;
            })
            g same fresh refl refl in
        (cur.good, (cur, refl, refl))

  -- What is known of the receipt under its id.
  pub Current-IsReceipt :
      (s : State) (r : Receipt) → Current k w s r → IsReceipt r.webhook_id (some r)
  Current-IsReceipt s r cur =
      subst (IsReceipt r.webhook_id) cur.found (cur.good.inv.receipt r.webhook_id)

  Agrees-found :
      (s : State) (r r' : Receipt) (o : Option Claim)
      → lookup r.webhook_id s.receipts ≡ some r
      → r'.identity ≡ r.identity
      → r'.status ≡ r.status
      → r'.dispatch_started_at ≡ r.dispatch_started_at
      → (e : Text) → IsClaim e o s.receipts
      → Agrees r' o
  Agrees-found s r r' none found a b c e h = tt
  Agrees-found s r r' (some c') found a b c e h = λ p q. ground arith

  -- Neither identity, status nor marker changes, and the new receipt is one that may stand there.
  pub put_same-Current :
      (s t : State) (r r' : Receipt)
      → Current k w s r
      → SameRecords s t
      → r'.identity ≡ r.identity
      → r'.status ≡ r.status
      → r'.dispatch_started_at ≡ r.dispatch_started_at
      → IsReceipt r'.webhook_id (some r')
      → Current k w (put_receipt r' t) r'
  put_same-Current s t r r' cur same a b c ok =
      let g : Good k w t = Good-cong env k w s t same cur.good in
      let found : lookup r.webhook_id t.receipts ≡ some r = rw same.0 cur.found in
      record {
        good =
            put_receipt-Good env k w t r' g ok (SameExecution-found r r' _ (ground arith) a)
              (Agrees-found t r r' _ found a b c r'.execution_id (g.inv.claim r'.execution_id));
        found = lookup-put_self r'.webhook_id r' t.receipts;
      }

  attach-IsReceipt :
      (s : State) (r r' : Receipt)
      → Current k w s r
      → awaits_dispatch r ≡ true
      → r'.identity ≡ r.identity
      → r'.status ≡ r.status
      → r'.dispatch_started_at ≡ r.dispatch_started_at
      → IsReceipt r'.webhook_id (some r')
  attach-IsReceipt s r r' cur waits a b c =
      let known = Current-IsReceipt s r cur in (refl, ground arith, ground arith, ground arith)

  abbrev pub Attached : Receipt → State → State × Receipt → Type 0
  Attached r d a = Current k w a.0 a.1 × ((a.1).identity ≡ r.identity) × ((a.1).status ≡ r.status)

  seal_again-Runs :
      (s d : State) (i : Identity) (p : Payload) (r : Receipt)
      → Current k w s r
      → awaits_dispatch r ≡ true
      → Runs (Good k w) (Attached r) d (seal_again env s i p r)
  unfolding seal_again
  seal_again-Runs s d i p r cur waits =
      Runs-or_throw (Good k w) _ (create_recovery_envelope env s i p false) _ _ d λ a e.
        let r' : Receipt = record r {
          recovery_sequence = some a.sequence;
          recovery_envelope = some a.envelope;
        } in
        let stored =
          put_same-Current s a.state r r' cur
            (create_recovery_envelope-SameRecords env s i p false a e) refl refl refl
            (attach-IsReceipt s r r' cur waits refl refl refl) in
        let same =
          record_recovery_stop_fence-SameRecords env (put_receipt r' a.state) i p a.sequence in
        (
          record { good = Good-cong env k w _ _ same stored.good; found = rw same.0 stored.found },
          refl,
          refl,
        )

  pub attach_recovery-Runs :
      (s d : State) (i : Identity) (p : Option Payload) (r : Receipt)
      → Current k w s r
      → Runs (Good k w) (Attached r) d (attach_recovery env s i p r)
  unfolding attach_recovery
  attach_recovery-Runs s d i none r cur = (cur, refl, refl)
  attach_recovery-Runs s d i (some p) r cur =
      elim (Bool-cases (not (is_some r.recovery_envelope) && awaits_dispatch r)) [
        | inl e ↦ rw e (seal_again-Runs s d i p r cur (ground arith))
        | inr e ↦ rw e (cur, refl, refl)
      ]

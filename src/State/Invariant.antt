-- ===== src/State/Invariant.antt =====
-- What holds of every state that src/state/store.ts writes: how receipts and claims belong
-- together. The children prove it of each operation.
pub mod Pruning
pub mod Bounds
pub mod Claiming
pub mod Contending
pub mod ClaimEvent
pub mod Dispatch
pub mod Ending
pub mod Stops
use linear_agent_bridge.Base.{
  ℕ, ◌≡◌, ◌≢◌, sym, ◌⊎◌, inl, inr, refl, Bool, true, false, Option, none, some, List, [], ◌∷◌, Text,
  Dict, lookup, put, text_dec, arith, is_some, keys,
}
use linear_agent_bridge.Base.Dicts.{
  lookup-put, lookup-put_self, lookup-put_ne, Distinct, put-Distinct,
}
use linear_agent_bridge.State.Types.{IngressStatus, Receipt, ClaimStatus, Claim, State, empty_state}
use linear_agent_bridge.State.Checks.{is_terminal}
use linear_agent_bridge.State.Claiming.{put_receipt, put_claim}

-- The receipt through which an active claim is held.
abbrev pub Holds : Claim → Option Receipt → Type 0
Holds c none = ⊥
Holds c (some r) =
    (r.status ≡ IngressStatus.claimed)
    × (r.execution_id ≡ c.execution_id)
    × (r.dispatch_started_at ≡ c.dispatch_started_at)

-- A receipt stands under its own id; before it is claimed it has no dispatch marker; once it is
-- dispatched or over, it keeps no payload.
abbrev pub IsReceipt : Text → Option Receipt → Type 0
IsReceipt k none = Unit {0}
IsReceipt k (some r) =
    (r.webhook_id ≡ k)
    × (r.status ≡ IngressStatus.received → r.dispatch_started_at ≡ none)
    × (is_some r.dispatch_started_at ≡ true → r.recovery_envelope ≡ none)
    × (is_terminal r.status ≡ true → r.recovery_envelope ≡ none)

abbrev pub IsClaim : Text → Option Claim → Dict Receipt → Type 0
IsClaim k none receipts = Unit {0}
IsClaim k (some c) receipts =
    (c.execution_id ≡ k) × (c.status ≡ ClaimStatus.claimed → Holds c (lookup c.webhook_id receipts))

pub record Inv (s : State) : Type 0 where
  pub receipt : (k : Text) → IsReceipt k (lookup k s.receipts)
  pub claim : (k : Text) → IsClaim k (lookup k s.claims) s.receipts
  pub distinct : Distinct s.receipts

pub empty_state-Inv : Inv empty_state
unfolding lookup
empty_state-Inv = record { receipt = λ k. tt; claim = λ k. tt; distinct = tt }

-- The old receipt under an id is of the same execution.
abbrev pub SameExecution : Receipt → Option Receipt → Type 0
SameExecution r none = Unit {0}
SameExecution r (some old) = old.execution_id ≡ r.execution_id

-- If the claim of the receipt's execution is active and held through it, the receipt says so.
abbrev pub Agrees : Receipt → Option Claim → Type 0
Agrees r none = Unit {0}
Agrees r (some c) =
    c.status ≡ ClaimStatus.claimed
    → c.webhook_id ≡ r.webhook_id
    → (r.status ≡ IngressStatus.claimed) × (r.dispatch_started_at ≡ c.dispatch_started_at)

module _ (s : State) (inv : Inv s) (r : Receipt) where
  put_receipt-IsReceipt :
      IsReceipt r.webhook_id (some r)
      → (k : Text) → IsReceipt k (lookup k (put_receipt r s).receipts)
  put_receipt-IsReceipt ok k = ground (arith, lookup-put k r.webhook_id r s.receipts, inv.receipt k)

  put_receipt-claim_at :
      SameExecution r (lookup r.webhook_id s.receipts)
      → Agrees r (lookup r.execution_id s.claims)
      → (k : Text) (o : Option Claim) → lookup k s.claims ≡ o
      → IsClaim k o s.receipts
      → IsClaim k o (put_receipt r s).receipts
  put_receipt-claim_at same agrees k none e h = tt
  put_receipt-claim_at same agrees k (some c) e h =
      ground (arith, lookup-put c.webhook_id r.webhook_id r s.receipts)

  put_receipt-IsClaim :
      SameExecution r (lookup r.webhook_id s.receipts)
      → Agrees r (lookup r.execution_id s.claims)
      → (k : Text) → IsClaim k (lookup k s.claims) (put_receipt r s).receipts
  put_receipt-IsClaim same agrees k = put_receipt-claim_at same agrees k _ refl (inv.claim k)

  pub put_receipt-Inv :
      IsReceipt r.webhook_id (some r)
      → SameExecution r (lookup r.webhook_id s.receipts)
      → Agrees r (lookup r.execution_id s.claims)
      → Inv (put_receipt r s)
  put_receipt-Inv ok same agrees = record {
    receipt = put_receipt-IsReceipt ok;
    claim = put_receipt-IsClaim same agrees;
    distinct = put-Distinct r.webhook_id r s.receipts inv.distinct;
  }

module _ (s : State) (inv : Inv s) (c : Claim) where
  put_claim-IsClaim :
      IsClaim c.execution_id (some c) s.receipts
      → (k : Text) → IsClaim k (lookup k (put_claim c s).claims) s.receipts
  put_claim-IsClaim ok k = ground (arith, lookup-put k c.execution_id c s.claims, inv.claim k)

  pub put_claim-Inv : IsClaim c.execution_id (some c) s.receipts → Inv (put_claim c s)
  put_claim-Inv ok = record {
    receipt = inv.receipt;
    claim = put_claim-IsClaim ok;
    distinct = inv.distinct;
  }

-- A receipt and the claim of its execution are written together.
module _ (s : State) (inv : Inv s) (r : Receipt) (c : Claim) (one : c.execution_id ≡ r.execution_id)
    (kept : SameExecution r (lookup r.webhook_id s.receipts))
    (held : c.status ≡ ClaimStatus.claimed
      → (c.webhook_id ≡ r.webhook_id)
        × (r.status ≡ IngressStatus.claimed)
        × (r.dispatch_started_at ≡ c.dispatch_started_at)) where
  put_pair-claim_at :
      (k : Text) (o : Option Claim)
      → k ≢ c.execution_id
      → IsClaim k o s.receipts
      → IsClaim k o (put_receipt r s).receipts
  put_pair-claim_at k none e h = tt
  put_pair-claim_at k (some c') e h =
      ground (arith, lookup-put c'.webhook_id r.webhook_id r s.receipts)

  put_pair_self : IsClaim c.execution_id (some c) (put_receipt r s).receipts
  put_pair_self = ground (arith, lookup-put c.webhook_id r.webhook_id r s.receipts)

  put_pair-IsClaim :
      (k : Text)
      → IsClaim k (lookup k (put_claim c (put_receipt r s)).claims) (put_receipt r s).receipts
  put_pair-IsClaim k = elim (text_dec k c.execution_id) [
    | yes e ↦ rw (e, lookup-put_self c.execution_id c s.claims) put_pair_self
    | no e ↦
        rw (lookup-put_ne k c.execution_id c s.claims (λ p. e (sym p)))
          (put_pair-claim_at k (lookup k s.claims) e (inv.claim k))
  ]

  pub put_pair-Inv : IsReceipt r.webhook_id (some r) → Inv (put_claim c (put_receipt r s))
  put_pair-Inv ok = record {
    receipt = put_receipt-IsReceipt s inv r ok;
    claim = put_pair-IsClaim;
    distinct = put-Distinct r.webhook_id r s.receipts inv.distinct;
  }

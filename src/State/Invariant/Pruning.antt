-- ===== src/State/Invariant/Pruning.antt =====
-- What `prune` of src/state/store.ts keeps: a property that survives the removal of a receipt in a
-- terminal state survives the whole of it.
use linear_agent_bridge.Base.{
  ℕ, ◌≡◌, refl, true, false, is_some, inl, inr, Option, none, some, List, [], ◌∷◌, Text, lookup,
  remove, values, arith, length, keys, ltb, Bool-cases,
}
use linear_agent_bridge.Base.Dicts.{lookup-remove, remove-Distinct, entries-lookup, values-All}
use linear_agent_bridge.Base.Lists.{All, All-map, select-All, sort_by-All, select-test, All-both}
use linear_agent_bridge.State.Types.{Receipt, ClaimStatus, Claim, State, Env}
use linear_agent_bridge.State.Checks.{is_terminal}
use linear_agent_bridge.State.Prune.{
  remove_receipt, remove_expired, remove_excess, terminal_receipts, prune_receipts, prune, cutoff,
}
use linear_agent_bridge.State.Invariant.{Inv, IsReceipt, IsClaim}

-- The receipt that stands under the id, if one does, is the one to be removed.
abbrev pub IsTarget : Receipt → Option Receipt → Type 0
IsTarget r none = Unit {0}
IsTarget r (some found) = found ≡ r

-- `r` may be removed from `s`.
abbrev pub Removable : State → Receipt → Type 0
Removable s r = IsTarget r (lookup r.webhook_id s.receipts) × (is_terminal r.status ≡ true)

Removable-remove : (s : State) (r x : Receipt) → Removable s x → Removable (remove_receipt r s) x
unfolding remove_receipt
Removable-remove s r x h = ground (arith, lookup-remove x.webhook_id r.webhook_id s.receipts)

module _ (P : State → Type 0)
    (keep : (s : State) (r : Receipt) → P s → Removable s r → P (remove_receipt r s)) where
  remove_expired-keeps :
      (limit : ℕ) (rs : List Receipt) (s : State)
      → P s
      → All (Removable s) rs
      → P (remove_expired limit rs s)
  unfolding remove_expired
  remove_expired-keeps limit [] s p h = p
  remove_expired-keeps limit (r ∷ rs) s p h = elim (Bool-cases (ltb r.updated_at limit)) [
    | inl e ↦ rw e (
        remove_expired-keeps limit rs (remove_receipt r s) (keep s r p h.0)
          (All-map (Removable s) (Removable (remove_receipt r s)) rs (Removable-remove s r) h.1))
    | inr e ↦ rw e (remove_expired-keeps limit rs s p h.1)
  ]

  remove_excess-keeps :
      (limit : ℕ) (rs : List Receipt) (s : State)
      → P s
      → All (Removable s) rs
      → P (remove_excess limit rs s)
  unfolding remove_excess
  remove_excess-keeps limit [] s p h = p
  remove_excess-keeps limit (r ∷ rs) s p h =
      elim (Bool-cases (ltb limit (length (keys s.receipts)))) [
        | inl e ↦ rw e (
            remove_excess-keeps limit rs (remove_receipt r s) (keep s r p h.0) (
              All-map (Removable s) (Removable (remove_receipt r s)) rs (Removable-remove s r) h.1))
        | inr e ↦ rw e p
      ]

-- A receipt that is removed leaves the invariant as it is.
module _ (s : State) (r : Receipt) (inv : Inv s) (ok : Removable s r) where
  remove_receipt-claim_at :
      (k : Text) (o : Option Claim)
      → IsClaim k o s.receipts
      → IsClaim k o (remove r.webhook_id s.receipts)
  remove_receipt-claim_at k none h = tt
  remove_receipt-claim_at k (some c) h =
      ground (arith, lookup-remove c.webhook_id r.webhook_id s.receipts)

  remove_receipt-IsClaim :
      (k : Text) → IsClaim k (lookup k (remove_receipt r s).claims) (remove_receipt r s).receipts
  unfolding remove_receipt
  remove_receipt-IsClaim k = ground (
    arith,
    lookup-remove k r.execution_id s.claims,
    remove_receipt-claim_at k (lookup k s.claims) (inv.claim k),
  )

  remove_receipt-IsReceipt : (k : Text) → IsReceipt k (lookup k (remove_receipt r s).receipts)
  unfolding remove_receipt
  remove_receipt-IsReceipt k =
      ground (arith, lookup-remove k r.webhook_id s.receipts, inv.receipt k)

  remove_receipt-Inv : Inv (remove_receipt r s)
  unfolding remove_receipt
  remove_receipt-Inv = record {
    receipt = remove_receipt-IsReceipt;
    claim = remove_receipt-IsClaim;
    distinct = remove-Distinct r.webhook_id s.receipts inv.distinct;
  }

entry-IsTarget :
    (s : State)
    → Inv s
    → (e : Text × Receipt) → lookup e.0 s.receipts ≡ some e.1
    → IsTarget e.1 (lookup (e.1).webhook_id s.receipts)
entry-IsTarget s inv e h = ground (arith, inv.receipt e.0)

-- The receipts that `prune` goes through may all be removed.
terminal_receipts-Removable : (s : State) → Inv s → All (Removable s) (terminal_receipts s)
unfolding terminal_receipts
terminal_receipts-Removable s inv = sort_by-All (Removable s) _ _ (
    All-both target (λ r. is_terminal r.status ≡ true) _
      (select-All target (λ r. is_terminal r.status) (values s.receipts)
        (values-All target s.receipts (
          All-map (λ e. lookup e.0 s.receipts ≡ some e.1) (λ e. target e.1) s.receipts
            (entry-IsTarget s inv) (entries-lookup s.receipts inv.distinct))))
      (select-test (λ r. is_terminal r.status) (values s.receipts)))
  where
    target : Receipt → Type 0
    target r = IsTarget r (lookup r.webhook_id s.receipts)

module _ (P : State → Type 0)
    (keep : (s : State) (r : Receipt) → P s → Removable s r → P (remove_receipt r s)) where
  keep_both :
      (s : State) (r : Receipt)
      → P s × Inv s
      → Removable s r
      → P (remove_receipt r s) × Inv (remove_receipt r s)
  keep_both s r h ok = (keep s r h.0 ok, remove_receipt-Inv s r h.1 ok)

  -- A property of states that no removal of a receipt in a terminal state breaks.
  pub prune_receipts-keeps :
      (env : Env) (s : State) → P s → Inv s → P (prune_receipts env s) × Inv (prune_receipts env s)
  unfolding prune_receipts
  prune_receipts-keeps env s p inv =
      let Both : State → Type 0 = λ t. P t × Inv t in
      let kept = remove_expired (cutoff env) (terminal_receipts s) s in
      let first : Both kept =
        remove_expired-keeps Both keep_both (cutoff env) (terminal_receipts s) s (p, inv)
          (terminal_receipts-Removable s inv) in
      remove_excess-keeps Both keep_both env.max_entries (terminal_receipts kept) kept first
        (terminal_receipts-Removable kept first.1)

-- The rest of `prune` touches neither receipts nor claims.
pub prune-receipts :
    (env : Env) (s : State) → (prune env s).receipts ≡ (prune_receipts env s).receipts
unfolding prune
prune-receipts env s = refl

pub prune-claims : (env : Env) (s : State) → (prune env s).claims ≡ (prune_receipts env s).claims
unfolding prune
prune-claims env s = refl

pub Inv-cong : (s t : State) → t.receipts ≡ s.receipts → t.claims ≡ s.claims → Inv s → Inv t
Inv-cong s t p q inv = record {
  receipt = rw p inv.receipt;
  claim = rw (p, q) inv.claim;
  distinct = rw p inv.distinct;
}

pub prune-Inv : (env : Env) (s : State) → Inv s → Inv (prune env s)
prune-Inv env s inv =
    Inv-cong (prune_receipts env s) (prune env s) (prune-receipts env s) (prune-claims env s)
      (prune_receipts-keeps (λ t. Unit {0}) (λ t r h ok. tt) env s tt inv).1

-- An active claim with the same dispatch marker is still there, and once it is marked, neither its
-- delivery nor its process changes.
abbrev pub Survives : Claim → Option Claim → Type 0
Survives c none = ⊥
Survives c (some c') =
    (c'.status ≡ ClaimStatus.claimed)
    × (c'.dispatch_started_at ≡ c.dispatch_started_at)
    × (is_some c.dispatch_started_at ≡ true → c'.webhook_id ≡ c.webhook_id)
    × (is_some c.dispatch_started_at ≡ true → c'.owner_id ≡ c.owner_id)

module _ (k : Text) (c : Claim) (active : c.status ≡ ClaimStatus.claimed) where
  remove_receipt-active :
      (s : State) (r : Receipt)
      → lookup k s.claims ≡ some c
      → Removable s r
      → lookup k (remove_receipt r s).claims ≡ some c
  unfolding remove_receipt
  remove_receipt-active s r h ok = ground (arith, lookup-remove k r.execution_id s.claims)

  -- `prune` leaves an active claim exactly as it is.
  pub prune-active :
      (env : Env) (s : State)
      → Inv s
      → lookup k s.claims ≡ some c
      → lookup k (prune env s).claims ≡ some c
  prune-active env s inv h =
      rw (prune-claims env s) (
        (prune_receipts-keeps (λ t. lookup k t.claims ≡ some c) remove_receipt-active env s h
          inv).0)

-- `prune` leaves a receipt that is in no terminal state exactly as it is.
module _ (k : Text) (r : Receipt) (live : is_terminal r.status ≡ false) where
  remove_receipt-live :
      (s : State) (x : Receipt)
      → lookup k s.receipts ≡ some r
      → Removable s x
      → lookup k (remove_receipt x s).receipts ≡ some r
  unfolding remove_receipt
  remove_receipt-live s x h ok = ground (arith, lookup-remove k x.webhook_id s.receipts)

  pub prune-live :
      (env : Env) (s : State)
      → Inv s
      → lookup k s.receipts ≡ some r
      → lookup k (prune env s).receipts ≡ some r
  prune-live env s inv h =
      rw (prune-receipts env s) (
        (prune_receipts-keeps (λ t. lookup k t.receipts ≡ some r) remove_receipt-live env s h
          inv).0)

prune-Survives_at :
    (env : Env) (s : State) (k : Text) (c : Claim) (o : Option Claim)
    → Inv s
    → lookup k s.claims ≡ o
    → Survives c o
    → Survives c (lookup k (prune env s).claims)
prune-Survives_at env s k c none inv e h = absurd h
prune-Survives_at env s k c (some c') inv e h = rw (prune-active k c' h.0 env s inv e) h

pub prune-Survives :
    (env : Env) (s : State) (k : Text) (c : Claim)
    → Inv s
    → Survives c (lookup k s.claims)
    → Survives c (lookup k (prune env s).claims)
prune-Survives env s k c inv h = prune-Survives_at env s k c (lookup k s.claims) inv refl h

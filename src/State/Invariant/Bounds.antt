-- ===== src/State/Invariant/Bounds.antt =====
-- What `prune` of src/state/store.ts achieves for the receipts: those in a terminal state go when
-- they are old, and as long as there are too many.
use linear_agent_bridge.Base.{
  ℕ, ◌≤◌, ◌≡◌, ◌⊎◌, inl, inr, Bool, true, false, some, List, [], ◌∷◌, Text, length, lookup, values,
  keys, ltb, arith, Bool-cases, if◌then◌else◌,
}
use linear_agent_bridge.Base.Dicts.{lookup-remove, values-Has}
use linear_agent_bridge.Base.Lists.{Has, select-Has, sort_by-Has}
use linear_agent_bridge.State.Types.{Receipt, State, Env}
use linear_agent_bridge.State.Checks.{is_terminal}
use linear_agent_bridge.State.Prune.{
  remove_receipt, remove_expired, remove_excess, terminal_receipts, prune_receipts, prune, cutoff,
}
use linear_agent_bridge.State.Invariant.{Inv}
use linear_agent_bridge.State.Invariant.Pruning.{prune-receipts}

-- The receipt stands on the disk.
abbrev pub Stands : State → Text → Receipt → Type 0
Stands s k r = lookup k s.receipts ≡ some r

-- Every receipt of `t` stands in `s`.
Shrinks : State → State → Type 0
Shrinks s t = (k : Text) (r : Receipt) → Stands t k r → Stands s k r

Keyed : State → Type 0
Keyed s = (k : Text) (r : Receipt) → Stands s k r → r.webhook_id ≡ k

remove_receipt-Shrinks : (r : Receipt) (s : State) → Shrinks s (remove_receipt r s)
unfolding remove_receipt Shrinks
remove_receipt-Shrinks r s k x h = ground (arith, lookup-remove k r.webhook_id s.receipts, h)

Shrinks-trans : (s t u : State) → Shrinks s t → Shrinks t u → Shrinks s u
unfolding Shrinks
Shrinks-trans s t u f g k r h = f k r (g k r h)

Shrinks-refl : (s : State) → Shrinks s s
unfolding Shrinks
Shrinks-refl s k r h = h

removed_if-Shrinks :
    (b : Bool) (r : Receipt) (s : State) → Shrinks s (if b then remove_receipt r s else s)
removed_if-Shrinks true r s = remove_receipt-Shrinks r s
removed_if-Shrinks false r s = Shrinks-refl s

remove_expired-Shrinks :
    (limit : ℕ) (rs : List Receipt) (s : State) → Shrinks s (remove_expired limit rs s)
unfolding remove_expired
remove_expired-Shrinks limit [] s = Shrinks-refl s
remove_expired-Shrinks limit (r ∷ rs) s =
    let t = if ltb r.updated_at limit then remove_receipt r s else s in
    Shrinks-trans s t _ (removed_if-Shrinks (ltb r.updated_at limit) r s)
      (remove_expired-Shrinks limit rs t)

remove_excess-Shrinks :
    (limit : ℕ) (rs : List Receipt) (s : State) → Shrinks s (remove_excess limit rs s)
unfolding remove_excess
remove_excess-Shrinks limit [] s = Shrinks-refl s
remove_excess-Shrinks limit (r ∷ rs) s = elim (Bool-cases (ltb limit (length (keys s.receipts)))) [
  | inl e ↦ rw e (
      Shrinks-trans s (remove_receipt r s) _ (remove_receipt-Shrinks r s)
        (remove_excess-Shrinks limit rs (remove_receipt r s)))
  | inr e ↦ rw e (Shrinks-refl s)
]

Keyed-Shrinks : (s t : State) → Keyed s → Shrinks s t → Keyed t
unfolding Keyed Shrinks
Keyed-Shrinks s t h f k r q = h k r (f k r q)

-- A receipt in a terminal state is young enough, or the loop still comes to it.
Pending : ℕ → List Receipt → State → Type 0
Pending limit rs s =
    (k : Text) (r : Receipt)
    → Stands s k r
    → is_terminal r.status ≡ true
    → (limit ≤ r.updated_at) ⊎ Has rs r

-- The loop comes to it.
Remaining : List Receipt → State → Type 0
Remaining rs s = (k : Text) (r : Receipt) → Stands s k r → is_terminal r.status ≡ true → Has rs r

removed-absent :
    (s : State) (r x : Receipt) (k : Text) → Keyed s → Stands (remove_receipt r s) k x → r ≡ x → ⊥
unfolding remove_receipt Keyed Shrinks
removed-absent s r x k keyed h e =
    let old : Stands s k x = remove_receipt-Shrinks r s k x h in
    ground (arith, lookup-remove k r.webhook_id s.receipts, h, e, keyed k x old)

Remaining-remove :
    (s : State) (r : Receipt) (rs : List Receipt)
    → Keyed s
    → Remaining (r ∷ rs) s
    → Remaining rs (remove_receipt r s)
unfolding Remaining Shrinks
Remaining-remove s r rs keyed h k x stands t =
    elim (h k x (remove_receipt-Shrinks r s k x stands) t) [
      | inl e ↦ absurd (removed-absent s r x k keyed stands e)
      | inr later ↦ later
    ]

Pending-step :
    (limit : ℕ) (s : State) (r : Receipt) (rs : List Receipt)
    → Keyed s
    → Pending limit (r ∷ rs) s
    → Pending limit rs (if ltb r.updated_at limit then remove_receipt r s else s)
unfolding Pending Shrinks
Pending-step limit s r rs keyed h = elim (Bool-cases (ltb r.updated_at limit)) [
  | inl e ↦ rw e (λ k x stands t. elim (h k x (remove_receipt-Shrinks r s k x stands) t) [
    | inl young ↦ inl young
    | inr (inl q) ↦ absurd (removed-absent s r x k keyed stands q)
    | inr (inr later) ↦ inr later
  ])
  | inr e ↦ rw e (λ k x stands t. elim (h k x stands t) [
    | inl young ↦ inl young
    | inr (inl q) ↦ inl (ground (arith, e, q))
    | inr (inr later) ↦ inr later
  ])
]

-- No receipt in a terminal state is older than the limit.
abbrev pub Unexpired : ℕ → State → Type 0
Unexpired limit s =
    (k : Text) (r : Receipt) → Stands s k r → is_terminal r.status ≡ true → limit ≤ r.updated_at

remove_expired-Unexpired :
    (limit : ℕ) (rs : List Receipt) (s : State)
    → Keyed s
    → Pending limit rs s
    → Unexpired limit (remove_expired limit rs s)
unfolding remove_expired Pending
remove_expired-Unexpired limit [] s keyed h =
    λ k r stands t. elim (h k r stands t) [ inl young ↦ young | inr never ↦ absurd never ]
remove_expired-Unexpired limit (r ∷ rs) s keyed h =
    let t = if ltb r.updated_at limit then remove_receipt r s else s in
    remove_expired-Unexpired limit rs t
      (Keyed-Shrinks s t keyed (removed_if-Shrinks (ltb r.updated_at limit) r s))
      (Pending-step limit s r rs keyed h)

-- The receipts are few enough, or none of them is in a terminal state.
abbrev pub IsBounded : ℕ → State → Type 0
IsBounded limit s =
    (length (keys s.receipts) ≤ limit)
    ⊎ ((k : Text) (r : Receipt) → Stands s k r → is_terminal r.status ≡ false)

remove_excess-IsBounded :
    (limit : ℕ) (rs : List Receipt) (s : State)
    → Keyed s
    → Remaining rs s
    → IsBounded limit (remove_excess limit rs s)
unfolding remove_excess Remaining
remove_excess-IsBounded limit [] s keyed h = inr (λ k r stands.
    elim (Bool-cases (is_terminal r.status)) [ inl e ↦ absurd (h k r stands e) | inr e ↦ e ])
remove_excess-IsBounded limit (r ∷ rs) s keyed h =
    elim (Bool-cases (ltb limit (length (keys s.receipts)))) [
      | inl e ↦ rw e (
          remove_excess-IsBounded limit rs (remove_receipt r s)
            (Keyed-Shrinks s (remove_receipt r s) keyed (remove_receipt-Shrinks r s))
            (Remaining-remove s r rs keyed h))
      | inr e ↦ rw e (inl (ground (arith, e)))
    ]

terminal_receipts-Remaining : (s : State) → Remaining (terminal_receipts s) s
unfolding Remaining terminal_receipts
terminal_receipts-Remaining s k r stands t = sort_by-Has _ _ r (
    select-Has (λ x. is_terminal x.status) (values s.receipts) r t
      (values-Has k r s.receipts stands))

Inv-Keyed : (s : State) → Inv s → Keyed s
unfolding Keyed
Inv-Keyed s inv k r stands = ground (arith, inv.receipt k, stands)

-- After `prune`, on a disk that satisfies the invariant, no receipt in a terminal state was last
-- updated before the cutoff, and there are at most `maxEntries` receipts, or else none of them is
-- in a terminal state.
pub prune-IsBounded :
    (env : Env) (s : State)
    → Inv s
    → Unexpired (cutoff env) (prune env s) × IsBounded env.max_entries (prune env s)
unfolding prune_receipts Shrinks Pending Remaining
prune-IsBounded env s inv =
    let kept = remove_expired (cutoff env) (terminal_receipts s) s in
    let keyed =
      Keyed-Shrinks s kept (Inv-Keyed s inv)
        (remove_expired-Shrinks (cutoff env) (terminal_receipts s) s) in
    let young : Unexpired (cutoff env) kept =
      remove_expired-Unexpired (cutoff env) (terminal_receipts s) s (Inv-Keyed s inv)
        (λ k r stands t. inr (terminal_receipts-Remaining s k r stands t)) in
    rw (prune-receipts env s) (
      λ k r stands t.
          young k r (remove_excess-Shrinks env.max_entries (terminal_receipts kept) kept k r stands)
            t,
      remove_excess-IsBounded env.max_entries (terminal_receipts kept) kept keyed
          (terminal_receipts-Remaining kept),
    )

-- ===== src/State/Goals/Ledger.antt =====
-- What `prune` of src/state/store.ts does to the autonomous goals: it removes some of those that are
-- over, and changes none.
use linear_agent_bridge.Base.{
  ℕ, ◌≡◌, refl, ◌∙◌, inl, inr, Bool, true, false, Option, none, some, List, [], ◌∷◌, Text, Dict,
  length, lookup, remove, keys, ltb, arith, Bool-cases, is_some, if◌then◌else◌,
}
use linear_agent_bridge.Base.Dicts.{lookup-remove, Distinct, remove-Distinct, entries-lookup}
use linear_agent_bridge.Base.Lists.{All, All-map, select-All, sort_by-All, select-test, All-both}
use linear_agent_bridge.State.Types.{Receipt, Goal, State, Env}
use linear_agent_bridge.State.Checks.{is_final}
use linear_agent_bridge.State.Prune.{
  remove_receipt, remove_expired, remove_excess, terminal_receipts, prune_receipts, prune, cutoff,
  remove_expired_goals, remove_excess_goals, terminal_goals, prune_goals,
}

-- The goal, if there is one, is over.
abbrev pub IsOver : Option Goal → Type 0
IsOver none = Unit {0}
IsOver (some g) = is_final g.status ≡ true

-- A goal is there as before, or it was over and is gone.
abbrev pub Trimmed : Option Goal → Option Goal → Type 0
Trimmed o none = IsOver o
Trimmed o (some g) = o ≡ some g

Trimmed-refl : (o : Option Goal) → Trimmed o o
Trimmed-refl none = tt
Trimmed-refl (some g) = refl

-- What holds of goals on the way through `prune`.
abbrev Pruned : Dict Goal → Dict Goal → Type 0
Pruned before goals = Distinct goals × ((k : Text) → Trimmed (lookup k before) (lookup k goals))

Over : Dict Goal → Text × Goal → Type 0
Over goals e = IsOver (lookup e.0 goals)

Over-remove :
    (goals : Dict Goal) (k : Text) (e : Text × Goal) → Over goals e → Over (remove k goals) e
unfolding Over
Over-remove goals k e h = ground (arith, lookup-remove e.0 k goals)

IsOver-Trimmed : (o o' : Option Goal) → Trimmed o o' → IsOver o' → IsOver o
IsOver-Trimmed o none t h = t
IsOver-Trimmed o (some g) t h = rw t h

Over-Pruned :
    (before goals : Dict Goal)
    → Pruned before goals
    → (e : Text × Goal) → Over before e
    → Over goals e
unfolding Over
Over-Pruned before goals p e h = ground (arith, p.1 e.0)

module _ (before : Dict Goal) where
  remove-Pruned :
      (goals : Dict Goal) (j : Text)
      → Pruned before goals
      → IsOver (lookup j goals)
      → Pruned before (remove j goals)
  remove-Pruned goals j p over = (remove-Distinct j goals p.0, trimmed)
    where
      trimmed : (k : Text) → Trimmed (lookup k before) (lookup k (remove j goals))
      trimmed k =
          ground (
            arith,
            lookup-remove k j goals,
            p.1 k,
            IsOver-Trimmed (lookup k before) (lookup k goals),
          )

  remove_expired_goals-Pruned :
      (limit : ℕ) (es : List (Text × Goal)) (goals : Dict Goal)
      → Pruned before goals
      → All (Over goals) es
      → Pruned before (remove_expired_goals limit es goals)
  unfolding remove_expired_goals Over
  remove_expired_goals-Pruned limit [] goals p h = p
  remove_expired_goals-Pruned limit (e ∷ es) goals p h =
      elim (Bool-cases (ltb (e.1).updated_at limit)) [
        | inl x ↦ rw x (
            remove_expired_goals-Pruned limit es (remove e.0 goals) (remove-Pruned goals e.0 p h.0)
              (All-map (Over goals) (Over (remove e.0 goals)) es (Over-remove goals e.0) h.1))
        | inr x ↦ rw x (remove_expired_goals-Pruned limit es goals p h.1)
      ]

  remove_excess_goals-Pruned :
      (limit : ℕ) (es : List (Text × Goal)) (goals : Dict Goal)
      → Pruned before goals
      → All (Over goals) es
      → Pruned before (remove_excess_goals limit es goals)
  unfolding remove_excess_goals Over
  remove_excess_goals-Pruned limit [] goals p h = p
  remove_excess_goals-Pruned limit (e ∷ es) goals p h =
      elim (Bool-cases (ltb limit (length (keys goals)))) [
        | inl x ↦ rw x (
            remove_excess_goals-Pruned limit es (remove e.0 goals) (remove-Pruned goals e.0 p h.0)
              (All-map (Over goals) (Over (remove e.0 goals)) es (Over-remove goals e.0) h.1))
        | inr x ↦ rw x p
      ]

  entry-Over :
      (e : Text × Goal)
      → (lookup e.0 before ≡ some e.1) × (is_final (e.1).status ≡ true)
      → Over before e
  unfolding Over
  entry-Over e h = rw (h.0) (h.1)

  terminal_goals-Over : Distinct before → All (Over before) (terminal_goals before)
  unfolding terminal_goals
  terminal_goals-Over d =
      let found : Text × Goal → Type 0 = λ e. lookup e.0 before ≡ some e.1 in
      let over : Text × Goal → Type 0 = λ e. is_final (e.1).status ≡ true in
      sort_by-All (Over before) _ _ (
        All-map (λ e. found e × over e) (Over before) _ entry-Over
          (All-both found over _
            (select-All found (λ e. is_final (e.1).status) before (entries-lookup before d))
            (select-test (λ e. is_final (e.1).status) before)))

  prune_goals-Pruned :
      (max_entries limit : ℕ)
      → Distinct before
      → Pruned before (prune_goals max_entries limit before)
  unfolding prune_goals
  prune_goals-Pruned max_entries limit d =
      let kept = remove_expired_goals limit (terminal_goals before) before in
      let p : Pruned before kept =
        remove_expired_goals-Pruned limit (terminal_goals before) before
          (d, λ k. Trimmed-refl (lookup k before)) (terminal_goals-Over d) in
      remove_excess_goals-Pruned max_entries _ kept p (
        select-All (Over kept) (λ e. is_some (lookup e.0 kept)) (terminal_goals before)
          (All-map (Over before) (Over kept) (terminal_goals before) (Over-Pruned before kept p)
            (terminal_goals-Over d)))

-- The loops over the receipts leave the goals alone.
removed_if-goals :
    (b : Bool) (r : Receipt) (s : State)
    → (if b then remove_receipt r s else s).autonomous_goals ≡ s.autonomous_goals
unfolding remove_receipt
removed_if-goals true r s = refl
removed_if-goals false r s = refl

remove_expired-goals :
    (limit : ℕ) (rs : List Receipt) (s : State)
    → (remove_expired limit rs s).autonomous_goals ≡ s.autonomous_goals
unfolding remove_expired remove_receipt
remove_expired-goals limit [] s = refl
remove_expired-goals limit (r ∷ rs) s =
    remove_expired-goals limit rs (if ltb r.updated_at limit then remove_receipt r s else s)
    ∙ removed_if-goals (ltb r.updated_at limit) r s

remove_excess-goals :
    (limit : ℕ) (rs : List Receipt) (s : State)
    → (remove_excess limit rs s).autonomous_goals ≡ s.autonomous_goals
unfolding remove_excess remove_receipt
remove_excess-goals limit [] s = refl
remove_excess-goals limit (r ∷ rs) s = elim (Bool-cases (ltb limit (length (keys s.receipts)))) [
  | inl e ↦ rw e (remove_excess-goals limit rs (remove_receipt r s))
  | inr e ↦ rw e refl
]

prune-goals :
    (env : Env) (s : State)
    → (prune env s).autonomous_goals ≡ prune_goals env.max_entries (cutoff env) s.autonomous_goals
unfolding prune prune_receipts
prune-goals env s =
    let kept = remove_expired (cutoff env) (terminal_receipts s) s in
    rw
      (
        remove_excess-goals env.max_entries (terminal_receipts kept) kept,
        remove_expired-goals (cutoff env) (terminal_receipts s) s,
      )
      refl

-- Of the goals, `prune` removes some that are over.
pub prune-Trimmed :
    (env : Env) (s : State)
    → Distinct s.autonomous_goals
    → Distinct (prune env s).autonomous_goals
      × ((k : Text)
          → Trimmed (lookup k s.autonomous_goals) (lookup k (prune env s).autonomous_goals))
prune-Trimmed env s d =
    rw (prune-goals env s) (prune_goals-Pruned s.autonomous_goals env.max_entries (cutoff env) d)

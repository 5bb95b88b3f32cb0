-- ===== src/Webhook/Aborts.antt =====
-- src/server.ts: which controllers a stop aborts.
use linear_agent_bridge.Base.{
  ℕ, ◌≡◌, ◌<◌, ◌≤◌, refl, ap, subst, ◌⊎◌, ◌↔◌, true, false, List, [], ◌∷◌, ◌++◌, Text, none, some,
  Bool-cases, inl, inr, arith, leb, ltb, Option, ◌&&◌, ◌||◌,
}
use linear_agent_bridge.Recovery.Types.{IngressAction, created, prompted}
use linear_agent_bridge.Recovery.Payloads.{Dates}
use linear_agent_bridge.Webhook.Runs.{
  RecoveryOrder, ActiveRun, Runs, runs_of, register_session_run, run_is_at_or_before_stop,
  abort_runs, abort_session_runs, is_created_action, is_earlier, is_same_time,
}
use linear_agent_bridge.Base.Dicts.{lookup-put_self}

-- The stop reaches the run: the run is the session's first turn, or both have a time and the run's is
-- earlier, or the same with a sequence that is not after the stop's.
abbrev pub IsReached : Dates → RecoveryOrder → RecoveryOrder → Type 0
IsReached dates stop run =
    (run.action ≡ created)
    ⊎ ((t : ℕ) × (u : ℕ) × (dates.parse_date run.at ≡ some t)
        × (dates.parse_date stop.at ≡ some u)
        × ((t < u) ⊎ ((t ≡ u) × (run.sequence ≤ stop.sequence))))

-- The controller is that of a run that the stop reaches.
abbrev pub IsStopped : Dates → RecoveryOrder → ℕ → List ActiveRun → Type 0
IsStopped dates stop n [] = ⊥
IsStopped dates stop n (run ∷ runs) =
    ((run.controller ≡ n) × IsReached dates stop run.recovery_order) ⊎ IsStopped dates stop n runs

-- The controller is among those.
abbrev pub IsAmong : ℕ → List ℕ → Type 0
IsAmong n [] = ⊥
IsAmong n (m ∷ ms) = (m ≡ n) ⊎ IsAmong n ms

is_created-eq : (a : IngressAction) → is_created_action a ≡ true → a ≡ created
is_created-eq created h = refl
is_created-eq prompted h = absurd (ground arith)

module _ (dates : Dates) (stop run : RecoveryOrder) where
  timed :
      (o o' : Option ℕ)
      → dates.parse_date run.at ≡ o
      → dates.parse_date stop.at ≡ o'
      → (is_earlier o o' || is_same_time o o' && leb run.sequence stop.sequence) ≡ true
      → IsReached dates stop run
  timed none o' e f h = absurd (ground (arith, h))
  timed (some t) none e f h = absurd (ground (arith, h))
  timed (some t) (some u) e f h = inr (
    t,
    u,
    e,
    f,
    elim (Bool-cases (ltb t u)) [
      | inl earlier ↦ inl (ground (arith, earlier))
      | inr later ↦ inr (ground (arith, h, later))
    ],
  )

  reached : run_is_at_or_before_stop dates run stop ≡ true → IsReached dates stop run
  unfolding run_is_at_or_before_stop
  reached h = elim (Bool-cases (is_created_action run.action)) [
    | inl e ↦ inl (is_created-eq run.action e)
    | inr e ↦ timed (dates.parse_date run.at) (dates.parse_date stop.at) refl refl (rw e at h)
  ]

  unreached : run_is_at_or_before_stop dates run stop ≡ false → IsReached dates stop run → ⊥
  unfolding run_is_at_or_before_stop
  unreached h (inl e) = ground (arith, h, e)
  unreached h (inr (t, u, e, f, o)) = ground (arith, h, e, f, o)

module _ (dates : Dates) (stop : RecoveryOrder) (n : ℕ) where
  pass :
      (run : ActiveRun) (runs : List ActiveRun) (aborted : List ℕ)
      → IsAmong n aborted ⊎ IsStopped dates stop n runs
      → IsAmong n aborted ⊎ IsStopped dates stop n (run ∷ runs)
  pass run runs aborted (inl m) = inl m
  pass run runs aborted (inr m) = inr (inr m)

  abort_runs-stops :
      (runs : List ActiveRun) (aborted : List ℕ)
      → IsAmong n (abort_runs dates stop runs aborted)
      → IsAmong n aborted ⊎ IsStopped dates stop n runs
  unfolding abort_runs
  abort_runs-stops [] aborted m = inl m
  abort_runs-stops (run ∷ runs) aborted m =
      elim (Bool-cases (run_is_at_or_before_stop dates run.recovery_order stop)) [
        | inl e ↦ aborted_here e (abort_runs-stops runs aborted) (rw e at m)
        | inr e ↦ pass run runs aborted (abort_runs-stops runs aborted (rw e at m))
      ]
    where
      aborted_here :
          run_is_at_or_before_stop dates run.recovery_order stop ≡ true
          → (IsAmong n (abort_runs dates stop runs aborted)
              → IsAmong n aborted ⊎ IsStopped dates stop n runs)
          → (run.controller ≡ n) ⊎ IsAmong n (abort_runs dates stop runs aborted)
          → IsAmong n aborted ⊎ IsStopped dates stop n (run ∷ runs)
      aborted_here e f (inl is) = inr (inl (is, reached dates stop run.recovery_order e))
      aborted_here e f (inr rest) = pass run runs aborted (f rest)

  abort_runs-keeps :
      (runs : List ActiveRun) (aborted : List ℕ)
      → IsAmong n aborted
      → IsAmong n (abort_runs dates stop runs aborted)
  unfolding abort_runs
  abort_runs-keeps [] aborted m = m
  abort_runs-keeps (run ∷ runs) aborted m =
      elim (Bool-cases (run_is_at_or_before_stop dates run.recovery_order stop)) [
        | inl e ↦ rw e (inr (abort_runs-keeps runs aborted m))
        | inr e ↦ rw e (abort_runs-keeps runs aborted m)
      ]

  abort_runs-reaches :
      (runs : List ActiveRun) (aborted : List ℕ)
      → IsStopped dates stop n runs
      → IsAmong n (abort_runs dates stop runs aborted)
  unfolding abort_runs
  abort_runs-reaches [] aborted m = absurd m
  abort_runs-reaches (run ∷ runs) aborted m =
      elim (Bool-cases (run_is_at_or_before_stop dates run.recovery_order stop)) [
        | inl e ↦ rw e (elim m [
          | inl here ↦ inl here.0
          | inr rest ↦ inr (abort_runs-reaches runs aborted rest)
        ])
        | inr e ↦ rw e (elim m [
          | inl here ↦ absurd (unreached dates stop run.recovery_order e here.1)
          | inr rest ↦ abort_runs-reaches runs aborted rest
        ])
      ]

runs_of-register :
    (session : Text) (order : RecoveryOrder) (r : Runs)
    → runs_of session (register_session_run session order r)
      ≡ runs_of session r ++ record { controller = r.made; recovery_order = order } ∷ []
unfolding register_session_run runs_of
runs_of-register session order r =
    ap (λ o. elim o [ none ↦ [] | some runs ↦ runs ])
      (lookup-put_self session
        (runs_of session r ++ record { controller = r.made; recovery_order = order } ∷ []) r.active)

-- After a run of a session was registered, a stop of the session leaves a controller aborted exactly
-- if it was aborted before or is that of one of the session's runs, the new one included, which the
-- stop reaches: the run is the session's first turn, or it and the stop have a time and the run's is
-- earlier, or the same with a sequence that is not after the stop's.
pub abort_session_runs-IsStopped :
    (dates : Dates) (session : Text) (order stop : RecoveryOrder) (r : Runs) (n : ℕ)
    → IsAmong n
        (abort_session_runs dates session stop (register_session_run session order r)).aborted
      ↔ (IsAmong n r.aborted
          ⊎ IsStopped dates stop n
              (runs_of session r ++ record { controller = r.made; recovery_order = order } ∷ []))
unfolding abort_session_runs register_session_run
abort_session_runs-IsStopped dates session order stop r n =
    let known = runs_of-register session order r in
    subst
      (λ runs.
        IsAmong n
          (abort_runs dates stop (runs_of session (register_session_run session order r)) r.aborted)
        ↔ (IsAmong n r.aborted ⊎ IsStopped dates stop n runs))
      known
      (
        abort_runs-stops dates stop n _ r.aborted,
        λ m. elim m [
          | inl before ↦ abort_runs-keeps dates stop n _ r.aborted before
          | inr stopped ↦ abort_runs-reaches dates stop n _ r.aborted stopped
        ],
      )

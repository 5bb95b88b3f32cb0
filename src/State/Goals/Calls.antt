-- ===== src/State/Goals/Calls.antt =====
-- A call on the autonomous goals of src/state/store.ts, as the disk sees it: whatever fails on the
-- way, each goal makes one move at most, and a goal is only forgotten when it is over.
use linear_agent_bridge.Base.{
  ℕ, ◌≡◌, refl, sym, subst, inl, inr, Bool, true, false, not, ◌&&◌, Option, none, some, Text, Dict,
  length, lookup, put, text_dec, leb, keys, arith, Bool-cases,
}
use linear_agent_bridge.Base.Dicts.{lookup-put, Distinct, put-Distinct}
use linear_agent_bridge.State.Types.{GoalStatus, Goal, State, Env, Error}
use linear_agent_bridge.State.Steps.{
  Runs, Runs-Quiet, Runs-throw_if, Runs-or_throw, Quiet, >>-Quiet,
}
use linear_agent_bridge.State.Checks.{
  is_final, validate_identifier, validate_identifier-Quiet, max_identifier_length,
  max_execution_id_length, max_activity_key_length, max_activity_ids_per_claim,
}
use linear_agent_bridge.State.Prune.{prune}
use linear_agent_bridge.State.Goals.{
  Change, activate, decline, continuation, completion_dispatch, complete, block, resume, completion,
  notice_sent, validate_guidance, validate_change, change_goal, is_active,
}
use linear_agent_bridge.State.Goals.Store.{
  put_goal, transition_goal, begin_step, begin_step_of, start_step, has_entries, stop_goal, stop_of,
  stopped_goal, get_or_create_goal_activity_id, goal_activity_id,
}
use linear_agent_bridge.State.Goals.Moves.{
  Edge, stay, step, stop, IsGoal, Moved, from, same_goal, is_active-eq, Runs-Returns,
}
use linear_agent_bridge.State.Goals.Changes.{change_goal-Moved}
use linear_agent_bridge.State.Goals.Ledger.{Trimmed, prune-Trimmed}

-- One session's goal before and after a call; `Begun` says how a goal begins.
abbrev pub Transit : (Begun : Goal → Type 0) → Option Goal → Option Goal → Type 0
Transit Begun none none = Unit {0}
Transit Begun none (some g) = Begun g × IsGoal g
Transit Begun (some g) none = (a : GoalStatus) × Edge g.status a × (is_final a ≡ true)
Transit Begun (some g) (some g') = Moved g g'

Transit-refl : (Begun : Goal → Type 0) (o : Option Goal) → Transit Begun o o
Transit-refl Begun none = tt
Transit-refl Begun (some g) = record { edge = stay g.status; same = same_goal g; goal = λ i. i }

Transit-Trimmed :
    (Begun : Goal → Type 0) (o o' o'' : Option Goal)
    → Transit Begun o o'
    → Trimmed o' o''
    → Transit Begun o o''
Transit-Trimmed Begun o o' (some g) t e = subst (Transit Begun o) e t
Transit-Trimmed Begun none o' none t h = tt
Transit-Trimmed Begun (some g) none none t h = t
Transit-Trimmed Begun (some g) (some g') none t h = (g'.status, t.edge, h)

-- No session has two goals, and each goal is as the call found it or made its move.
abbrev pub Tallies : (Begun : Text → Goal → Type 0) → State → State → Type 0
Tallies Begun d s =
    Distinct s.autonomous_goals
    × ((k : Text) → Transit (Begun k) (lookup k d.autonomous_goals) (lookup k s.autonomous_goals))

module _ (Begun : Text → Goal → Type 0) (d : State) (distinct : Distinct d.autonomous_goals) where
  pub Tallies-start : Tallies Begun d d
  Tallies-start = (distinct, λ k. Transit-refl (Begun k) (lookup k d.autonomous_goals))

  pub put_goal-Tallies :
      (session : Text) (g : Goal)
      → Transit (Begun session) (lookup session d.autonomous_goals) (some g)
      → Tallies Begun d (put_goal session g d)
  put_goal-Tallies session g t = (put-Distinct session g d.autonomous_goals distinct, moves)
    where
      moves :
          (k : Text)
          → Transit
              (Begun k)
              (lookup k d.autonomous_goals)
              (lookup k (put session g d.autonomous_goals))
      moves k = elim (text_dec session k) [
        | yes e ↦
            subst
              (λ j.
                Transit (Begun j) (lookup j d.autonomous_goals)
                  (lookup j (put session g d.autonomous_goals)))
              e
              (subst (Transit (Begun session) (lookup session d.autonomous_goals))
                (sym (ground (arith, lookup-put session session g d.autonomous_goals))) t)
        | no n ↦
            subst (Transit (Begun k) (lookup k d.autonomous_goals))
              (sym (ground (arith, lookup-put k session g d.autonomous_goals)))
              (Transit-refl (Begun k) (lookup k d.autonomous_goals))
      ]

  pub prune-Tallies : (env : Env) (s : State) → Tallies Begun d s → Tallies Begun d (prune env s)
  prune-Tallies env s t =
      let p = prune-Trimmed env s t.0 in
      (
        p.0,
        λ k.
            Transit-Trimmed (Begun k) (lookup k d.autonomous_goals) (lookup k s.autonomous_goals)
              (lookup k (prune env s).autonomous_goals) (t.1 k) (p.1 k),
      )

-- The stamp of the write changes nothing that matters.
restamped : (g g' : Goal) (t : ℕ) → Moved g g' → Moved g (record g' { updated_at = t })
restamped g g' t m = record {
  edge = m.edge;
  same = m.same;
  goal = λ i. let j = m.goal i in record { owned = j.owned; over = j.over; bound = j.bound };
}

validate_guidance-Quiet : (o : Option Text) → Quiet (validate_guidance o)
validate_guidance-Quiet none = tt
validate_guidance-Quiet (some id) = validate_identifier-Quiet id max_execution_id_length

validate_change-Quiet : (c : Change) → Quiet (validate_change c)
unfolding validate_change
validate_change-Quiet (block activity_key body guidance) =
    >>-Quiet (validate_identifier activity_key max_activity_key_length) (validate_guidance guidance)
      (validate_identifier-Quiet activity_key max_activity_key_length)
      (validate_guidance-Quiet guidance)
validate_change-Quiet (resume guidance) = validate_guidance-Quiet guidance
validate_change-Quiet (completion state_id activity_key body) =
    >>-Quiet (validate_identifier state_id max_identifier_length)
      (validate_identifier activity_key max_activity_key_length)
      (validate_identifier-Quiet state_id max_identifier_length)
      (validate_identifier-Quiet activity_key max_activity_key_length)
validate_change-Quiet (notice_sent activity_key) =
    validate_identifier-Quiet activity_key max_activity_key_length
validate_change-Quiet activate = tt
validate_change-Quiet decline = tt
validate_change-Quiet continuation = tt
validate_change-Quiet completion_dispatch = tt
validate_change-Quiet complete = tt

-- No result is said anything of.
abbrev pub Any : {A : Type 0} → State → A → Type 0
Any d a = Unit {0}

module _ (Begun : Text → Goal → Type 0) (env : Env) (d : State)
    (distinct : Distinct d.autonomous_goals) (session : Text) where
  -- The goal of the session is replaced.
  replaced-Tallies :
      (g g' : Goal)
      → lookup session d.autonomous_goals ≡ some g
      → Moved g g'
      → Tallies Begun d (put_goal session g' d)
  replaced-Tallies g g' found m =
      put_goal-Tallies Begun d distinct session g'
        (subst (λ o. Transit (Begun session) o (some g')) (sym found) m)

  pub transition_goal-Runs :
      (c : Change) → Runs (Tallies Begun d) Any d (transition_goal env d session c)
  unfolding transition_goal
  transition_goal-Runs c =
      Runs-Quiet (Tallies Begun d) Any (validate_change c) _ d (validate_change-Quiet c) λ _ _.
        Runs-Quiet (Tallies Begun d) Any (validate_identifier session max_identifier_length) _ d
          (validate_identifier-Quiet session max_identifier_length)
          λ _ _.
            Runs-or_throw (Tallies Begun d) Any (lookup session d.autonomous_goals) Error.no_goal _
              d
              λ g found.
                Runs-Returns (Tallies Begun d) Any (Moved g) (change_goal env c g) _ d
                  (change_goal-Moved env g c)
                  λ g' m. (
                    prune-Tallies Begun d distinct env _ (
                        replaced-Tallies g (record g' { updated_at = env.now }) found
                          (restamped g g' env.now m)),
                    tt,
                  )

  start_step-Moved : (g : Goal) → not (is_active g.status) ≡ false → Moved g (start_step env g)
  start_step-Moved g h = record {
    edge = from (is_active-eq g.status (ground (arith, h))) step;
    same = same_goal g;
    goal = λ i. record { owned = refl; over = λ e. cc; bound = i.bound };
  }

  begin_step_of-Runs :
      (guidance_step : Bool) (o : Option Goal)
      → lookup session d.autonomous_goals ≡ o
      → Runs (Tallies Begun d) Any d (begin_step_of env d session guidance_step o)
  begin_step_of-Runs guidance_step none found = tt
  begin_step_of-Runs guidance_step (some g) found = elim (Bool-cases (not (is_active g.status))) [
    | inl e ↦ rw e tt
    | inr e ↦ rw e (elim (Bool-cases (not guidance_step && has_entries g.pending_guidance_ids)) [
      | inl e' ↦ rw e' tt
      | inr e' ↦ rw e' (replaced-Tallies g (start_step env g) found (start_step-Moved g e), tt)
    ])
  ]

  pub begin_step-Runs :
      (guidance_step : Bool) → Runs (Tallies Begun d) Any d (begin_step env d session guidance_step)
  unfolding begin_step
  begin_step-Runs guidance_step =
      Runs-Quiet (Tallies Begun d) Any (validate_identifier session max_identifier_length) _ d
        (validate_identifier-Quiet session max_identifier_length)
        λ _ _. begin_step_of-Runs guidance_step (lookup session d.autonomous_goals) refl

  stopped_goal-Moved : (g : Goal) → is_final g.status ≡ false → Moved g (stopped_goal env g)
  stopped_goal-Moved g h = record {
    edge = stop g.status h;
    same = same_goal g;
    goal = λ i. record { owned = refl; over = λ e. refl; bound = omega arith };
  }

  stop_of-Runs :
      (o : Option Goal)
      → lookup session d.autonomous_goals ≡ o
      → Runs (Tallies Begun d) Any d (stop_of env d session o)
  stop_of-Runs none found = tt
  stop_of-Runs (some g) found = elim (Bool-cases (is_final g.status)) [
    | inl e ↦ rw e tt
    | inr e ↦ rw e (replaced-Tallies g (stopped_goal env g) found (stopped_goal-Moved g e), tt)
  ]

  pub stop_goal-Runs : Runs (Tallies Begun d) Any d (stop_goal env d session)
  unfolding stop_goal
  stop_goal-Runs =
      Runs-Quiet (Tallies Begun d) Any (validate_identifier session max_identifier_length) _ d
        (validate_identifier-Quiet session max_identifier_length)
        λ _ _. stop_of-Runs (lookup session d.autonomous_goals) refl

  named-Moved :
      (g : Goal) (ids : Dict Text) → Moved g (record g { activity_ids = ids; updated_at = env.now })
  named-Moved g ids = record {
    edge = stay g.status;
    same = same_goal g;
    goal = λ i. record { owned = i.owned; over = i.over; bound = i.bound };
  }

  goal_activity_id-Runs :
      (g : Goal) (activity_key fresh : Text) (o : Option Text)
      → lookup session d.autonomous_goals ≡ some g
      → Runs (Tallies Begun d) Any d (goal_activity_id env d session g activity_key fresh o)
  goal_activity_id-Runs g activity_key fresh (some existing) found = tt
  goal_activity_id-Runs g activity_key fresh none found =
      Runs-throw_if (Tallies Begun d) Any
        (leb max_activity_ids_per_claim (length (keys g.activity_ids))) Error.too_many_entries _ d
        λ h.
          (replaced-Tallies g _ found (named-Moved g (put activity_key fresh g.activity_ids)), tt)

  pub get_or_create_goal_activity_id-Runs :
      (activity_key fresh : Text)
      → Runs
          (Tallies Begun d)
          Any
          d
          (get_or_create_goal_activity_id env d session activity_key fresh)
  unfolding get_or_create_goal_activity_id
  get_or_create_goal_activity_id-Runs activity_key fresh =
      Runs-Quiet (Tallies Begun d) Any (validate_identifier session max_identifier_length) _ d
        (validate_identifier-Quiet session max_identifier_length)
        λ _ _.
          Runs-Quiet (Tallies Begun d) Any
            (validate_identifier activity_key max_activity_key_length) _ d
            (validate_identifier-Quiet activity_key max_activity_key_length)
            λ _ _.
              Runs-or_throw (Tallies Begun d) Any (lookup session d.autonomous_goals) Error.no_goal
                _ d
                λ g found.
                  goal_activity_id-Runs g activity_key fresh (lookup activity_key g.activity_ids)
                    found

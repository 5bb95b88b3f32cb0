-- ===== src/Tasks/Rounds.antt =====
-- src/server.ts: runAutonomousGoalTask keeps to the guards of Tasks.Guards in every round.
use linear_agent_bridge.Base.{
  ℕ, zero, suc, ◌<◌, ◌≡◌, refl, inl, inr, Bool, true, false, not, ◌&&◌, ◌||◌, Option, none, some,
  List, [], ◌∷◌, Text, leb, arith,
}
use linear_agent_bridge.State.Types.{Goal}
use linear_agent_bridge.State.Goals.{is_active}
use linear_agent_bridge.State.Goals.Store.{StepResult, started, guidance_pending, not_active}
use linear_agent_bridge.Session.{SessionRecord}
use linear_agent_bridge.Linear.Shapes.{IssueContext}
use linear_agent_bridge.Tasks.Calls.{
  Reason, completed, inactive, stopped, failed, Turn, goal_signal, Act, asked_goal, asked_issue,
  asked_session, asked_objective, began_step, ran_turn, GoalDeps, Task, go_on, ◌>>=◌, return,
  get_goal, is_stopped_status,
}
use linear_agent_bridge.Tasks.Notices.{context_for, current_goal_issue_context}
use linear_agent_bridge.Tasks.Completion.{goal_label_removed_body}
use linear_agent_bridge.Tasks.Loop.{
  GoalRequest, decision_in, after_reason, after_turn, is_other_runtime, take_turn, after_begin,
  with_context, with_goal, run_goal_task, goal_step_limit_body, runtime_provider_mismatch_body,
}
use linear_agent_bridge.Tasks.Guards.{SinceBegin, IsGuarded, Keeps, go_on-IsGuarded, if-IsGuarded}
use linear_agent_bridge.Tasks.Guarded.{block_and_complete-Keeps, undenied}
use linear_agent_bridge.Tasks.Endings.{after_response-Keeps, after_failed_turn-Keeps}

under : (m n : ℕ) → leb m n ≡ false → n < m
under m n h = ground arith

module _ (deps : GoalDeps) where
  module _ (next : Task Reason) (next-Keeps : Keeps deps next) where
    after_turn-Keeps :
        (step : ℕ) (response : Option Text) (reason : Reason)
        → Keeps deps (after_reason deps step next response reason)
    unfolding after_reason
    after_turn-Keeps step response completed log h =
        after_response-Keeps deps next next-Keeps step (decision_in deps response) log h
    after_turn-Keeps step response inactive log h = after_failed_turn-Keeps deps step inactive log h
    after_turn-Keeps step response stopped log h = after_failed_turn-Keeps deps step stopped log h
    after_turn-Keeps step response failed log h = after_failed_turn-Keeps deps step failed log h

    -- A step was begun, for an active goal whose issue carried the label.
    module _ (request : GoalRequest) (first_step : Bool) (rest : List Act) (g begun : Goal)
        (context : IssueContext) (guidance : Bool) (got : deps.get_goal rest ≡ some (some g))
        (active : is_active g.status ≡ true) (below : g.steps_since_guidance < deps.max_steps)
        (queried : deps.query_issue (asked_goal ∷ rest) ≡ some context)
        (authorized : context.authorized ≡ true)
        (began : deps.take_step (asked_issue ∷ asked_goal ∷ rest) guidance ≡ some (started begun))
        (guarded : IsGuarded deps rest) where
      abbrev before : List Act
      before = began_step guidance ∷ asked_issue ∷ asked_goal ∷ rest

      turn-IsGuarded :
          (turn : Turn) (log : List Act)
          → SinceBegin deps log before
          → turn.step ≡ begun.step
          → IsGuarded deps log
          → IsGuarded deps
              (go_on
                (deps.run_turn log turn)
                (ran_turn turn ∷ log)
                (after_turn deps begun.step next)).1
      unfolding IsGuarded after_turn
      turn-IsGuarded turn log since numbered h =
          let now : IsGuarded deps (ran_turn turn ∷ log) = (
            (
              rest, g, context, guidance, begun, since, got, active, below, queried, authorized,
              began, numbered,
            ),
            h,
          ) in
          go_on-IsGuarded deps (deps.run_turn log turn) (ran_turn turn ∷ log) _ now (λ outcome e.
            after_turn-Keeps begun.step outcome.response outcome.reason (ran_turn turn ∷ log) now)

      take_turn-IsGuarded :
          (session : Option SessionRecord)
          → IsGuarded deps
              (take_turn deps request begun.step first_step next session (asked_session ∷ before)).1
      unfolding take_turn IsGuarded
      take_turn-IsGuarded none =
          let log = asked_session ∷ before in
          go_on-IsGuarded deps (deps.get_objective log) (asked_objective ∷ log) _ guarded
            (λ objective e. turn-IsGuarded _ (asked_objective ∷ log) (inr refl) refl guarded)
      take_turn-IsGuarded (some r) =
          let log = asked_session ∷ before in
          if-IsGuarded deps (is_other_runtime deps (some r)) _ _ log
            (λ _.
              block_and_complete-Keeps deps goal_signal _ runtime_provider_mismatch_body log
                guarded)
            (λ _. turn-IsGuarded _ log (inl refl) refl guarded)

  module _ (next : Task Reason) (next-Keeps : Keeps deps next) where
    after_begin-IsGuarded :
        (request : GoalRequest) (first_step : Bool) (rest : List Act) (g : Goal)
        (context : IssueContext) (guidance : Bool) (result : StepResult)
        → deps.get_goal rest ≡ some (some g)
        → is_active g.status ≡ true
        → g.steps_since_guidance < deps.max_steps
        → deps.query_issue (asked_goal ∷ rest) ≡ some context
        → context.authorized ≡ true
        → deps.take_step (asked_issue ∷ asked_goal ∷ rest) guidance ≡ some result
        → IsGuarded deps rest
        → IsGuarded deps
            (after_begin deps request first_step next result
              (began_step guidance ∷ asked_issue ∷ asked_goal ∷ rest)).1
    unfolding after_begin IsGuarded
    after_begin-IsGuarded request first_step rest g context guidance (started begun) got active
          below queried authorized began h =
        let log = began_step guidance ∷ asked_issue ∷ asked_goal ∷ rest in
        go_on-IsGuarded deps (deps.get_session log) (asked_session ∷ log) _ h (λ session e.
          take_turn-IsGuarded next next-Keeps request first_step rest g begun context guidance got
            active below queried authorized began h session)
    after_begin-IsGuarded request first_step rest g context guidance (guidance_pending x) got active
          below queried authorized began h =
        h
    after_begin-IsGuarded request first_step rest g context guidance (not_active x) got active below
          queried authorized began h =
        h

    context-IsGuarded :
        (request : GoalRequest) (first_step : Bool) (rest : List Act) (g : Goal)
        (label : Option Text)
        → deps.get_goal rest ≡ some (some g)
        → is_active g.status ≡ true
        → g.steps_since_guidance < deps.max_steps
        → IsGuarded deps rest
        → IsGuarded deps
            ((context_for deps label >>= with_context deps request first_step next g)
              (asked_goal ∷ rest)).1
    unfolding with_context IsGuarded
    context-IsGuarded request first_step rest g none got active below h = h
    context-IsGuarded request first_step rest g (some label) got active below h =
        let log = asked_issue ∷ asked_goal ∷ rest in
        let guidance = first_step && request.first_step_is_guidance in
        go_on-IsGuarded deps (deps.query_issue (asked_goal ∷ rest)) log _ h (λ context queried.
          if-IsGuarded deps (not context.authorized) _ _ log
            (λ _. block_and_complete-Keeps deps goal_signal _ goal_label_removed_body log h)
            (λ authorized.
              go_on-IsGuarded deps (deps.take_step log guidance) (began_step guidance ∷ log) _ h
                (λ result began.
                  after_begin-IsGuarded request first_step rest g context guidance result got active
                    below queried (undenied context.authorized authorized) began h)))

    with_goal-IsGuarded :
        (request : GoalRequest) (first_step : Bool) (rest : List Act) (o : Option Goal)
        → deps.get_goal rest ≡ some o
        → IsGuarded deps rest
        → IsGuarded deps (with_goal deps request first_step next o (asked_goal ∷ rest)).1
    unfolding with_goal current_goal_issue_context IsGuarded
    with_goal-IsGuarded request first_step rest none got h = h
    with_goal-IsGuarded request first_step rest (some g) got h =
        let log = asked_goal ∷ rest in
        if-IsGuarded deps (is_stopped_status g.status) (return stopped) _ log (λ _. h)
          (λ _.
            if-IsGuarded deps (not (is_active g.status)) _ _ log (λ _. h)
              (λ active.
                if-IsGuarded deps (leb deps.max_steps g.steps_since_guidance) _ _ log
                  (λ _. block_and_complete-Keeps deps goal_signal _ goal_step_limit_body log h)
                  (λ below.
                    context-IsGuarded request first_step rest g deps.label_id got
                      (undenied (is_active g.status) active)
                      (under deps.max_steps g.steps_since_guidance below) h)))

  run_goal_task-Keeps :
      (fuel : ℕ) (request : GoalRequest) (first_step : Bool)
      → Keeps deps (run_goal_task deps fuel request first_step)
  unfolding run_goal_task IsGuarded
  run_goal_task-Keeps zero request first_step log h = h
  run_goal_task-Keeps (suc fuel) request first_step log h =
      let next = run_goal_task deps fuel request false in
      if-IsGuarded deps (deps.is_closing log || deps.is_aborted log goal_signal) (return stopped)
        (get_goal deps >>= with_goal deps request first_step next) log (λ _. h)
        (λ _. go_on-IsGuarded deps (deps.get_goal log) (asked_goal ∷ log) _ h (λ o got.
          with_goal-IsGuarded next (run_goal_task-Keeps fuel request false) request first_step log o
            got h))

  -- Whatever the store, Linear and the runtime answer, and however many rounds the loop has: in a task
  -- of an autonomous goal a turn of the runtime is run only right after the goal was read as active
  -- with fewer steps since guidance than the maximum, its issue carried the label, and the store began
  -- that very step; the issue is moved to completed only right after it was queried as open and with
  -- the label, the goal was read as neither stopped nor guided, and the store let the completion be
  -- dispatched; and an activity is created only right after the goal was read as not stopped, while
  -- the service is not shutting down.
  pub run_goal_task-IsGuarded :
      (fuel : ℕ) (request : GoalRequest)
      → IsGuarded deps (run_goal_task deps fuel request true []).1
  unfolding IsGuarded
  run_goal_task-IsGuarded fuel request = run_goal_task-Keeps fuel request true [] tt

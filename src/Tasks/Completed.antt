-- ===== src/Tasks/Completed.antt =====
-- src/server.ts: finishAutonomousGoalCompletion keeps to the guards of Tasks.Guards.
use linear_agent_bridge.Base.{
  ◌≡◌, refl, Bool, true, false, not, ◌&&◌, Option, none, some, List, ◌∷◌, Text,
}
use linear_agent_bridge.State.Types.{Goal}
use linear_agent_bridge.State.Goals.{
  resume, completion_dispatch, is_active, is_completing, is_completion_notice,
}
use linear_agent_bridge.Linear.Shapes.{IssueContext}
use linear_agent_bridge.Tasks.Calls.{
  completed, stopped, Signal, Act, asked_goal, asked_issue, changed, completed_issue, GoalDeps,
  ◌>>=◌, return, throw_if_aborted, get_goal, change, is_stopped_goal, is_stopped_status,
  has_guidance,
}
use linear_agent_bridge.Tasks.Notices.{
  context_for, current_goal_issue_context, recover_pending_notice,
}
use linear_agent_bridge.Tasks.Completion.{
  goal_label_removed_body, goal_completion_retry_body, conclude_with, conclude, after_attempt,
  after_dispatch, after_query, with_completion_state, finish_current, finish_goal_completion,
}
use linear_agent_bridge.Tasks.Guards.{
  IsGuarded, Keeps, go_on-IsGuarded, Keeps->>=, if-IsGuarded, throw_when-then,
}
use linear_agent_bridge.Base.{is_some}
use linear_agent_bridge.Tasks.Guarded.{
  throw_if_aborted-Keeps, change-Keeps, block_and_complete-Keeps, recover_pending_notice-Keeps,
  undenied,
}

module _ (deps : GoalDeps) (signal : Signal) where
  conclude_with-Keeps : (o : Option Goal) → Keeps deps (conclude_with deps signal o)
  conclude_with-Keeps none log h = h
  conclude_with-Keeps (some g) log h =
      if-IsGuarded deps (is_stopped_status g.status) (return stopped) _ log (λ _. h)
        (λ _.
          if-IsGuarded deps (is_completing g.status && is_completion_notice g.pending_notice) _ _
            log
            (λ _.
              Keeps->>= deps (recover_pending_notice deps signal g.pending_notice) _
                (recover_pending_notice-Keeps deps signal g.pending_notice) (λ _ log h. h) log h)
            (λ _. h))

  conclude-Keeps : Keeps deps (conclude deps signal)
  unfolding conclude IsGuarded
  conclude-Keeps =
      Keeps->>= deps (throw_if_aborted deps signal) _ (throw_if_aborted-Keeps deps signal)
        (λ _ log h.
          go_on-IsGuarded deps (deps.get_goal log) (asked_goal ∷ log) _ h
            (λ o e. conclude_with-Keeps o (asked_goal ∷ log) h))

  after_attempt-Keeps : (g : Goal) (b : Bool) → Keeps deps (after_attempt deps signal g b)
  unfolding after_attempt
  after_attempt-Keeps g true log h = conclude-Keeps log h
  after_attempt-Keeps g false log h =
      if-IsGuarded deps (deps.is_aborted log signal) (return stopped) _ log (λ _. h)
        (λ _. block_and_complete-Keeps deps signal _ goal_completion_retry_body log h)

  -- The issue is queried, and then the goal is read.
  module _ (rest : List Act) (context : IssueContext) (post : Option Goal)
      (queried : deps.query_issue rest ≡ some context)
      (got : deps.get_goal (asked_issue ∷ rest) ≡ some post) (guarded : IsGuarded deps rest) where
    after_dispatch-IsGuarded :
        (g : Goal) (state_id : Text) (dispatched : Goal)
        → context.authorized ≡ true
        → context.already_completed ≡ false
        → is_stopped_goal post ≡ false
        → has_guidance post ≡ false
        → deps.change (asked_goal ∷ asked_issue ∷ rest) completion_dispatch ≡ some dispatched
        → IsGuarded deps
            (after_dispatch deps signal g state_id context.issue_id dispatched
              (changed completion_dispatch ∷ asked_goal ∷ asked_issue ∷ rest)).1
    unfolding after_dispatch IsGuarded
    after_dispatch-IsGuarded g state_id dispatched authorized unfinished live free crossed =
        let log = changed completion_dispatch ∷ asked_goal ∷ asked_issue ∷ rest in
        if-IsGuarded deps (is_stopped_status dispatched.status) (return stopped) _ log
          (λ _. guarded)
          (λ still.
            if-IsGuarded deps (is_active dispatched.status) (return completed) _ log (λ _. guarded)
              (λ inactive. throw_when-then deps (deps.is_aborted log signal) _ log guarded (λ _.
                after_attempt-Keeps g (is_some (deps.complete_issue log context.issue_id state_id))
                  (completed_issue context.issue_id state_id ∷ log)
                  (
                    (
                      rest, context, post, dispatched, refl, queried, refl, authorized, unfinished,
                      got, live, free, crossed, still, inactive,
                    ),
                    guarded,
                  ))))

    after_query-IsGuarded :
        (g : Goal) (state_id : Text)
        → IsGuarded deps
            (after_query deps signal g state_id context post (asked_goal ∷ asked_issue ∷ rest)).1
    unfolding after_query IsGuarded
    after_query-IsGuarded g state_id =
        let log = asked_goal ∷ asked_issue ∷ rest in
        if-IsGuarded deps (is_stopped_goal post) (return stopped) _ log (λ _. guarded)
          (λ live.
            if-IsGuarded deps (has_guidance post) _ _ log
              (λ _.
                Keeps->>= deps (change deps (resume none)) (λ _. return completed)
                  (change-Keeps deps (resume none)) (λ _ log h. h) log guarded)
              (λ free.
                if-IsGuarded deps (not context.authorized) _ _ log
                  (λ _. block_and_complete-Keeps deps signal _ goal_label_removed_body log guarded)
                  (λ authorized.
                    if-IsGuarded deps context.already_completed (conclude deps signal) _ log
                      (λ _. conclude-Keeps log guarded)
                      (λ unfinished.
                        go_on-IsGuarded deps (deps.change log completion_dispatch)
                          (changed completion_dispatch ∷ log) _ guarded
                          (λ dispatched crossed.
                            after_dispatch-IsGuarded g state_id dispatched
                              (undenied context.authorized authorized) unfinished live free
                              crossed)))))

  query-IsGuarded :
      (g : Goal) (state_id : Text) (label : Option Text)
      → Keeps deps (
          context_for deps label >>= λ context.
          get_goal deps >>= λ post. after_query deps signal g state_id context post)
  unfolding IsGuarded
  query-IsGuarded g state_id none log h = h
  query-IsGuarded g state_id (some label) log h =
      go_on-IsGuarded deps (deps.query_issue log) (asked_issue ∷ log) _ h (λ context queried.
        go_on-IsGuarded deps (deps.get_goal (asked_issue ∷ log)) (asked_goal ∷ asked_issue ∷ log) _
          h (λ post got. after_query-IsGuarded log context post queried got h g state_id))

  with_completion_state-Keeps :
      (g : Goal) (o : Option Text) → Keeps deps (with_completion_state deps signal g o)
  unfolding with_completion_state current_goal_issue_context
  with_completion_state-Keeps g none log h = h
  with_completion_state-Keeps g (some state_id) log h =
      query-IsGuarded g state_id deps.label_id log h

  finish_current-Keeps : (o : Option Goal) → Keeps deps (finish_current deps signal o)
  finish_current-Keeps none log h = h
  finish_current-Keeps (some g) log h =
      if-IsGuarded deps (is_stopped_status g.status) (return stopped) _ log (λ _. h)
        (λ _.
          if-IsGuarded deps (is_completing g.status) _ _ log
            (λ _. with_completion_state-Keeps g g.completion_state_id log h) (λ _. h))

  pub finish_goal_completion-Keeps : Keeps deps (finish_goal_completion deps signal)
  unfolding finish_goal_completion IsGuarded
  finish_goal_completion-Keeps =
      Keeps->>= deps (throw_if_aborted deps signal) _ (throw_if_aborted-Keeps deps signal)
        (λ _ log h.
          go_on-IsGuarded deps (deps.get_goal log) (asked_goal ∷ log) _ h
            (λ o e. finish_current-Keeps o (asked_goal ∷ log) h))

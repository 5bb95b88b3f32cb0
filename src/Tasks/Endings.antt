-- ===== src/Tasks/Endings.antt =====
-- src/server.ts: what follows a turn in runAutonomousGoalTask keeps to the guards of Tasks.Guards.
use linear_agent_bridge.Base.{ℕ, not, ◌||◌, Option, none, some, List, ◌∷◌, ◌++◌, Text, text, ltb}
use linear_agent_bridge.Decision.{Decision, continues, blocked}
use linear_agent_bridge.State.Types.{Goal}
use linear_agent_bridge.State.Goals.{continuation, completion}
use linear_agent_bridge.Linear.Shapes.{IssueContext}
use linear_agent_bridge.Tasks.Calls.{
  Reason, completed, inactive, stopped, failed, thought, Signal, goal_signal, finalizer, Act,
  asked_goal, registered, GoalDeps, Task, ◌>>=◌, return, throw, get_goal, change, is_stopped_goal,
  has_guidance,
}
use linear_agent_bridge.Tasks.Notices.{block_with_notice, context_for, current_goal_issue_context}
use linear_agent_bridge.Tasks.Completion.{goal_label_removed_body}
use linear_agent_bridge.Tasks.Loop.{
  step_key, yield_step, complete_in, completion_state_of, queued_guidance, final_body,
  after_completion_query, after_decision, summary_of, decide_with, after_response,
  block_failed_turn, after_abort, try_catch, caught, after_failed_turn, goal_protocol_error_body,
  goal_runtime_failed_body, goal_completion_state_body,
}
use linear_agent_bridge.Tasks.Guards.{IsGuarded, Keeps, go_on-IsGuarded, Keeps->>=, if-IsGuarded}
use linear_agent_bridge.Tasks.Guarded.{
  change-Keeps, emit_goal_activity-Keeps, block_with_notice-Keeps, block_and_complete-Keeps,
}
use linear_agent_bridge.Tasks.Completed.{finish_goal_completion-Keeps}

module _ (deps : GoalDeps) where
  yield_step-Keeps : (step : ℕ) (body : Text) → Keeps deps (yield_step deps step body)
  unfolding yield_step
  yield_step-Keeps step body =
      Keeps->>= deps (change deps continuation) _ (change-Keeps deps continuation)
        (λ g. emit_goal_activity-Keeps deps goal_signal _ (thought body))

  yielded-Keeps :
      (step : ℕ) (body : Text) → Keeps deps (yield_step deps step body >>= λ _. return completed)
  yielded-Keeps step body =
      Keeps->>= deps (yield_step deps step body) _ (yield_step-Keeps step body) (λ _ log h. h)

  complete_in-Keeps :
      (step : ℕ) (message verification identifier : Text) (o : Option Text)
      → Keeps deps (complete_in deps step message verification identifier o)
  unfolding complete_in
  complete_in-Keeps step message verification identifier none log h =
      block_and_complete-Keeps deps goal_signal _ goal_completion_state_body log h
  complete_in-Keeps step message verification identifier (some state_id) log h =
      let c =
        completion state_id (step_key deps step (text "-completion"))
          (final_body deps message verification identifier) in
      Keeps->>= deps (change deps c) _ (change-Keeps deps c)
        (λ g. finish_goal_completion-Keeps deps goal_signal) log h

  after_completion_query-Keeps :
      (step : ℕ) (message verification : Text) (context : IssueContext) (post : Option Goal)
      → Keeps deps (after_completion_query deps step message verification context post)
  unfolding after_completion_query
  after_completion_query-Keeps step message verification context post log h =
      if-IsGuarded deps (is_stopped_goal post) (return stopped) _ log (λ _. h)
        (λ _.
          if-IsGuarded deps (has_guidance post) _ _ log
            (λ _. yielded-Keeps step (message ++ queued_guidance) log h)
            (λ _.
              if-IsGuarded deps (not context.authorized) _ _ log
                (λ _. block_and_complete-Keeps deps goal_signal _ goal_label_removed_body log h)
                (λ _.
                  complete_in-Keeps step message verification context.issue_identifier
                    (completion_state_of deps context) log h)))

  context_for-Keeps : (label : Option Text) → Keeps deps (context_for deps label)
  unfolding IsGuarded
  context_for-Keeps none log h = h
  context_for-Keeps (some label) log h = h

  get_goal-Keeps : Keeps deps (get_goal deps)
  unfolding IsGuarded
  get_goal-Keeps log h = h

  module _ (next : Task Reason) (next-Keeps : Keeps deps next) where
    after_decision-Keeps : (step : ℕ) (d : Decision) → Keeps deps (after_decision deps step next d)
    unfolding after_decision current_goal_issue_context
    after_decision-Keeps step (continues message) log h =
        Keeps->>= deps (yield_step deps step message) _ (yield_step-Keeps step message)
          (λ _. next-Keeps) log h
    after_decision-Keeps step (blocked message) log h =
        block_and_complete-Keeps deps goal_signal _ message log h
    after_decision-Keeps step (Decision.completed message verification) log h =
        Keeps->>= deps (context_for deps deps.label_id) _ (context_for-Keeps deps.label_id)
          (λ context.
            Keeps->>= deps (get_goal deps) _ get_goal-Keeps
              (after_completion_query-Keeps step message verification context))
          log h

    decide_with-Keeps :
        (step : ℕ) (d : Decision) (waiting : ℕ) (goal : Option Goal)
        → Keeps deps (decide_with deps step next d waiting goal)
    unfolding decide_with
    decide_with-Keeps step d waiting goal log h =
        if-IsGuarded deps (is_stopped_goal goal) (return stopped) _ log (λ _. h)
          (λ _.
            if-IsGuarded deps (ltb 1 waiting || has_guidance goal) _ _ log
              (λ _. yielded-Keeps step (summary_of deps d) log h)
              (λ _. after_decision-Keeps step d log h))

    pub after_response-Keeps :
        (step : ℕ) (o : Option Decision) → Keeps deps (after_response deps step next o)
    unfolding after_response IsGuarded
    after_response-Keeps step none log h =
        block_and_complete-Keeps deps goal_signal _ goal_protocol_error_body log h
    after_response-Keeps step (some d) log h =
        go_on-IsGuarded deps (deps.get_goal log) (asked_goal ∷ log) _ h (λ goal e.
          decide_with-Keeps step d (deps.queue_size (asked_goal ∷ log)) goal (asked_goal ∷ log) h)

  block_failed_turn-Keeps :
      (step : ℕ) (signal : Signal) (reason : Reason)
      → Keeps deps (block_failed_turn deps step signal reason)
  unfolding block_failed_turn IsGuarded
  block_failed_turn-Keeps step signal reason log h =
      go_on-IsGuarded deps (deps.get_goal log) (asked_goal ∷ log) _ h (λ latest e.
        if-IsGuarded deps (is_stopped_goal latest || deps.is_closing (asked_goal ∷ log))
          (return stopped) _ (asked_goal ∷ log) (λ _. h)
          (λ _.
            Keeps->>= deps
              (block_with_notice deps signal (text "goal-runtime-failed-" ++ deps.decimal step)
                goal_runtime_failed_body none)
              _ (block_with_notice-Keeps deps signal _ goal_runtime_failed_body none)
              (λ _ later k.
                go_on-IsGuarded deps (deps.get_goal later) (asked_goal ∷ later) _ k (λ finalized e.
                  if-IsGuarded deps (is_stopped_goal finalized) (return stopped) (return reason)
                    (asked_goal ∷ later) (λ _. k) (λ _. k)))
              (asked_goal ∷ log) h))

  after_abort-Keeps : (signal : Signal) → Keeps deps (after_abort deps signal)
  unfolding after_abort IsGuarded
  after_abort-Keeps signal log h =
      if-IsGuarded deps (deps.is_aborted log signal) _ throw log
        (λ _. go_on-IsGuarded deps (deps.get_goal log) (asked_goal ∷ log) _ h (λ latest e.
          if-IsGuarded deps (is_stopped_goal latest || deps.is_closing (asked_goal ∷ log))
            (return stopped) throw (asked_goal ∷ log) (λ _. h) (λ _. h)))
        (λ _. h)

  caught-IsGuarded :
      (o : Option Reason) (handler : Task Reason) (log : List Act)
      → Keeps deps handler
      → IsGuarded deps log
      → IsGuarded deps (caught deps o handler log).1
  caught-IsGuarded none handler log k h = k log h
  caught-IsGuarded (some a) handler log k h = h

  guarded_turn-Keeps :
      (step : ℕ) (signal : Signal) (reason : Reason)
      → Keeps deps
          (try_catch deps (block_failed_turn deps step signal reason) (after_abort deps signal))
  guarded_turn-Keeps step signal reason log h =
      caught-IsGuarded (block_failed_turn deps step signal reason log).0 (after_abort deps signal)
        (block_failed_turn deps step signal reason log).1 (after_abort-Keeps signal)
        (block_failed_turn-Keeps step signal reason log h)

  pub after_failed_turn-Keeps :
      (step : ℕ) (reason : Reason) → Keeps deps (after_failed_turn deps step reason)
  unfolding after_failed_turn IsGuarded
  after_failed_turn-Keeps step inactive log h =
      guarded_turn-Keeps step finalizer inactive (registered ∷ log) h
  after_failed_turn-Keeps step completed log h = guarded_turn-Keeps step goal_signal completed log h
  after_failed_turn-Keeps step stopped log h = guarded_turn-Keeps step goal_signal stopped log h
  after_failed_turn-Keeps step failed log h = guarded_turn-Keeps step goal_signal failed log h

-- ===== src/Tasks/Completion.antt =====
-- src/server.ts: finishAutonomousGoalCompletion, which moves the issue of a goal to completed.
use linear_agent_bridge.Base.{
  Bool, true, false, not, ◌&&◌, Option, none, some, Text, text, ◌++◌, if◌then◌else◌,
}
use linear_agent_bridge.State.Types.{Goal}
use linear_agent_bridge.State.Goals.{
  is_active, is_completing, is_completion_notice, resume, completion_dispatch,
}
use linear_agent_bridge.Linear.Shapes.{IssueContext}
use linear_agent_bridge.Tasks.Calls.{
  Reason, completed, stopped, failed, Signal, completed_issue, GoalDeps, Task, ◌>>=◌, ◌>>◌, return,
  ask, look, attempt, get_goal, change, throw_if_aborted, is_stopped_status, is_stopped_goal,
  has_guidance,
}
use linear_agent_bridge.Tasks.Notices.{
  block_with_notice, current_goal_issue_context, recover_pending_notice,
}

-- `GOAL_LABEL_REMOVED_BODY`
abbrev pub goal_label_removed_body : Text
goal_label_removed_body =
    text
      "I paused because the configured autonomous-goal label is no longer on this issue. Add the label back and reply here to resume."

-- `GOAL_COMPLETION_RETRY_BODY`
abbrev pub goal_completion_retry_body : Text
goal_completion_retry_body =
    text
      "The work is verified, but I could not move the issue to completed. Reply here to retry the Linear update."

module _ (deps : GoalDeps) (signal : Signal) where
  -- A notice that blocks the goal, and the end of the task.
  unfoldable pub block_and_complete : Text → Text → Task Reason
  unfolding block_with_notice
  block_and_complete activity_key body =
      block_with_notice deps signal activity_key body none >> return completed

  abbrev pub conclude_with : Option Goal → Task Reason
  conclude_with none = return failed
  conclude_with (some g) =
      if is_stopped_status g.status
      then return stopped
      else if is_completing g.status && is_completion_notice g.pending_notice
      then recover_pending_notice deps signal g.pending_notice >> return completed
      else return failed

  -- The end, when the issue is completed.
  unfoldable pub conclude : Task Reason
  unfolding recover_pending_notice
  conclude = do throw_if_aborted deps signal; latest ← get_goal deps; conclude_with latest

  unfoldable pub after_attempt : Goal → Bool → Task Reason
  unfolding conclude block_and_complete
  after_attempt g true = conclude
  after_attempt g false = do
    aborted ← look (λ log. deps.is_aborted log signal)
    if aborted
        then return stopped
        else block_and_complete (text "goal-completion-retry-" ++ deps.decimal g.step)
            goal_completion_retry_body

  unfoldable pub after_dispatch : Goal → Text → Text → Goal → Task Reason
  unfolding after_attempt
  after_dispatch g state_id issue_id dispatched =
      if is_stopped_status dispatched.status
      then return stopped
      else if is_active dispatched.status
      then return completed
      else throw_if_aborted deps signal
        >> (attempt (
              ask (λ log. deps.complete_issue log issue_id state_id)
                (completed_issue issue_id state_id))
            >>= after_attempt g)

  unfoldable pub after_query : Goal → Text → IssueContext → Option Goal → Task Reason
  unfolding block_and_complete after_dispatch conclude
  after_query g state_id context post =
      if is_stopped_goal post
      then return stopped
      else if has_guidance post
      then change deps (resume none) >>= (λ _. return completed)
      else if not context.authorized
      then block_and_complete (text "goal-label-removed-" ++ deps.decimal g.step)
          goal_label_removed_body
      else if context.already_completed
      then conclude
      else change deps completion_dispatch >>= after_dispatch g state_id context.issue_id

  unfoldable pub with_completion_state : Goal → Option Text → Task Reason
  unfolding current_goal_issue_context after_query
  with_completion_state g none = return failed
  with_completion_state g (some state_id) = do
    context ← current_goal_issue_context deps
    post ← get_goal deps
    after_query g state_id context post

  abbrev pub finish_current : Option Goal → Task Reason
  finish_current none = return failed
  finish_current (some g) =
      if is_stopped_status g.status
      then return stopped
      else if is_completing g.status
      then with_completion_state g g.completion_state_id
      else return failed

  -- `finishAutonomousGoalCompletion`
  unfoldable pub finish_goal_completion : Task Reason
  unfolding with_completion_state
  finish_goal_completion = do
    throw_if_aborted deps signal
    current ← get_goal deps
    finish_current current

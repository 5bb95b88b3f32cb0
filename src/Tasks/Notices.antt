-- ===== src/Tasks/Notices.antt =====
-- src/server.ts: emitAutonomousGoalActivity, blockAutonomousGoalWithNotice, goalActivityExists,
-- recoverAutonomousGoalPendingNotice, currentGoalIssueContext and
-- resolveAutonomousGoalAuthorization.
use linear_agent_bridge.Base.{
  Bool, true, false, not, ◌||◌, Option, none, some, Text, same, any, if◌then◌else◌,
}
use linear_agent_bridge.Recovery.Types.{NoticeKind}
use linear_agent_bridge.State.Types.{PendingNotice, Goal}
use linear_agent_bridge.State.Goals.{activate, decline, block, complete, notice_sent}
use linear_agent_bridge.Linear.Shapes.{IssueContext}
use linear_agent_bridge.Tasks.Calls.{
  Content, elicitation, response, Signal, asked_issue, named_activity, asked_notice_body,
  listed_activities, created_activity, GoalDeps, Task, ◌>>=◌, ◌>>◌, return, throw, ask, look,
  throw_when, get_goal, change, throw_if_aborted, is_stopped_goal,
}

module _ (deps : GoalDeps) where
  -- The activity is created with the signal of the caller and the one of the shutdown.
  abbrev pub create_with : Signal → Text → Content → Task (Unit {0})
  create_with signal id content = do
    aborted ← look (λ log. deps.is_aborted log signal || deps.is_shutting_down log)
    throw_when aborted
    ask (λ log. deps.post_activity log id content) (created_activity id content)

  abbrev pub unless_stopped : Option Goal → Task (Unit {0}) → Task (Unit {0})
  unless_stopped goal k = if is_stopped_goal goal then return tt else k

  -- `emitAutonomousGoalActivity`
  unfoldable pub emit_goal_activity : Signal → Text → Content → Task (Unit {0})
  emit_goal_activity signal activity_key content = do
    throw_if_aborted deps signal
    goal ← get_goal deps
    unless_stopped goal (do
      throw_if_aborted deps signal
      id ← ask (λ log. deps.activity_id log activity_key) (named_activity activity_key)
      latest ← get_goal deps
      unless_stopped latest (create_with signal id content))

  -- `blockAutonomousGoalWithNotice`
  unfoldable pub block_with_notice : Signal → Text → Text → Option Text → Task (Unit {0})
  unfolding emit_goal_activity
  block_with_notice signal activity_key body guidance = do
    throw_if_aborted deps signal
    blocked ← change deps (block activity_key body guidance)
    emit_goal_activity signal activity_key (elicitation body)
    cleared ← change deps (notice_sent activity_key)
    return tt

  abbrev pub context_for : Option Text → Task IssueContext
  context_for none = throw
  context_for (some label) = ask deps.query_issue asked_issue

  -- `currentGoalIssueContext`, on the issue of the goal
  unfoldable pub current_goal_issue_context : Task IssueContext
  current_goal_issue_context = context_for deps.label_id

  -- `resolveAutonomousGoalAuthorization`
  unfoldable pub resolve_goal_authorization : Task Goal
  unfolding current_goal_issue_context
  resolve_goal_authorization = do
    context ← current_goal_issue_context
    change deps (if not context.authorized || context.already_completed then decline else activate)

  -- `goalActivityExists`
  unfoldable pub goal_activity_exists : Text → Task Bool
  unfolding any
  goal_activity_exists activity_key = do
    id ← ask (λ log. deps.activity_id log activity_key) (named_activity activity_key)
    ids ← ask deps.list_activities listed_activities
    return (any (same id) ids)

  abbrev pub content_of_notice : NoticeKind → Text → Content
  content_of_notice NoticeKind.completion body = response body
  content_of_notice NoticeKind.elicitation body = elicitation body

  abbrev pub change_of_notice : PendingNotice → NoticeKind → Task Goal
  change_of_notice n NoticeKind.completion = change deps complete
  change_of_notice n NoticeKind.elicitation = change deps (notice_sent n.activity_key)

  unfoldable pub settle_notice : PendingNotice → Task (Unit {0})
  settle_notice n = do
    current ← get_goal deps
    unless_stopped current (change_of_notice n n.kind >>= λ _. return tt)

  unfoldable pub emit_notice : Signal → PendingNotice → Option Text → Task (Unit {0})
  unfolding emit_goal_activity settle_notice
  emit_notice signal n none = return tt
  emit_notice signal n (some body) =
      emit_goal_activity signal n.activity_key (content_of_notice n.kind body) >> settle_notice n

  unfoldable pub emit_if_missing : Signal → PendingNotice → Bool → Task (Unit {0})
  unfolding emit_notice settle_notice
  emit_if_missing signal n true = settle_notice n
  emit_if_missing signal n false =
      ask (λ log. deps.notice_body log n.activity_key) (asked_notice_body n.activity_key)
      >>= emit_notice signal n

  -- `recoverAutonomousGoalPendingNotice`
  unfoldable pub recover_pending_notice : Signal → Option PendingNotice → Task (Unit {0})
  unfolding goal_activity_exists emit_if_missing
  recover_pending_notice signal none = return tt
  recover_pending_notice signal (some n) =
      goal_activity_exists n.activity_key >>= emit_if_missing signal n

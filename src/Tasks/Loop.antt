-- ===== src/Tasks/Loop.antt =====
-- src/server.ts: runAutonomousGoalTask, the loop that lets the runtime take steps on an issue.
use linear_agent_bridge.Base.{
  ℕ, zero, suc, Bool, false, not, ◌&&◌, ◌||◌, Option, none, some, ◌∷◌, Text, text, ◌++◌, same, leb,
  ltb, if◌then◌else◌,
}
use linear_agent_bridge.Decision.{Decision, continues, blocked, parse_autonomous_goal_decision}
use linear_agent_bridge.State.Types.{Goal}
use linear_agent_bridge.State.Goals.{is_active, is_completed, is_blocked, continuation, completion}
use linear_agent_bridge.State.Goals.Store.{StepResult, started, guidance_pending, not_active}
use linear_agent_bridge.Session.{SessionRecord}
use linear_agent_bridge.Linear.Shapes.{IssueContext}
use linear_agent_bridge.Tasks.Calls.{
  Reason, completed, inactive, stopped, failed, thought, Turn, TurnOutcome, Signal, goal_signal,
  finalizer, asked_session, asked_objective, registered, unregistered, began_step, ran_turn,
  GoalDeps, Task, ◌>>=◌, ◌>>◌, return, throw, ask, look, get_goal, change, is_stopped_status,
  is_stopped_goal, has_guidance,
}
use linear_agent_bridge.Tasks.Notices.{
  emit_goal_activity, block_with_notice, current_goal_issue_context,
}
use linear_agent_bridge.Tasks.Completion.{
  goal_label_removed_body, block_and_complete, finish_goal_completion,
}

-- `initialRequest`, as far as the loop reads it, and `options.firstStepIsGuidance`
pub record GoalRequest : Type 0 where
  pub prompt : Text
  pub resume_session_id : Option Text
  pub first_step_is_guidance : Bool

-- `GOAL_PROTOCOL_ERROR_BODY`
abbrev pub goal_protocol_error_body : Text
goal_protocol_error_body =
    text
      "I paused autonomous work because the runtime did not return a valid lifecycle result. Reply here to resume."

-- `GOAL_STEP_LIMIT_BODY`
abbrev pub goal_step_limit_body : Text
goal_step_limit_body =
    text
      "I reached the configured autonomous-step limit. Reply here to authorize another bounded set of steps."

-- `GOAL_RUNTIME_FAILED_BODY`
abbrev pub goal_runtime_failed_body : Text
goal_runtime_failed_body =
    text
      "The provider turn stopped before it produced a safe lifecycle result. Reply here after reviewing the error to resume."

-- `GOAL_COMPLETION_STATE_BODY`
abbrev pub goal_completion_state_body : Text
goal_completion_state_body =
    text
      "The work is verified, but this issue has no completed workflow state available. Configure a completed state and reply here to retry completion."

-- `RUNTIME_PROVIDER_MISMATCH_BODY`
abbrev pub runtime_provider_mismatch_body : Text
runtime_provider_mismatch_body =
    text
      "This agent session was started with a different runtime and cannot be resumed safely. Start a new Linear agent session after changing RUNTIME."

abbrev pub queued_guidance : Text
queued_guidance = text " I will apply the guidance already queued before completing the issue."

module _ (deps : GoalDeps) where
  abbrev pub step_key : ℕ → Text → Text
  step_key step suffix = text "goal-step-" ++ deps.decimal step ++ suffix

  -- The goal goes back to active, and the message is shown as a thought.
  unfoldable pub yield_step : ℕ → Text → Task (Unit {0})
  unfolding emit_goal_activity
  yield_step step body = change deps continuation >>= (λ _.
      emit_goal_activity deps goal_signal (step_key step (text "-summary")) (thought body))

  abbrev pub completion_state_of : IssueContext → Option Text
  completion_state_of context =
      if context.already_completed
      then some context.current_state_id
      else context.completed_state_id

  abbrev pub final_body : Text → Text → Text → Text
  final_body message verification identifier =
      message
      ++ text "\n\nVerification: "
      ++ verification
      ++ text "\n\n"
      ++ identifier
      ++ text " was moved to completed."

  unfoldable pub complete_in : ℕ → Text → Text → Text → Option Text → Task Reason
  unfolding block_and_complete finish_goal_completion
  complete_in step message verification identifier none =
      block_and_complete deps goal_signal (text "goal-completion-state-" ++ deps.decimal step)
        goal_completion_state_body
  complete_in step message verification identifier (some state_id) =
      change deps (
        completion state_id (step_key step (text "-completion"))
          (final_body message verification identifier))
      >>= (λ _. finish_goal_completion deps goal_signal)

  unfoldable pub after_completion_query : ℕ → Text → Text → IssueContext → Option Goal → Task Reason
  unfolding yield_step block_and_complete complete_in
  after_completion_query step message verification context post =
      if is_stopped_goal post
      then return stopped
      else if has_guidance post
      then yield_step step (message ++ queued_guidance) >> return completed
      else if not context.authorized
      then block_and_complete deps goal_signal (text "goal-label-removed-" ++ deps.decimal step)
          goal_label_removed_body
      else complete_in step message verification context.issue_identifier
          (completion_state_of context)

  -- What a decision leads to, if no guidance waits; `next` is the next round of the loop.
  unfoldable pub after_decision : ℕ → Task Reason → Decision → Task Reason
  unfolding yield_step block_and_complete current_goal_issue_context after_completion_query
  after_decision step next (continues message) = yield_step step message >> next
  after_decision step next (blocked message) =
      block_and_complete deps goal_signal (step_key step (text "-blocked")) message
  after_decision step next (Decision.completed message verification) = do
    context ← current_goal_issue_context deps
    post ← get_goal deps
    after_completion_query step message verification context post

  abbrev pub summary_of : Decision → Text
  summary_of (continues message) = message
  summary_of (blocked message) = message
  summary_of (Decision.completed message verification) = message ++ queued_guidance

  unfoldable pub decide_with : ℕ → Task Reason → Decision → ℕ → Option Goal → Task Reason
  unfolding yield_step after_decision
  decide_with step next decision waiting goal =
      if is_stopped_goal goal
      then return stopped
      else if ltb 1 waiting || has_guidance goal
      then yield_step step (summary_of decision) >> return completed
      else after_decision step next decision

  unfoldable pub after_response : ℕ → Task Reason → Option Decision → Task Reason
  unfolding block_and_complete decide_with
  after_response step next none =
      block_and_complete deps goal_signal (text "goal-protocol-error-" ++ deps.decimal step)
        goal_protocol_error_body
  after_response step next (some decision) = do
    goal ← get_goal deps
    waiting ← look deps.queue_size
    decide_with step next decision waiting goal

  unfoldable pub decision_in : Option Text → Option Decision
  unfolding parse_autonomous_goal_decision
  decision_in none = none
  decision_in (some response) = parse_autonomous_goal_decision deps.json_parse response

  -- The block after a turn that did not complete, up to its `catch`.
  unfoldable pub block_failed_turn : ℕ → Signal → Reason → Task Reason
  unfolding block_with_notice
  block_failed_turn step signal reason = do
    latest ← get_goal deps
    closing ← look deps.is_closing
    if is_stopped_goal latest || closing
        then return stopped
        else block_with_notice deps signal (text "goal-runtime-failed-" ++ deps.decimal step)
            goal_runtime_failed_body none
          >> (get_goal deps >>= (λ finalized.
              if is_stopped_goal finalized then return stopped else return reason))

  unfoldable pub after_abort : Signal → Task Reason
  after_abort signal = do
    aborted ← look (λ log. deps.is_aborted log signal)
    if aborted
        then get_goal deps >>= (λ latest.
          look deps.is_closing
          >>= (λ closing. if is_stopped_goal latest || closing then return stopped else throw))
        else throw

  abbrev pub caught : {A : Type 0} → Option A → Task A → Task A
  caught none handler = handler
  caught (some a) handler = return a

  -- `try ... catch`
  abbrev pub try_catch : {A : Type 0} → Task A → Task A → Task A
  try_catch m handler = λ log. caught (m log).0 handler (m log).1

  -- `try ... finally`
  abbrev pub finally_unregister : {A : Type 0} → Task A → Task A
  finally_unregister m = λ log. ((m log).0, unregistered ∷ (m log).1)

  unfoldable pub after_failed_turn : ℕ → Reason → Task Reason
  unfolding block_failed_turn after_abort
  after_failed_turn step inactive =
      ask (λ log. some tt) registered
      >> finally_unregister
          (try_catch (block_failed_turn step finalizer inactive) (after_abort finalizer))
  after_failed_turn step reason =
      try_catch (block_failed_turn step goal_signal reason) (after_abort goal_signal)

  unfoldable pub after_reason : ℕ → Task Reason → Option Text → Reason → Task Reason
  unfolding after_failed_turn after_response decision_in
  after_reason step next response completed = after_response step next (decision_in response)
  after_reason step next response reason = after_failed_turn step reason

  unfoldable pub after_turn : ℕ → Task Reason → TurnOutcome → Task Reason
  unfolding after_reason
  after_turn step next outcome = after_reason step next outcome.response outcome.reason

  abbrev pub runtime_session_of : Option SessionRecord → Option Text
  runtime_session_of none = none
  runtime_session_of (some r) = some r.runtime_session_id

  abbrev pub either_session : Option Text → Option Text → Option Text
  either_session none other = other
  either_session (some id) other = some id

  abbrev pub is_other_runtime : Option SessionRecord → Bool
  is_other_runtime none = false
  is_other_runtime (some r) = not (same r.runtime deps.runtime_name)

  -- The opening objective stands before guidance that is given to a fresh runtime session.
  abbrev pub prompt_with : Option Text → Text → Text
  prompt_with none prompt = prompt
  prompt_with (some objective) prompt =
      if same objective prompt
      then prompt
      else objective ++ text "\n\nCurrent guidance:\n" ++ prompt

  abbrev pub objective_for : Option SessionRecord → Task (Option Text)
  objective_for none = ask deps.get_objective asked_objective
  objective_for (some r) = return none

  unfoldable pub take_turn :
      GoalRequest → ℕ → (first_step : Bool) → Task Reason → Option SessionRecord → Task Reason
  unfolding block_and_complete after_turn
  take_turn request step first_step next session =
      if is_other_runtime session
      then block_and_complete deps goal_signal (text "goal-provider-mismatch-" ++ deps.decimal step)
          runtime_provider_mismatch_body
      else objective_for session >>= (λ objective.
        let turn : Turn = record {
          step = step;
          prompt = prompt_with objective request.prompt;
          continuation = not first_step;
          resume_session_id = either_session (runtime_session_of session) request.resume_session_id;
        } in
        ask (λ log. deps.run_turn log turn) (ran_turn turn) >>= after_turn step next)

  abbrev pub not_started : Option Goal → Reason
  not_started goal = if is_stopped_goal goal then stopped else completed

  unfoldable pub after_begin :
      GoalRequest → (first_step : Bool) → Task Reason → StepResult → Task Reason
  unfolding take_turn
  after_begin request first_step next (started g) =
      ask deps.get_session asked_session >>= take_turn request g.step first_step next
  after_begin request first_step next (guidance_pending g) = return (not_started (some g))
  after_begin request first_step next (not_active goal) = return (not_started goal)

  unfoldable pub with_context :
      GoalRequest → (first_step : Bool) → Task Reason → Goal → IssueContext → Task Reason
  unfolding block_and_complete after_begin
  with_context request first_step next g context =
      if not context.authorized
      then block_and_complete deps goal_signal (text "goal-label-removed-" ++ deps.decimal g.step)
          goal_label_removed_body
      else let guidance = first_step && request.first_step_is_guidance in
        ask (λ log. deps.take_step log guidance) (began_step guidance)
        >>= after_begin request first_step next

  unfoldable pub with_goal :
      GoalRequest → (first_step : Bool) → Task Reason → Option Goal → Task Reason
  unfolding block_and_complete current_goal_issue_context with_context
  with_goal request first_step next none = return failed
  with_goal request first_step next (some g) =
      if is_stopped_status g.status
      then return stopped
      else if not (is_active g.status)
      then return (if is_completed g.status || is_blocked g.status then completed else failed)
      else if leb deps.max_steps g.steps_since_guidance
      then block_and_complete deps goal_signal (text "goal-step-limit-" ++ deps.decimal g.step)
          goal_step_limit_body
      else current_goal_issue_context deps >>= with_context request first_step next g

  -- `runAutonomousGoalTask`; the fuel is the number of its rounds, and `throw` stands for a run that
  -- has more of them.
  unfoldable pub run_goal_task : ℕ → GoalRequest → (first_step : Bool) → Task Reason
  unfolding with_goal
  run_goal_task zero request first_step = throw
  run_goal_task (suc fuel) request first_step =
      let next = run_goal_task fuel request false in
      look (λ log. deps.is_closing log || deps.is_aborted log goal_signal) >>= (λ over.
        if over then return stopped else get_goal deps >>= with_goal request first_step next)

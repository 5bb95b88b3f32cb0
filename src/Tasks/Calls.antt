-- ===== src/Tasks/Calls.antt =====
-- src/server.ts: what a task of an autonomous goal asks of the store, of Linear and of the runtime. A
-- task is a function of what was asked before, the latest first, so that each answer may be any: the
-- goal may be stopped, guided or changed by others between two of them, and each of them may fail.
-- All that is asked is about the session of the task.
use linear_agent_bridge.Base.{
  ℕ, Bool, true, false, Option, none, some, List, [], ◌∷◌, Text, is_some,
}
use linear_agent_bridge.Json.{Json}
use linear_agent_bridge.State.Types.{GoalStatus, Goal}
use linear_agent_bridge.State.Goals.{Change}
use linear_agent_bridge.State.Goals.Store.{StepResult}
use linear_agent_bridge.Session.{SessionRecord}
use linear_agent_bridge.Linear.Shapes.{IssueContext}

-- `TurnTerminalReason`
pub data Reason : Type 0 where
  completed inactive stopped failed : Reason

-- The content of an activity of a task.
pub data Content : Type 0 where
  thought elicitation response : (body : Text) → Content

-- What a turn of the runtime is given of its request.
pub record Turn : Type 0 where
  pub step : ℕ
  pub prompt : Text
  pub continuation : Bool
  pub resume_session_id : Option Text

-- `RuntimeTurnOutcome`
pub record TurnOutcome : Type 0 where
  pub reason : Reason
  pub response : Option Text

-- The signal of the task, and the one of the run that is registered after an inactive turn.
pub data Signal : Type 0 where
  goal_signal finalizer : Signal

pub data Act : Type 0 where
  asked_goal asked_issue asked_session asked_objective listed_activities : Act
  registered unregistered : Act
  began_step : (guidance : Bool) → Act
  changed : Change → Act
  named_activity asked_notice_body : (activity_key : Text) → Act
  created_activity : Text → Content → Act
  completed_issue : (issue_id state_id : Text) → Act
  ran_turn : Turn → Act

-- The answers; `none` is an exception or a rejected promise. `list_activities` gives the ids.
pub record GoalDeps : Type 0 where
  pub get_goal : List Act → Option (Option Goal)
  pub query_issue : List Act → Option IssueContext
  pub get_session : List Act → Option (Option SessionRecord)
  pub get_objective : List Act → Option (Option Text)
  pub list_activities : List Act → Option (List Text)
  pub take_step : List Act → Bool → Option StepResult
  pub change : List Act → Change → Option Goal
  pub activity_id : List Act → Text → Option Text
  pub notice_body : List Act → Text → Option (Option Text)
  pub post_activity : List Act → Text → Content → Option (Unit {0})
  pub complete_issue : List Act → Text → Text → Option (Unit {0})
  pub run_turn : List Act → Turn → Option TurnOutcome
  pub is_aborted : List Act → Signal → Bool
  pub is_shutting_down : List Act → Bool
  pub is_closing : List Act → Bool
  pub queue_size : List Act → ℕ
  pub decimal : ℕ → Text
  pub json_parse : Text → Option Json
  pub runtime_name : Text
  pub label_id : Option Text
  pub max_steps : ℕ

abbrev pub Task : Type 0 → Type 0
Task A = List Act → Option A × List Act

abbrev pub go_on : {A B : Type 0} → Option A → List Act → (A → Task B) → Option B × List Act
go_on none log f = (none, log)
go_on (some a) log f = f a log

infixl 5 ◌>>=◌ ◌>>◌
abbrev pub ◌>>=◌ : {A B : Type 0} → Task A → (A → Task B) → Task B
m >>= f = λ log. go_on (m log).0 (m log).1 f

abbrev pub ◌>>◌ : {B : Type 0} → Task (Unit {0}) → Task B → Task B
m >> k = m >>= λ _. k

abbrev pub return : {A : Type 0} → A → Task A
return a = λ log. (some a, log)

abbrev pub throw : {A : Type 0} → Task A
throw = λ log. (none, log)

-- Something is asked, and answered.
abbrev pub ask : {A : Type 0} → (List Act → Option A) → Act → Task A
ask answer act = λ log. (answer log, act ∷ log)

-- What the server holds itself.
abbrev pub look : {A : Type 0} → (List Act → A) → Task A
look f = λ log. (some (f log), log)

abbrev pub throw_when : Bool → Task (Unit {0})
throw_when true = throw
throw_when false = return tt

-- `try`: whether it does not throw.
abbrev pub attempt : Task (Unit {0}) → Task Bool
attempt m = λ log. (some (is_some (m log).0), (m log).1)

module _ (deps : GoalDeps) where
  abbrev pub get_goal : Task (Option Goal)
  get_goal = ask deps.get_goal asked_goal

  abbrev pub change : Change → Task Goal
  change c = ask (λ log. deps.change log c) (changed c)

  -- `signal?.throwIfAborted()`
  abbrev pub throw_if_aborted : Signal → Task (Unit {0})
  throw_if_aborted signal = look (λ log. deps.is_aborted log signal) >>= throw_when

abbrev pub is_stopped_status : GoalStatus → Bool
is_stopped_status GoalStatus.stopped = true
is_stopped_status _ = false

-- `goal?.status === "stopped"`
abbrev pub is_stopped_goal : Option Goal → Bool
is_stopped_goal none = false
is_stopped_goal (some g) = is_stopped_status g.status

-- `(goal?.pendingGuidanceIds.length ?? 0) > 0`
abbrev pub has_guidance_ids : List Text → Bool
has_guidance_ids [] = false
has_guidance_ids (id ∷ ids) = true

abbrev pub has_guidance : Option Goal → Bool
has_guidance none = false
has_guidance (some g) = has_guidance_ids g.pending_guidance_ids

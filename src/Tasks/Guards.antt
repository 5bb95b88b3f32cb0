-- ===== src/Tasks/Guards.antt =====
-- src/server.ts: what a task of an autonomous goal has asked before it acts.
use linear_agent_bridge.Base.{
  ◌<◌, ◌≡◌, refl, ◌⊎◌, Bool, true, false, Option, none, some, List, [], ◌∷◌, Text, if◌then◌else◌,
}
use linear_agent_bridge.State.Types.{Goal}
use linear_agent_bridge.State.Goals.{completion_dispatch, is_active}
use linear_agent_bridge.State.Goals.Store.{started}
use linear_agent_bridge.Linear.Shapes.{IssueContext}
use linear_agent_bridge.Tasks.Calls.{
  Turn, Act, asked_goal, asked_issue, asked_session, asked_objective, listed_activities, registered,
  unregistered, began_step, changed, named_activity, asked_notice_body, created_activity,
  completed_issue, ran_turn, GoalDeps, Task, ◌>>=◌, go_on, throw_when, is_stopped_goal,
  is_stopped_status, has_guidance,
}

module _ (deps : GoalDeps) where
  -- Before the issue is moved: the issue was queried, and carried the label and was open; then the
  -- goal was read, and was neither stopped nor guided; and then the store let the completion be
  -- dispatched, with a goal that was neither stopped nor sent back to work.
  abbrev pub CompletionGuard : Text → List Act → Type 0
  CompletionGuard issue_id log =
      (rest : List Act) × (context : IssueContext) × (goal : Option Goal) × (dispatched : Goal)
      × (log ≡ changed completion_dispatch ∷ asked_goal ∷ asked_issue ∷ rest)
      × (deps.query_issue rest ≡ some context)
      × (context.issue_id ≡ issue_id)
      × (context.authorized ≡ true)
      × (context.already_completed ≡ false)
      × (deps.get_goal (asked_issue ∷ rest) ≡ some goal)
      × (is_stopped_goal goal ≡ false)
      × (has_guidance goal ≡ false)
      × (deps.change (asked_goal ∷ asked_issue ∷ rest) completion_dispatch ≡ some dispatched)
      × (is_stopped_status dispatched.status ≡ false)
      × (is_active dispatched.status ≡ false)

  -- What was asked since a step began.
  abbrev pub SinceBegin : List Act → List Act → Type 0
  SinceBegin log begun =
      (log ≡ asked_session ∷ begun) ⊎ (log ≡ asked_objective ∷ asked_session ∷ begun)

  -- Before a turn of the runtime: the goal was read, was active and had taken fewer steps since
  -- guidance than the configured maximum; then the issue was queried and carried the label; and then
  -- the store began the step that the turn is for.
  abbrev pub TurnGuard : Turn → List Act → Type 0
  TurnGuard turn log =
      (rest : List Act) × (g : Goal) × (context : IssueContext) × (guidance : Bool) × (begun : Goal)
      × SinceBegin log (began_step guidance ∷ asked_issue ∷ asked_goal ∷ rest)
      × (deps.get_goal rest ≡ some (some g))
      × (is_active g.status ≡ true)
      × (g.steps_since_guidance < deps.max_steps)
      × (deps.query_issue (asked_goal ∷ rest) ≡ some context)
      × (context.authorized ≡ true)
      × (deps.take_step (asked_issue ∷ asked_goal ∷ rest) guidance ≡ some (started begun))
      × (turn.step ≡ begun.step)

  -- Before an activity is created: the goal was just read, and was not stopped, and the service is not
  -- shutting down.
  abbrev pub ActivityGuard : List Act → Type 0
  ActivityGuard log =
      (rest : List Act) × (goal : Option Goal) × (log ≡ asked_goal ∷ rest)
      × (deps.get_goal rest ≡ some goal)
      × (is_stopped_goal goal ≡ false)
      × (deps.is_shutting_down log ≡ false)

  -- Everything that was done since the task began was asked for before.
  unfoldable pub IsGuarded : List Act → Type 0
  IsGuarded [] = Unit
  IsGuarded (completed_issue issue_id state_id ∷ log) = CompletionGuard issue_id log × IsGuarded log
  IsGuarded (ran_turn turn ∷ log) = TurnGuard turn log × IsGuarded log
  IsGuarded (created_activity id content ∷ log) = ActivityGuard log × IsGuarded log
  IsGuarded (asked_goal ∷ log) = IsGuarded log
  IsGuarded (asked_issue ∷ log) = IsGuarded log
  IsGuarded (asked_session ∷ log) = IsGuarded log
  IsGuarded (asked_objective ∷ log) = IsGuarded log
  IsGuarded (listed_activities ∷ log) = IsGuarded log
  IsGuarded (registered ∷ log) = IsGuarded log
  IsGuarded (unregistered ∷ log) = IsGuarded log
  IsGuarded (began_step guidance ∷ log) = IsGuarded log
  IsGuarded (changed c ∷ log) = IsGuarded log
  IsGuarded (named_activity key ∷ log) = IsGuarded log
  IsGuarded (asked_notice_body key ∷ log) = IsGuarded log

  -- A task keeps to the guards.
  abbrev pub Keeps : {A : Type 0} → Task A → Type 0
  Keeps m = (log : List Act) → IsGuarded log → IsGuarded (m log).1

  pub go_on-IsGuarded :
      {A B : Type 0} (o : Option A) (log : List Act) (f : A → Task B)
      → IsGuarded log
      → ((a : A) → o ≡ some a → IsGuarded (f a log).1)
      → IsGuarded (go_on o log f).1
  go_on-IsGuarded none log f h k = h
  go_on-IsGuarded (some a) log f h k = k a refl

  pub Keeps->>= :
      {A B : Type 0} (m : Task A) (f : A → Task B)
      → ((log : List Act) → IsGuarded log → IsGuarded (m log).1)
      → ((a : A) (log : List Act) → IsGuarded log → IsGuarded (f a log).1)
      → (log : List Act) → IsGuarded log
      → IsGuarded ((m >>= f) log).1
  Keeps->>= m f h k log g =
      go_on-IsGuarded (m log).0 (m log).1 f (h log g) (λ a e. k a (m log).1 (h log g))

  pub if-IsGuarded :
      {A : Type 0} (b : Bool) (x y : Task A) (log : List Act)
      → (b ≡ true → IsGuarded (x log).1)
      → (b ≡ false → IsGuarded (y log).1)
      → IsGuarded ((if b then x else y) log).1
  if-IsGuarded true x y log h k = h refl
  if-IsGuarded false x y log h k = k refl

  pub throw_when-IsGuarded :
      (b : Bool) (log : List Act) → IsGuarded log → IsGuarded (throw_when b log).1
  throw_when-IsGuarded true log h = h
  throw_when-IsGuarded false log h = h

  -- After a test of a signal.
  pub throw_when-then :
      {B : Type 0} (b : Bool) (k : Task B) (log : List Act)
      → IsGuarded log
      → (b ≡ false → IsGuarded (k log).1)
      → IsGuarded ((throw_when b >>= λ _. k) log).1
  throw_when-then true k log h f = h
  throw_when-then false k log h f = f refl

-- ===== src/State/Goals/History.antt =====
-- Histories of calls on the autonomous goals of src/state/store.ts, with faults and crashes.
use linear_agent_bridge.Base.{◌≡◌, Bool, Option, none, some, List, [], ◌∷◌, Text, lookup}
use linear_agent_bridge.Base.Dicts.{Distinct}
use linear_agent_bridge.State.Types.{Goal, State, Env}
use linear_agent_bridge.State.Disk.{Fault, LockFault, mutate, mutate-Runs}
use linear_agent_bridge.State.Goals.{Change}
use linear_agent_bridge.State.Goals.Store.{
  transition_goal, begin_step, stop_goal, Preparation, prepare_goal, get_or_create_goal_activity_id,
}
use linear_agent_bridge.State.Goals.Moves.{IsGoal}
use linear_agent_bridge.State.Goals.Calls.{
  Transit, Tallies, Tallies-start, Any, transition_goal-Runs, begin_step-Runs, stop_goal-Runs,
  get_or_create_goal_activity_id-Runs,
}
use linear_agent_bridge.State.Goals.Preparing.{Prepares, prepare_goal-Runs}

-- A call with its arguments.
pub data GoalOperation : Type 0 where
  prepares : Preparation → GoalOperation
  transitions : (session : Text) (c : Change) → GoalOperation
  steps : (session : Text) (guidance_step : Bool) → GoalOperation
  stops : (session : Text) → GoalOperation
  names_activity : (session activity_key fresh : Text) → GoalOperation

-- The process and its surroundings, the call, and what fails.
pub record GoalCall : Type 0 where
  pub env : Env
  pub operation : GoalOperation
  pub lock : LockFault
  pub faults : List Fault

unfoldable pub run_goal_operation : GoalCall → GoalOperation → State → State
unfolding mutate
run_goal_operation c (prepares p) d = (mutate c.lock c.faults (λ s. prepare_goal c.env s p) d).1
run_goal_operation c (transitions session change) d =
    (mutate c.lock c.faults (λ s. transition_goal c.env s session change) d).1
run_goal_operation c (steps session guidance_step) d =
    (mutate c.lock c.faults (λ s. begin_step c.env s session guidance_step) d).1
run_goal_operation c (stops session) d =
    (mutate c.lock c.faults (λ s. stop_goal c.env s session) d).1
run_goal_operation c (names_activity session activity_key fresh) d =
    (mutate c.lock c.faults (λ s. get_or_create_goal_activity_id c.env s session activity_key fresh)
      d).1

unfoldable pub goal_call : GoalCall → State → State
unfolding run_goal_operation
goal_call c d = run_goal_operation c c.operation d

unfoldable pub goal_history : List GoalCall → State → State
unfolding goal_call
goal_history [] d = d
goal_history (c ∷ cs) d = goal_history cs (goal_call c d)

-- How a call begins a goal of a session, if it does.
abbrev pub Begins : State → GoalOperation → Text → Goal → Type 0
Begins d (prepares p) session g = Prepares d p session g
Begins d _ session g = ⊥

run_goal_operation-Tallies :
    (c : GoalCall) (op : GoalOperation) (d : State)
    → Distinct d.autonomous_goals
    → Tallies (Begins d op) d (run_goal_operation c op d)
unfolding run_goal_operation
run_goal_operation-Tallies c (prepares p) d distinct =
    let Begun : Text → Goal → Type 0 = Begins d (prepares p) in
    (mutate-Runs (Tallies Begun d) Any c.lock c.faults _ d (Tallies-start Begun d distinct)
      (prepare_goal-Runs c.env d distinct p)).0
run_goal_operation-Tallies c (transitions session change) d distinct =
    let Begun : Text → Goal → Type 0 = Begins d (transitions session change) in
    (mutate-Runs (Tallies Begun d) Any c.lock c.faults _ d (Tallies-start Begun d distinct)
      (transition_goal-Runs Begun c.env d distinct session change)).0
run_goal_operation-Tallies c (steps session guidance_step) d distinct =
    let Begun : Text → Goal → Type 0 = Begins d (steps session guidance_step) in
    (mutate-Runs (Tallies Begun d) Any c.lock c.faults _ d (Tallies-start Begun d distinct)
      (begin_step-Runs Begun c.env d distinct session guidance_step)).0
run_goal_operation-Tallies c (stops session) d distinct =
    let Begun : Text → Goal → Type 0 = Begins d (stops session) in
    (mutate-Runs (Tallies Begun d) Any c.lock c.faults _ d (Tallies-start Begun d distinct)
      (stop_goal-Runs Begun c.env d distinct session)).0
run_goal_operation-Tallies c (names_activity session activity_key fresh) d distinct =
    let Begun : Text → Goal → Type 0 = Begins d (names_activity session activity_key fresh) in
    (mutate-Runs (Tallies Begun d) Any c.lock c.faults _ d (Tallies-start Begun d distinct)
      (get_or_create_goal_activity_id-Runs Begun c.env d distinct session activity_key fresh)).0

pub goal_call-Tallies :
    (c : GoalCall) (d : State)
    → Distinct d.autonomous_goals
    → Tallies (Begins d c.operation) d (goal_call c d)
unfolding goal_call
goal_call-Tallies c d distinct = run_goal_operation-Tallies c c.operation d distinct

-- The goal, if there is one, is well formed.
abbrev pub IsGoalAt : Option Goal → Type 0
IsGoalAt none = Unit {0}
IsGoalAt (some g) = IsGoal g

IsGoalAt-Transit :
    (Begun : Goal → Type 0) (o o' : Option Goal) → Transit Begun o o' → IsGoalAt o → IsGoalAt o'
IsGoalAt-Transit Begun o none t h = tt
IsGoalAt-Transit Begun none (some g) t h = t.1
IsGoalAt-Transit Begun (some g) (some g') t h = t.goal h

-- Every goal on the disk is well formed, and no session has two.
abbrev pub GoalsInv : State → Type 0
GoalsInv d = Distinct d.autonomous_goals × ((k : Text) → IsGoalAt (lookup k d.autonomous_goals))

goal_call-GoalsInv : (c : GoalCall) (d : State) → GoalsInv d → GoalsInv (goal_call c d)
goal_call-GoalsInv c d inv =
    let t = goal_call-Tallies c d inv.0 in
    (
      t.0,
      λ k.
          IsGoalAt-Transit (Begins d c.operation k) (lookup k d.autonomous_goals)
            (lookup k (goal_call c d).autonomous_goals) (t.1 k) (inv.1 k),
    )

goal_history_from-GoalsInv :
    (cs : List GoalCall) (d : State) → GoalsInv d → GoalsInv (goal_history cs d)
unfolding goal_history
goal_history_from-GoalsInv [] d inv = inv
goal_history_from-GoalsInv (c ∷ cs) d inv =
    goal_history_from-GoalsInv cs (goal_call c d) (goal_call-GoalsInv c d inv)

no_goals-GoalsInv : (d : State) → d.autonomous_goals ≡ [] → GoalsInv d
unfolding lookup
no_goals-GoalsInv d e = rw e (tt, λ k. tt)

-- After any history of calls on goals, faults and crashes included, on a disk that began without
-- goals, whatever claims, stop fences and receipts it holds: a goal has an owner exactly while its
-- step runs, a goal that is over waits for no guidance, and no goal has more than 10000 pending
-- guidance ids.
pub goal_history-GoalsInv :
    (cs : List GoalCall) (d : State) → d.autonomous_goals ≡ [] → GoalsInv (goal_history cs d)
goal_history-GoalsInv cs d e = goal_history_from-GoalsInv cs d (no_goals-GoalsInv d e)

-- ===== src/State/Tests/Goals.antt =====
-- A goal that is prepared, worked on for one step, and taken to completion, for src/state/store.ts.
use linear_agent_bridge.Base.{
  ◌≡◌, refl, false, Option, none, some, List, [], ◌∷◌, Text, text, lookup, put, text_dec, sort_by,
  select,
}
use linear_agent_bridge.State.Types.{ClaimStatus, GoalStatus, Goal, State, empty_state}
use linear_agent_bridge.Recovery.Types.{IngressAction, NoticeKind}
use linear_agent_bridge.State.Steps.{Steps, done}
use linear_agent_bridge.State.Disk.{Fault, after, before, no_fault}
use linear_agent_bridge.State.Prune.{prune}
use linear_agent_bridge.State.Goals.{
  Change, activate, block, completion, completion_dispatch, complete, continuation,
  begin_completion_dispatch,
}
use linear_agent_bridge.State.Goals.Store.{
  Preparation, prepare_goal, waiting_guidance, begin_step, transition_goal,
}
use linear_agent_bridge.State.Goals.Moves.{Returns}
use linear_agent_bridge.State.Goals.Changes.{Boundary, begin_completion_dispatch-Boundary}
use linear_agent_bridge.State.Goals.History.{
  GoalOperation, prepares, transitions, steps, GoalCall, goal_history, GoalsInv,
  goal_history-GoalsInv,
}
use linear_agent_bridge.State.Tests.{env}

abbrev goal : GoalStatus → Option Text → List Text → Goal
goal status owner guidance = record {
  linear_session_id = text "session";
  issue_id = text "issue";
  issue_identifier = none;
  runtime = text "claude";
  objective_envelope = none;
  status = status;
  step = 1;
  steps_since_guidance = 1;
  created_at = 90;
  updated_at = 90;
  running_owner_id = owner;
  completion_state_id = none;
  completion_activity_key = none;
  completion_dispatch_started_at = none;
  pending_notice = none;
  pending_guidance_ids = guidance;
  activity_ids = [];
}

abbrev preparation : Preparation
preparation = record {
  linear_session_id = text "session";
  issue_id = text "issue";
  issue_identifier = none;
  runtime = text "claude";
  opening_recovery_sequence = 1;
  objective = text "fix it";
}

abbrev goal_call_of : Text → GoalOperation → List Fault → GoalCall
goal_call_of owner_id op faults = record {
  env = env owner_id;
  operation = op;
  lock = no_fault;
  faults = faults;
}

-- The goal is prepared, activated, worked on and completed; a write fails before its rename.
abbrev goal_calls : List GoalCall
goal_calls =
    goal_call_of (text "one") (prepares preparation) []
    ∷ goal_call_of (text "one") (transitions (text "session") activate) (after ∷ [])
    ∷ goal_call_of (text "one") (steps (text "session") false) []
    ∷ goal_call_of (text "two") (transitions (text "session") continuation) []
    ∷ goal_call_of (text "one")
        (transitions (text "session") (completion (text "done") (text "key") (text "body"))) []
    ∷ goal_call_of (text "one") (transitions (text "session") completion_dispatch) (before ∷ [])
    ∷ []

abbrev status_in : Steps Goal → Option GoalStatus
status_in (done g) = some g.status
status_in _ = none

abbrev status_of : Option Goal → Option GoalStatus
status_of none = none
status_of (some g) = some g.status

completing-reached :
    status_of (lookup (text "session") (goal_history goal_calls empty_state).autonomous_goals)
    ≡ some GoalStatus.completing
unfolding goal_history lookup put text_dec prune waiting_guidance prepare_goal begin_step
    transition_goal sort_by select
completing-reached = refl

-- A disk without goals, on which a prompt waits that came after the event that opens the goal.
abbrev prompted_disk : State
prompted_disk = record empty_state {
  claims =
      (
        text "prompt",
        record {
          execution_id = text "prompt";
          webhook_id = text "w2";
          linear_session_id = text "session";
          action = IngressAction.prompted;
          status = ClaimStatus.claimed;
          owner_id = text "one";
          claimed_at = 90;
          updated_at = 90;
          recovery_sequence = some 2;
          dispatch_started_at = none;
          activity_ids = [];
        },
      )
      ∷ [];
}

abbrev guidance_of : Option Goal → List Text
guidance_of none = []
guidance_of (some g) = g.pending_guidance_ids

guidance-waits :
    guidance_of (lookup (text "session") (goal_history goal_calls prompted_disk).autonomous_goals)
    ≡ text "prompt" ∷ []
unfolding goal_history lookup put text_dec prune waiting_guidance prepare_goal begin_step
    transition_goal sort_by select
guidance-waits = refl

goal_history-GoalsInv_example : GoalsInv (goal_history goal_calls prompted_disk)
goal_history-GoalsInv_example = goal_history-GoalsInv goal_calls prompted_disk refl

abbrev completing_call : GoalCall
completing_call = goal_call_of (text "one") (transitions (text "session") complete) []

-- A completion that is ready to be dispatched when guidance has come.
abbrev ready : Goal
ready = record (goal GoalStatus.completing none (text "guidance" ∷ [])) {
  completion_state_id = some (text "done");
  pending_notice = some (record {
    kind = NoticeKind.completion;
    activity_key = text "key";
    envelope = record { key_id = []; nonce = []; ciphertext = []; tag = [] };
  });
}

ready_turned_back :
    status_in (begin_completion_dispatch (env (text "one")) ready) ≡ some GoalStatus.active
unfolding begin_completion_dispatch
ready_turned_back = refl

begin_completion_dispatch-Boundary_example :
    Returns (Boundary (env (text "one")) ready) (begin_completion_dispatch (env (text "one")) ready)
begin_completion_dispatch-Boundary_example =
    begin_completion_dispatch-Boundary (env (text "one")) ready

-- Another process asks the user while the step runs.
abbrev asks_user : Change
asks_user = block (text "key") (text "body") none

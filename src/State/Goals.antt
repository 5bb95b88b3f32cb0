-- ===== src/State/Goals.antt =====
-- The autonomous goals of src/state/store.ts: what each call does to one goal. A goal is an issue
-- that the agent works on in steps; a process owns the step that runs, and guidance is the prompts
-- that arrived meanwhile. The children put the calls on the state and say what they keep.
pub mod Store
pub mod Moves
pub mod Changes
pub mod Ledger
pub mod Calls
pub mod Preparing
pub mod History
use linear_agent_bridge.Base.{
  ◌+◌, Bool, true, false, not, ◌&&◌, ◌||◌, Option, none, some, List, [], ◌∷◌, Text, same, any,
  if◌then◌else◌, is_some,
}
use linear_agent_bridge.Recovery.Types.{NoticeKind}
use linear_agent_bridge.State.Types.{GoalStatus, PendingNotice, Goal, Env, Error}
use linear_agent_bridge.State.Steps.{Steps, done, throw_if, or_throw, ◌>>=◌, ◌>>◌}
use linear_agent_bridge.State.Checks.{
  is_final, validate_identifier, max_identifier_length, max_execution_id_length,
  max_activity_key_length,
}

abbrev pub is_active : GoalStatus → Bool
is_active GoalStatus.active = true
is_active _ = false

abbrev pub is_authorizing : GoalStatus → Bool
is_authorizing GoalStatus.authorizing = true
is_authorizing _ = false

abbrev pub is_running : GoalStatus → Bool
is_running GoalStatus.running = true
is_running _ = false

abbrev pub is_blocked : GoalStatus → Bool
is_blocked GoalStatus.blocked = true
is_blocked _ = false

abbrev pub is_completing : GoalStatus → Bool
is_completing GoalStatus.completing = true
is_completing _ = false

abbrev pub is_completed : GoalStatus → Bool
is_completed GoalStatus.completed = true
is_completed _ = false

abbrev pub is_stopped : GoalStatus → Bool
is_stopped GoalStatus.stopped = true
is_stopped _ = false

abbrev pub is_declined : GoalStatus → Bool
is_declined GoalStatus.declined = true
is_declined _ = false

-- `indexOf` and `splice(index, 1)`: the first occurrence goes.
unfoldable pub remove_first : Text → List Text → List Text
remove_first id [] = []
remove_first id (x ∷ xs) = let rest = remove_first id xs in if same x id then xs else x ∷ rest

unfoldable pub take_guidance : Option Text → Goal → Steps Goal
unfolding remove_first
take_guidance none g = done g
take_guidance (some id) g = do
  throw_if (not (any (same id) g.pending_guidance_ids)) Error.guidance_not_pending
  done (record g { pending_guidance_ids = remove_first id g.pending_guidance_ids })

-- `sealAutonomousGoalNotice`
unfoldable pub seal_goal_notice : Env → Goal → NoticeKind → Text → Text → Steps PendingNotice
seal_goal_notice env g kind activity_key body = do
  vault ← or_throw env.vault Error.recovery_envelope
  envelope ←
      or_throw
        (vault.seal_notice
          (record {
            linear_session_id = g.linear_session_id;
            activity_key = activity_key;
            kind = kind;
          })
          body)
        Error.recovery_envelope
  done (record { kind = kind; activity_key = activity_key; envelope = envelope })

abbrev pub is_owned_by : Env → Option Text → Bool
is_owned_by env none = false
is_owned_by env (some owner) = same owner env.owner_id

-- `assertOwnedRunningGoal`
unfoldable pub assert_owned_running : Env → Goal → Steps (Unit {0})
assert_owned_running env g =
    throw_if (not (is_running g.status && is_owned_by env g.running_owner_id)) Error.goal_not_owned

unfoldable pub activate_goal : Goal → Steps Goal
activate_goal g = do
  throw_if (not (is_authorizing g.status || is_active g.status)) Error.bad_goal_transition
  done (record g { status = GoalStatus.active })

unfoldable pub decline_goal : Goal → Steps Goal
decline_goal g = do
  throw_if (not (is_authorizing g.status || is_declined g.status)) Error.bad_goal_transition
  done (record g { status = GoalStatus.declined; pending_guidance_ids = [] })

unfoldable pub continue_goal : Env → Goal → Steps Goal
unfolding assert_owned_running
continue_goal env g = do
  assert_owned_running env g
  done (record g { status = GoalStatus.active; running_owner_id = none })

unfoldable pub block_goal : Env → Text → Text → Option Text → Goal → Steps Goal
unfolding take_guidance seal_goal_notice
block_goal env activity_key body guidance g = do
  throw_if (is_final g.status) Error.bad_goal_transition
  g' ← take_guidance guidance g
  notice ← seal_goal_notice env g NoticeKind.elicitation activity_key body
  done (record g' {
    status = GoalStatus.blocked;
    running_owner_id = none;
    completion_dispatch_started_at = none;
    pending_notice = some notice;
  })

-- What a goal that goes back to work forgets.
abbrev pub forget_completion : Goal → Goal
forget_completion g = record g {
  status = GoalStatus.active;
  pending_notice = none;
  completion_state_id = none;
  completion_activity_key = none;
  completion_dispatch_started_at = none;
}

unfoldable pub resume_goal : Option Text → Goal → Steps Goal
unfolding take_guidance
resume_goal guidance g = do
  throw_if (not (is_blocked g.status || (is_active g.status || is_completing g.status)))
      Error.bad_goal_transition
  g' ← take_guidance guidance g
  done (record (forget_completion g') { steps_since_guidance = 0 })

unfoldable pub begin_completion : Env → Text → Text → Text → Goal → Steps Goal
unfolding assert_owned_running seal_goal_notice
begin_completion env state_id activity_key body g = do
  assert_owned_running env g
  notice ← seal_goal_notice env g NoticeKind.completion activity_key body
  done (record g {
    status = GoalStatus.completing;
    completion_state_id = some state_id;
    completion_activity_key = some activity_key;
    running_owner_id = none;
    pending_notice = some notice;
  })

abbrev pub is_completion_notice : Option PendingNotice → Bool
is_completion_notice none = false
is_completion_notice (some n) = elim n.kind [
  | NoticeKind.elicitation ↦ false
  | NoticeKind.completion ↦ true
]

-- The last step before the issue is updated: guidance that came first sends the goal back to work.
abbrev pub cross_boundary : Env → Goal → List Text → Goal
cross_boundary env g [] = record g { completion_dispatch_started_at = some env.now }
cross_boundary env g (id ∷ ids) = forget_completion g

unfoldable pub begin_completion_dispatch : Env → Goal → Steps Goal
begin_completion_dispatch env g =
    if is_stopped g.status
    then done g
    else throw_if
        (not (
          is_completing g.status
          && (is_some g.completion_state_id && is_completion_notice g.pending_notice)))
        Error.bad_goal_transition
      >> done (cross_boundary env g g.pending_guidance_ids)

unfoldable pub complete_goal : Goal → Steps Goal
complete_goal g = do
  throw_if (not (is_completing g.status || is_completed g.status)) Error.bad_goal_transition
  done (record g {
    status = GoalStatus.completed;
    pending_notice = none;
    running_owner_id = none;
    pending_guidance_ids = [];
  })

abbrev pub is_notice_of : Text → Option PendingNotice → Bool
is_notice_of activity_key none = false
is_notice_of activity_key (some n) = same n.activity_key activity_key

unfoldable pub clear_notice : Text → Goal → Steps Goal
clear_notice activity_key g =
    done
      (if is_notice_of activity_key g.pending_notice then record g { pending_notice = none } else g)

-- A call of `transitionAutonomousGoal`, with the arguments besides the session.
pub data Change : Type 0 where
  activate decline continuation completion_dispatch complete : Change
  block : (activity_key body : Text) (guidance : Option Text) → Change
  resume : (guidance : Option Text) → Change
  completion : (state_id activity_key body : Text) → Change
  notice_sent : (activity_key : Text) → Change

abbrev pub validate_guidance : Option Text → Steps (Unit {0})
validate_guidance none = done tt
validate_guidance (some id) = validate_identifier id max_execution_id_length

-- The checks of the arguments, made before the lock is taken.
unfoldable pub validate_change : Change → Steps (Unit {0})
unfolding validate_identifier
validate_change (block activity_key body guidance) =
    validate_identifier activity_key max_activity_key_length >> validate_guidance guidance
validate_change (resume guidance) = validate_guidance guidance
validate_change (completion state_id activity_key body) =
    validate_identifier state_id max_identifier_length
    >> validate_identifier activity_key max_activity_key_length
validate_change (notice_sent activity_key) =
    validate_identifier activity_key max_activity_key_length
validate_change _ = done tt

unfoldable pub change_goal : Env → Change → Goal → Steps Goal
unfolding activate_goal decline_goal continue_goal block_goal resume_goal begin_completion
    begin_completion_dispatch complete_goal clear_notice
change_goal env activate g = activate_goal g
change_goal env decline g = decline_goal g
change_goal env continuation g = continue_goal env g
change_goal env (block activity_key body guidance) g = block_goal env activity_key body guidance g
change_goal env (resume guidance) g = resume_goal guidance g
change_goal env (completion state_id activity_key body) g =
    begin_completion env state_id activity_key body g
change_goal env completion_dispatch g = begin_completion_dispatch env g
change_goal env complete g = complete_goal g
change_goal env (notice_sent activity_key) g = clear_notice activity_key g

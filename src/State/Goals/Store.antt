-- ===== src/State/Goals/Store.antt =====
-- The calls on autonomous goals of src/state/store.ts, on the state that they read and write.
use linear_agent_bridge.Base.{
  ℕ, ◌+◌, Bool, true, false, not, ◌&&◌, Option, none, some, List, [], ◌∷◌, Text, length, same,
  lookup, put, map, values, keys, select, sort_by, ltb, leb, if◌then◌else◌, get_or,
}
use linear_agent_bridge.Recovery.Types.{Envelope}
use linear_agent_bridge.State.Types.{GoalStatus, Claim, Session, Goal, Fence, State, Env, Error}
use linear_agent_bridge.State.Steps.{Steps, done, write, throw_if, or_throw, ◌>>=◌, ◌>>◌}
use linear_agent_bridge.State.Checks.{
  is_final, is_safe, is_created, at_most, sign_of, validate_identifier, max_identifier_length,
  max_activity_key_length, max_activity_ids_per_claim,
}
use linear_agent_bridge.State.Prune.{prune, is_finished}
use linear_agent_bridge.State.Goals.{Change, validate_change, change_goal, is_active}
use Prim.Native.Nat.{compare, Ordering}

abbrev pub put_goal : Text → Goal → State → State
put_goal session g s = record s { autonomous_goals = put session g s.autonomous_goals }

-- `transitionAutonomousGoal`
unfoldable pub transition_goal : Env → State → Text → Change → Steps Goal
unfolding validate_change validate_identifier change_goal
transition_goal env s session c = do
  validate_change c
  validate_identifier session max_identifier_length
  g ← or_throw (lookup session s.autonomous_goals) Error.no_goal
  g' ← change_goal env c g
  let g'' = record g' { updated_at = env.now }
  write (prune env (put_goal session g'' s)) (done g'')

-- `AutonomousGoalStepResult`
pub data StepResult : Type 0 where
  started : Goal → StepResult
  guidance_pending : Goal → StepResult
  not_active : Option Goal → StepResult

abbrev pub has_entries : List Text → Bool
has_entries [] = false
has_entries (x ∷ xs) = true

abbrev pub start_step : Env → Goal → Goal
start_step env g = record g {
  status = GoalStatus.running;
  step = g.step + 1;
  steps_since_guidance = g.steps_since_guidance + 1;
  running_owner_id = some env.owner_id;
  updated_at = env.now;
}

abbrev pub begin_step_of : Env → State → Text → Bool → Option Goal → Steps StepResult
begin_step_of env s session guidance_step none = done (not_active none)
begin_step_of env s session guidance_step (some g) =
    if not (is_active g.status)
    then done (not_active (some g))
    else if not guidance_step && has_entries g.pending_guidance_ids
    then done (guidance_pending g)
    else write (put_goal session (start_step env g) s) (done (started (start_step env g)))

-- `beginAutonomousGoalStepInState`
unfoldable pub begin_step : Env → State → Text → Bool → Steps StepResult
unfolding validate_identifier
begin_step env s session guidance_step = do
  validate_identifier session max_identifier_length
  begin_step_of env s session guidance_step (lookup session s.autonomous_goals)

-- `stopAutonomousGoalInState` on a goal that it changes.
abbrev pub stopped_goal : Env → Goal → Goal
stopped_goal env g = record g {
  status = GoalStatus.stopped;
  updated_at = env.now;
  running_owner_id = none;
  pending_notice = none;
  pending_guidance_ids = [];
}

abbrev pub stop_of : Env → State → Text → Option Goal → Steps (Option Goal)
stop_of env s session none = done none
stop_of env s session (some g) =
    if is_final g.status
    then done (some g)
    else write (put_goal session (stopped_goal env g) s) (done (some (stopped_goal env g)))

-- `stopAutonomousGoal`
unfoldable pub stop_goal : Env → State → Text → Steps (Option Goal)
unfolding validate_identifier
stop_goal env s session = do
  validate_identifier session max_identifier_length
  stop_of env s session (lookup session s.autonomous_goals)

-- The input of `prepareAutonomousGoal`.
pub record Preparation : Type 0 where
  pub linear_session_id : Text
  pub issue_id : Text
  pub issue_identifier : Option Text
  pub runtime : Text
  pub opening_recovery_sequence : ℕ
  pub objective : Text

abbrev pub validate_optional : Option Text → Steps (Unit {0})
validate_optional none = done tt
validate_optional (some t) = validate_identifier t max_identifier_length

abbrev pub is_sequence_after : ℕ → Option ℕ → Bool
is_sequence_after opening none = false
is_sequence_after opening (some n) = is_safe n && ltb opening n

-- A claim of the session for a prompt that came after the goal's opening event.
abbrev pub is_waiting_guidance : Preparation → Claim → Bool
is_waiting_guidance p c =
    same c.linear_session_id p.linear_session_id
    && (not (is_created c.action)
        && (not (is_finished c.status)
            && is_sequence_after p.opening_recovery_sequence c.recovery_sequence))

-- In recovery order, and then by execution id.
abbrev pub is_earlier_guidance : Env → Claim → Claim → Bool
is_earlier_guidance env left right =
    elim (compare (get_or left.recovery_sequence 0) (get_or right.recovery_sequence 0)) [
      | Ordering.lt ↦ true
      | Ordering.eq ↦ at_most (sign_of (env.locale_compare left.execution_id right.execution_id))
      | Ordering.gt ↦ false
    ]

unfoldable pub waiting_guidance : Env → State → Preparation → List Claim
waiting_guidance env s p =
    sort_by (is_earlier_guidance env) (select (is_waiting_guidance p) (values s.claims))

-- A stop that came after the opening event ends the goal before it begins.
abbrev pub is_stopped_before : Preparation → Option Fence → Bool
is_stopped_before p none = false
is_stopped_before p (some f) = ltb p.opening_recovery_sequence f.sequence

abbrev pub pending_guidance : Env → State → Preparation → Bool → List Text
pending_guidance env s p stopped =
    if stopped then [] else map (λ c. c.execution_id) (waiting_guidance env s p)

-- The session is marked as watched from now on, if it was not.
abbrev pub watch_session : Env → Option Session → Session
watch_session env none = record {
  initialized_at = some env.now;
  processed_through = none;
  stop_fence = none;
  updated_at = env.now;
  stalled_warning = none;
}
watch_session env (some session) = record session {
  initialized_at = some (get_or session.initialized_at env.now);
  updated_at = env.now;
}

abbrev pub is_same_goal : Preparation → Goal → Bool
is_same_goal p g = same g.issue_id p.issue_id && same g.runtime p.runtime

abbrev pub new_goal : Env → Preparation → Envelope → Bool → List Text → Goal
new_goal env p objective stopped guidance = record {
  linear_session_id = p.linear_session_id;
  issue_id = p.issue_id;
  issue_identifier = p.issue_identifier;
  runtime = p.runtime;
  objective_envelope = some objective;
  status = if stopped then GoalStatus.stopped else GoalStatus.authorizing;
  step = 0;
  steps_since_guidance = 0;
  created_at = env.now;
  updated_at = env.now;
  running_owner_id = none;
  completion_state_id = none;
  completion_activity_key = none;
  completion_dispatch_started_at = none;
  pending_notice = none;
  pending_guidance_ids = guidance;
  activity_ids = [];
}

abbrev pub prepare_new : Env → State → Preparation → Steps Goal
prepare_new env s p = do
  vault ← or_throw env.vault Error.recovery_envelope
  let stopped = is_stopped_before p (lookup p.linear_session_id s.recovery_stop_fences)
  let guidance = pending_guidance env s p stopped
  throw_if (ltb max_activity_ids_per_claim (length guidance)) Error.too_many_entries
  objective ←
      or_throw
        (vault.seal_objective
          (record { linear_session_id = p.linear_session_id; issue_id = p.issue_id }) p.objective)
        Error.recovery_envelope
  let g = new_goal env p objective stopped guidance
  let sessions = s.reconciliation_sessions
  let s' = record (put_goal p.linear_session_id g s) {
    reconciliation_sessions =
        put p.linear_session_id (watch_session env (lookup p.linear_session_id sessions)) sessions;
  }
  write (prune env s') (done g)

abbrev pub prepare_of : Env → State → Preparation → Option Goal → Steps Goal
prepare_of env s p none = prepare_new env s p
prepare_of env s p (some g) = throw_if (not (is_same_goal p g)) Error.goal_mismatch >> done g

-- `prepareAutonomousGoal`
unfoldable pub prepare_goal : Env → State → Preparation → Steps Goal
unfolding validate_identifier waiting_guidance
prepare_goal env s p = do
  validate_identifier p.linear_session_id max_identifier_length
  validate_identifier p.issue_id max_identifier_length
  validate_identifier p.runtime max_identifier_length
  validate_optional p.issue_identifier
  throw_if (not (is_safe p.opening_recovery_sequence && ltb 0 p.opening_recovery_sequence))
      Error.recovery_envelope
  prepare_of env s p (lookup p.linear_session_id s.autonomous_goals)

abbrev pub goal_activity_id : Env → State → Text → Goal → Text → Text → Option Text → Steps Text
goal_activity_id env s session g activity_key fresh (some existing) = done existing
goal_activity_id env s session g activity_key fresh none =
    throw_if (leb max_activity_ids_per_claim (length (keys g.activity_ids))) Error.too_many_entries
    >> write
        (put_goal session
          (record g { activity_ids = put activity_key fresh g.activity_ids; updated_at = env.now })
          s)
        (done fresh)

-- `getOrCreateAutonomousGoalActivityId`; `fresh` is the `randomUUID()` of the call.
unfoldable pub get_or_create_goal_activity_id : Env → State → Text → Text → Text → Steps Text
unfolding validate_identifier
get_or_create_goal_activity_id env s session activity_key fresh = do
  validate_identifier session max_identifier_length
  validate_identifier activity_key max_activity_key_length
  g ← or_throw (lookup session s.autonomous_goals) Error.no_goal
  goal_activity_id env s session g activity_key fresh (lookup activity_key g.activity_ids)

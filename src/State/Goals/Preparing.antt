-- ===== src/State/Goals/Preparing.antt =====
-- `prepareAutonomousGoal` of src/state/store.ts begins a goal, and the calls on goals together.
use linear_agent_bridge.Base.{
  ℕ, ◌≡◌, ◌<◌, ◌≤◌, refl, sym, subst, Bool, true, false, not, ◌&&◌, Option, none, some, Text,
  length, if◌then◌else◌, lookup, ltb, arith,
}
use linear_agent_bridge.Base.Dicts.{Distinct}
use linear_agent_bridge.Recovery.Types.{Envelope}
use linear_agent_bridge.State.Types.{GoalStatus, Goal, Fence, State, Env, Error}
use linear_agent_bridge.State.Steps.{done, Runs, Runs-Quiet, Runs-throw_if, Runs-or_throw, Quiet}
use linear_agent_bridge.State.Checks.{
  is_safe, validate_identifier, validate_identifier-Quiet, max_identifier_length,
  max_activity_ids_per_claim,
}
use linear_agent_bridge.State.Goals.Store.{
  Preparation, validate_optional, is_same_goal, is_stopped_before, pending_guidance, new_goal,
  prepare_new, prepare_of, prepare_goal,
}
use linear_agent_bridge.State.Goals.Moves.{IsGoal}
use linear_agent_bridge.State.Goals.Calls.{Transit, Tallies, Any, put_goal-Tallies, prune-Tallies}

validate_optional-Quiet : (o : Option Text) → Quiet (validate_optional o)
validate_optional-Quiet none = tt
validate_optional-Quiet (some t) = validate_identifier-Quiet t max_identifier_length

-- The status with which a goal begins, from the session's stop fence: `stopped` exactly when the
-- fence comes after the event that opens the goal.
abbrev pub BeginsAt : ℕ → Option Fence → GoalStatus → Type 0
BeginsAt opening none status = status ≡ GoalStatus.authorizing
BeginsAt opening (some fence) status =
    (opening < fence.sequence → status ≡ GoalStatus.stopped)
    × (fence.sequence ≤ opening → status ≡ GoalStatus.authorizing)

-- A preparation begins a goal of its own session only.
abbrev pub Prepares : State → Preparation → Text → Goal → Type 0
Prepares d p session g =
    (session ≡ p.linear_session_id)
    × (g.issue_id ≡ p.issue_id)
    × (g.runtime ≡ p.runtime)
    × BeginsAt p.opening_recovery_sequence (lookup session d.recovery_stop_fences) g.status

stopped-BeginsAt :
    (p : Preparation) (o : Option Fence)
    → BeginsAt p.opening_recovery_sequence o
        (if is_stopped_before p o then GoalStatus.stopped else GoalStatus.authorizing)
stopped-BeginsAt p none = refl
stopped-BeginsAt p (some fence) = (λ h. ground (arith, h), λ h. ground (arith, h))

module _ (env : Env) (d : State) (distinct : Distinct d.autonomous_goals) (p : Preparation) where
  new_goal-IsGoal :
      (e : Envelope) (stopped : Bool)
      → ltb max_activity_ids_per_claim (length (pending_guidance env d p stopped)) ≡ false
      → IsGoal (new_goal env p e stopped (pending_guidance env d p stopped))
  new_goal-IsGoal e true h = record { owned = refl; over = λ x. refl; bound = omega arith }
  new_goal-IsGoal e false h = record { owned = refl; over = λ x. cc; bound = ground (arith, h) }

  stopped_before : Bool
  stopped_before = is_stopped_before p (lookup p.linear_session_id d.recovery_stop_fences)

  prepare_new-Runs :
      lookup p.linear_session_id d.autonomous_goals ≡ none
      → Runs (Tallies (Prepares d p) d) Any d (prepare_new env d p)
  unfolding stopped_before
  prepare_new-Runs absent =
      Runs-or_throw (Tallies (Prepares d p) d) Any env.vault Error.recovery_envelope _ d λ vault _.
        Runs-throw_if (Tallies (Prepares d p) d) Any
          (ltb max_activity_ids_per_claim (length (pending_guidance env d p stopped_before)))
          Error.too_many_entries _ d
          λ h.
            Runs-or_throw (Tallies (Prepares d p) d) Any (vault.seal_objective _ p.objective)
              Error.recovery_envelope _ d
              λ e _. (
                prune-Tallies (Prepares d p) d distinct env _ (
                    put_goal-Tallies (Prepares d p) d distinct p.linear_session_id _ (
                      subst
                        (λ o. Transit (Prepares d p p.linear_session_id) o (
                          some (
                            new_goal env p e stopped_before
                              (pending_guidance env d p stopped_before))))
                        (sym absent)
                        (
                          (
                            refl,
                            refl,
                            refl,
                            stopped-BeginsAt p (lookup p.linear_session_id d.recovery_stop_fences),
                          ),
                          new_goal-IsGoal e stopped_before h,
                        ))),
                tt,
              )

  prepare_of-Runs :
      (o : Option Goal)
      → lookup p.linear_session_id d.autonomous_goals ≡ o
      → Runs (Tallies (Prepares d p) d) Any d (prepare_of env d p o)
  prepare_of-Runs none found = prepare_new-Runs found
  prepare_of-Runs (some g) found =
      Runs-throw_if (Tallies (Prepares d p) d) Any (not (is_same_goal p g)) Error.goal_mismatch
        (done g) d λ h. tt

  pub prepare_goal-Runs : Runs (Tallies (Prepares d p) d) Any d (prepare_goal env d p)
  unfolding prepare_goal
  prepare_goal-Runs =
      Runs-Quiet (Tallies (Prepares d p) d) Any
        (validate_identifier p.linear_session_id max_identifier_length) _ d
        (validate_identifier-Quiet p.linear_session_id max_identifier_length)
        λ _ _.
          Runs-Quiet (Tallies (Prepares d p) d) Any
            (validate_identifier p.issue_id max_identifier_length) _ d
            (validate_identifier-Quiet p.issue_id max_identifier_length)
            λ _ _.
              Runs-Quiet (Tallies (Prepares d p) d) Any
                (validate_identifier p.runtime max_identifier_length) _ d
                (validate_identifier-Quiet p.runtime max_identifier_length)
                λ _ _.
                  Runs-Quiet (Tallies (Prepares d p) d) Any (validate_optional p.issue_identifier) _
                    d (validate_optional-Quiet p.issue_identifier)
                    λ _ _.
                      Runs-throw_if (Tallies (Prepares d p) d) Any
                        (not (
                          is_safe p.opening_recovery_sequence && ltb 0 p.opening_recovery_sequence))
                        Error.recovery_envelope _ d
                        λ _. prepare_of-Runs (lookup p.linear_session_id d.autonomous_goals) refl

-- ===== src/State/Goals/Changes.antt =====
-- The calls of `transitionAutonomousGoal` in src/state/store.ts: each makes a move, only the owner
-- of a step ends it, and guidance that came first keeps a completion from being dispatched.
use linear_agent_bridge.Base.{
  ◌≡◌, ◌≢◌, refl, inl, inr, Bool, true, not, ◌&&◌, none, some, List, [], ◌∷◌, Text, arith,
  Bool-cases, is_some,
}
use linear_agent_bridge.State.Types.{GoalStatus, Goal, Env, Error}
use linear_agent_bridge.State.Steps.{done}
use linear_agent_bridge.State.Goals.{
  is_completing, is_stopped, is_completion_notice, cross_boundary, begin_completion_dispatch,
  is_notice_of, clear_notice, Change, activate, decline, continuation, completion_dispatch,
  complete, block, resume, completion, notice_sent, change_goal,
}
use linear_agent_bridge.State.Goals.Moves.{
  stay, return_to_work, Moved, Returns, Returns-throw_if, from, same_goal, is_completing-eq,
  activate_goal-Moved, decline_goal-Moved, continue_goal-Moved, block_goal-Moved, resume_goal-Moved,
  begin_completion-Moved, complete_goal-Moved,
}

-- A completion is dispatched only if no guidance waits; guidance sends the goal back to work and
-- stays pending.
pub record Boundary (env : Env) (g g' : Goal) : Type 0 where
  pub dispatched :
      g'.status ≡ GoalStatus.completing
      → (g.pending_guidance_ids ≡ [])
        × (g'.completion_dispatch_started_at ≡ some env.now)
        × (is_some g.completion_state_id ≡ true)
        × (is_completion_notice g.pending_notice ≡ true)
  pub turned_back :
      g.pending_guidance_ids ≢ []
      → g.status ≡ GoalStatus.completing
      → (g'.status ≡ GoalStatus.active)
        × (g'.completion_state_id ≡ none)
        × (g'.pending_guidance_ids ≡ g.pending_guidance_ids)

module _ (env : Env) (g : Goal) where
  is_ready : Bool
  is_ready =
      is_completing g.status
      && (is_some g.completion_state_id && is_completion_notice g.pending_notice)

  crossed-Boundary :
      (ids : List Text)
      → g.pending_guidance_ids ≡ ids
      → is_ready ≡ true
      → Boundary env g (cross_boundary env g ids)
  unfolding is_ready
  crossed-Boundary [] e h = record {
    dispatched = λ x. ground (arith, h, e);
    turned_back = λ ne. absurd (ne e);
  }
  crossed-Boundary (id ∷ ids) e h = record {
    dispatched = λ x. cc;
    turned_back = λ ne x. (refl, refl, refl);
  }

  crossed-Moved : (ids : List Text) → is_ready ≡ true → Moved g (cross_boundary env g ids)
  unfolding is_ready
  crossed-Moved [] h = record {
    edge = stay g.status;
    same = same_goal g;
    goal = λ i. record { owned = i.owned; over = i.over; bound = i.bound };
  }
  crossed-Moved (id ∷ ids) h = record {
    edge = from (is_completing-eq g.status (ground (arith, h))) return_to_work;
    same = same_goal g;
    goal = λ i. record { owned = ground (arith, i.owned, h); over = λ e. cc; bound = i.bound };
  }

  -- A goal that is still completing after `beginAutonomousGoalCompletionDispatch` had no pending
  -- guidance, a chosen final state and a completion notice, and got its dispatch marker now; a
  -- completing goal with pending guidance goes back to active, forgets the final state and keeps
  -- the guidance.
  pub begin_completion_dispatch-Boundary :
      Returns (Boundary env g) (begin_completion_dispatch env g)
  unfolding begin_completion_dispatch is_ready
  begin_completion_dispatch-Boundary = elim (Bool-cases (is_stopped g.status)) [
    | inl e ↦
        rw e
          (record { dispatched = λ x. ground (arith, e); turned_back = λ ne x. ground (arith, e) })
    | inr e ↦ rw e (
        Returns-throw_if (Boundary env g) (not is_ready) Error.bad_goal_transition
          (done (cross_boundary env g g.pending_guidance_ids))
          λ h. crossed-Boundary g.pending_guidance_ids refl (ground (arith, h)))
  ]

  begin_completion_dispatch-Moved : Returns (Moved g) (begin_completion_dispatch env g)
  unfolding begin_completion_dispatch is_ready
  begin_completion_dispatch-Moved = elim (Bool-cases (is_stopped g.status)) [
    | inl e ↦ rw e (record { edge = stay g.status; same = same_goal g; goal = λ i. i })
    | inr e ↦ rw e (
        Returns-throw_if (Moved g) (not is_ready) Error.bad_goal_transition
          (done (cross_boundary env g g.pending_guidance_ids))
          λ h. crossed-Moved g.pending_guidance_ids (ground (arith, h)))
  ]

  clear_notice-Moved : (activity_key : Text) → Returns (Moved g) (clear_notice activity_key g)
  unfolding clear_notice
  clear_notice-Moved activity_key = elim (Bool-cases (is_notice_of activity_key g.pending_notice)) [
    | inl e ↦ rw e (record {
      edge = stay g.status;
      same = same_goal g;
      goal = λ i. record { owned = i.owned; over = i.over; bound = i.bound };
    })
    | inr e ↦ rw e (record { edge = stay g.status; same = same_goal g; goal = λ i. i })
  ]

  -- Every call makes a move.
  pub change_goal-Moved : (c : Change) → Returns (Moved g) (change_goal env c g)
  unfolding change_goal
  change_goal-Moved activate = activate_goal-Moved g
  change_goal-Moved decline = decline_goal-Moved g
  change_goal-Moved continuation = continue_goal-Moved g env
  change_goal-Moved completion_dispatch = begin_completion_dispatch-Moved
  change_goal-Moved complete = complete_goal-Moved g
  change_goal-Moved (block activity_key body guidance) =
      block_goal-Moved g env activity_key body guidance
  change_goal-Moved (resume guidance) = resume_goal-Moved g guidance
  change_goal-Moved (completion state_id activity_key body) =
      begin_completion-Moved g env state_id activity_key body
  change_goal-Moved (notice_sent activity_key) = clear_notice-Moved activity_key

-- What another process may make of a goal whose step runs: every transition but these two throws.
abbrev pub Exclusive : Change → Goal → Goal → Type 0
Exclusive (block activity_key body guidance) g g' =
    (g'.status ≡ GoalStatus.blocked) × (g'.running_owner_id ≡ none)
Exclusive (notice_sent activity_key) g g' =
    (g'.status ≡ GoalStatus.running)
    × (g'.running_owner_id ≡ g.running_owner_id)
    × (g'.pending_guidance_ids ≡ g.pending_guidance_ids)
Exclusive _ g g' = ⊥

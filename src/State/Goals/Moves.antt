-- ===== src/State/Goals/Moves.antt =====
-- What a call may do to one autonomous goal of src/state/store.ts.
use linear_agent_bridge.Base.{
  ◌≤◌, ◌≡◌, refl, sym, subst, ◌⊎◌, inl, inr, Bool, true, false, not, ◌&&◌, ◌||◌, Option, none, some,
  List, [], ◌∷◌, Text, length, same, any, arith, is_some,
}
use linear_agent_bridge.Recovery.Types.{NoticeKind}
use linear_agent_bridge.State.Types.{GoalStatus, Goal, State, Env, Error}
use linear_agent_bridge.State.Steps.{
  Steps, done, throw, write, throw_if, or_throw, ◌>>=◌, ◌>>◌, Runs,
}
use linear_agent_bridge.State.Checks.{is_final, max_activity_ids_per_claim}
use linear_agent_bridge.State.Goals.{
  is_active, is_authorizing, is_running, is_blocked, is_completing, is_completed, is_declined,
  remove_first, take_guidance, seal_goal_notice, is_owned_by, assert_owned_running, activate_goal,
  decline_goal, continue_goal, block_goal, forget_completion, resume_goal, begin_completion,
  complete_goal,
}

-- The status of a goal before and after a call.
pub data Edge : GoalStatus → GoalStatus → Type 0 where
  stay : (a : GoalStatus) → Edge a a
  activation : Edge GoalStatus.authorizing GoalStatus.active
  refusal : Edge GoalStatus.authorizing GoalStatus.declined
  step : Edge GoalStatus.active GoalStatus.running
  rest : Edge GoalStatus.running GoalStatus.active
  blocking : (a : GoalStatus) → is_final a ≡ false → Edge a GoalStatus.blocked
  resumption : Edge GoalStatus.blocked GoalStatus.active
  conclusion : Edge GoalStatus.running GoalStatus.completing
  return_to_work : Edge GoalStatus.completing GoalStatus.active
  finish : Edge GoalStatus.completing GoalStatus.completed
  stop : (a : GoalStatus) → is_final a ≡ false → Edge a GoalStatus.stopped

-- A process owns the goal exactly while a step runs; guidance is bounded, and none waits for a
-- goal that is over.
pub record IsGoal (g : Goal) : Type 0 where
  pub owned : is_some g.running_owner_id ≡ is_running g.status
  pub over : is_final g.status ≡ true → g.pending_guidance_ids ≡ []
  pub bound : length g.pending_guidance_ids ≤ max_activity_ids_per_claim

-- What no call changes.
abbrev pub SameGoal : Goal → Goal → Type 0
SameGoal g g' =
    (g'.linear_session_id ≡ g.linear_session_id)
    × (g'.issue_id ≡ g.issue_id)
    × (g'.runtime ≡ g.runtime)
    × (g'.objective_envelope ≡ g.objective_envelope)
    × (g'.created_at ≡ g.created_at)

-- The goal makes a move, and is well formed after it if it was.
pub record Moved (g g' : Goal) : Type 0 where
  pub edge : Edge g.status g'.status
  pub same : SameGoal g g'
  pub goal : IsGoal g → IsGoal g'

-- A computation that writes nothing; what it returns satisfies `Q`.
abbrev pub Returns : {A : Type 0} → (A → Type 0) → Steps A → Type 0
Returns Q (done a) = Q a
Returns Q (throw e) = Unit {0}
Returns Q (write s k) = ⊥

pub Returns->>= :
    {A B : Type 0} (Q : A → Type 0) (R : B → Type 0) (m : Steps A) (f : A → Steps B)
    → Returns Q m
    → ((a : A) → Q a → Returns R (f a))
    → Returns R (m >>= f)
Returns->>= Q R (done a) f h k = k a h
Returns->>= Q R (throw e) f h k = tt
Returns->>= Q R (write s m) f h k = absurd h

pub Returns-any :
    {A : Type 0} (Q : A → Type 0) (m : Steps A) → Returns Q m → Returns (λ a. Unit {0}) m
Returns-any Q (done a) h = tt
Returns-any Q (throw e) h = tt
Returns-any Q (write s k) h = h

pub Returns-throw_if :
    {B : Type 0} (R : B → Type 0) (b : Bool) (e : Error) (k : Steps B)
    → (b ≡ false → Returns R k)
    → Returns R (throw_if b e >> k)
Returns-throw_if R true e k h = tt
Returns-throw_if R false e k h = h refl

pub Returns-or_throw :
    {A : Type 0} (o : Option A) (e : Error) → Returns (λ a. o ≡ some a) (or_throw o e)
Returns-or_throw none e = tt
Returns-or_throw (some a) e = refl

pub Runs-Returns :
    {A B : Type 0} (P : State → Type 0) (R : State → B → Type 0) (Q : A → Type 0) (m : Steps A)
    (f : A → Steps B) (d : State)
    → Returns Q m
    → ((a : A) → Q a → Runs P R d (f a))
    → Runs P R d (m >>= f)
Runs-Returns P R Q (done a) f d h k = k a h
Runs-Returns P R Q (throw e) f d h k = tt
Runs-Returns P R Q (write s m) f d h k = absurd h

pub is_running-eq : (a : GoalStatus) → is_running a ≡ true → a ≡ GoalStatus.running
is_running-eq a h = ground arith

pub is_completing-eq : (a : GoalStatus) → is_completing a ≡ true → a ≡ GoalStatus.completing
is_completing-eq a h = ground arith

is_authorizing-eq : (a : GoalStatus) → is_authorizing a ≡ true → a ≡ GoalStatus.authorizing
is_authorizing-eq a h = ground arith

pub is_active-eq : (a : GoalStatus) → is_active a ≡ true → a ≡ GoalStatus.active
is_active-eq a h = ground arith

is_blocked-eq : (a : GoalStatus) → is_blocked a ≡ true → a ≡ GoalStatus.blocked
is_blocked-eq a h = ground arith

is_completed-eq : (a : GoalStatus) → is_completed a ≡ true → a ≡ GoalStatus.completed
is_completed-eq a h = ground arith

is_declined-eq : (a : GoalStatus) → is_declined a ≡ true → a ≡ GoalStatus.declined
is_declined-eq a h = ground arith

-- A test of the form `!(a || b)` that fails.
pub either : (x y : Bool) → not (x || y) ≡ false → (x ≡ true) ⊎ (y ≡ true)
either true y h = inl refl
either false true h = inr refl
either false false h = cc

pub both : (x y : Bool) → not (x && y) ≡ false → (x ≡ true) × (y ≡ true)
both true true h = (refl, refl)
both true false h = cc
both false y h = cc

pub from : {a b c : GoalStatus} → a ≡ b → Edge b c → Edge a c
from {a} {b} {c} h e = subst (λ x. Edge x c) (sym h) e

length-remove_first-le : (id : Text) (xs : List Text) → length (remove_first id xs) ≤ length xs
unfolding remove_first
length-remove_first-le id [] = omega arith
length-remove_first-le id (x ∷ xs) = ground (arith, length-remove_first-le id xs)

pub same_goal : (g : Goal) → SameGoal g g
same_goal g = (refl, refl, refl, refl, refl)

module _ (g : Goal) where
  activate_edge :
      not (is_authorizing g.status || is_active g.status) ≡ false → Edge g.status GoalStatus.active
  activate_edge h = elim (either _ _ h) [
    | inl e ↦ from (is_authorizing-eq g.status e) activation
    | inr e ↦ from (is_active-eq g.status e) (stay GoalStatus.active)
  ]

  pub activate_goal-Moved : Returns (Moved g) (activate_goal g)
  unfolding activate_goal
  activate_goal-Moved =
      Returns-throw_if (Moved g) (not (is_authorizing g.status || is_active g.status))
        Error.bad_goal_transition (done (record g { status = GoalStatus.active }))
        λ h. record {
          edge = activate_edge h;
          same = same_goal g;
          goal = λ i. record { owned = ground (arith, i.owned); over = λ e. cc; bound = i.bound };
        }

  decline_edge :
      not (is_authorizing g.status || is_declined g.status) ≡ false
      → Edge g.status GoalStatus.declined
  decline_edge h = elim (either _ _ h) [
    | inl e ↦ from (is_authorizing-eq g.status e) refusal
    | inr e ↦ from (is_declined-eq g.status e) (stay GoalStatus.declined)
  ]

  pub decline_goal-Moved : Returns (Moved g) (decline_goal g)
  unfolding decline_goal
  decline_goal-Moved =
      Returns-throw_if (Moved g) (not (is_authorizing g.status || is_declined g.status))
        Error.bad_goal_transition
        (done (record g { status = GoalStatus.declined; pending_guidance_ids = [] }))
        λ h. record {
          edge = decline_edge h;
          same = same_goal g;
          goal = λ i. record {
            owned = ground (arith, i.owned);
            over = λ e. refl;
            bound = omega arith;
          };
        }

  running_now :
      (env : Env)
      → not (is_running g.status && is_owned_by env g.running_owner_id) ≡ false
      → g.status ≡ GoalStatus.running
  running_now env h = is_running-eq g.status (both _ _ h).0

  pub continue_goal-Moved : (env : Env) → Returns (Moved g) (continue_goal env g)
  unfolding continue_goal assert_owned_running
  continue_goal-Moved env =
      Returns-throw_if (Moved g) (not (is_running g.status && is_owned_by env g.running_owner_id))
        Error.goal_not_owned
        (done (record g { status = GoalStatus.active; running_owner_id = none }))
        λ h. record {
          edge = from (running_now env h) rest;
          same = same_goal g;
          goal = λ i. record { owned = refl; over = λ e. cc; bound = i.bound };
        }

  -- Guidance is taken out of the goal.
  unfoldable pub Taken : Goal → Type 0
  Taken g' =
      (ids : List Text) × (g' ≡ record g { pending_guidance_ids = ids })
      × (length ids ≤ length g.pending_guidance_ids)

  pub take_guidance-Taken : (guidance : Option Text) → Returns Taken (take_guidance guidance g)
  unfolding take_guidance Taken
  take_guidance-Taken none = (g.pending_guidance_ids, refl, omega arith)
  take_guidance-Taken (some id) =
      Returns-throw_if Taken (not (any (same id) g.pending_guidance_ids)) Error.guidance_not_pending
        (done (record g { pending_guidance_ids = remove_first id g.pending_guidance_ids }))
        λ h. (
          remove_first id g.pending_guidance_ids,
          refl,
          length-remove_first-le id g.pending_guidance_ids,
        )

  pub seal_goal_notice-Returns :
      (env : Env) (kind : NoticeKind) (activity_key body : Text)
      → Returns (λ n. n.kind ≡ kind) (seal_goal_notice env g kind activity_key body)
  unfolding seal_goal_notice
  seal_goal_notice-Returns env kind activity_key body =
      Returns->>= _ _ (or_throw env.vault Error.recovery_envelope) _ (Returns-or_throw env.vault _)
        λ vault e.
          Returns->>= _ _ (or_throw (vault.seal_notice _ body) _) _ (Returns-or_throw _ _)
            λ envelope e'. refl

  pub block_goal-Moved :
      (env : Env) (activity_key body : Text) (guidance : Option Text)
      → Returns (Moved g) (block_goal env activity_key body guidance g)
  unfolding block_goal Taken
  block_goal-Moved env activity_key body guidance = Returns-throw_if (Moved g) _ _ _ λ h.
      Returns->>= Taken (Moved g) (take_guidance guidance g) _ (take_guidance-Taken guidance)
        λ g' taken.
          Returns->>= _ (Moved g) (seal_goal_notice env g NoticeKind.elicitation activity_key body)
            _ (seal_goal_notice-Returns env NoticeKind.elicitation activity_key body)
            λ notice e.
              subst
                (λ x. Moved g (record x {
                  status = GoalStatus.blocked;
                  running_owner_id = none;
                  completion_dispatch_started_at = none;
                  pending_notice = some notice;
                }))
                (sym taken.1)
                (record {
                  edge = blocking g.status h;
                  same = same_goal g;
                  goal = λ i. record {
                    owned = refl;
                    over = λ z. cc;
                    bound = omega (arith, taken.2, i.bound);
                  };
                })

  resume_edge :
      not (is_blocked g.status || (is_active g.status || is_completing g.status)) ≡ false
      → Edge g.status GoalStatus.active
  resume_edge h = elim (either (is_blocked g.status) _ h) [
    | inl e ↦ from (is_blocked-eq g.status e) resumption
    | inr e ↦ elim (either (is_active g.status) (is_completing g.status) (ground (arith, e))) [
      | inl e' ↦ from (is_active-eq g.status e') (stay GoalStatus.active)
      | inr e' ↦ from (is_completing-eq g.status e') return_to_work
    ]
  ]

  resume_owned :
      not (is_blocked g.status || (is_active g.status || is_completing g.status)) ≡ false
      → IsGoal g
      → is_some g.running_owner_id ≡ false
  resume_owned h i = ground (arith, i.owned)

  pub resume_goal-Moved : (guidance : Option Text) → Returns (Moved g) (resume_goal guidance g)
  unfolding resume_goal Taken
  resume_goal-Moved guidance = Returns-throw_if (Moved g) _ _ _ λ h.
      Returns->>= Taken (Moved g) (take_guidance guidance g) _ (take_guidance-Taken guidance)
        λ g' taken.
          subst (λ x. Moved g (record (forget_completion x) { steps_since_guidance = 0 }))
            (sym taken.1)
            (record {
              edge = resume_edge h;
              same = same_goal g;
              goal = λ i. record {
                owned = resume_owned h i;
                over = λ z. cc;
                bound = omega (arith, taken.2, i.bound);
              };
            })

  pub begin_completion-Moved :
      (env : Env) (state_id activity_key body : Text)
      → Returns (Moved g) (begin_completion env state_id activity_key body g)
  unfolding begin_completion assert_owned_running
  begin_completion-Moved env state_id activity_key body =
      Returns-throw_if (Moved g) (not (is_running g.status && is_owned_by env g.running_owner_id))
        Error.goal_not_owned _
        λ h.
          Returns->>= _ (Moved g) (seal_goal_notice env g NoticeKind.completion activity_key body) _
            (seal_goal_notice-Returns env NoticeKind.completion activity_key body)
            λ notice e. record {
              edge = from (running_now env h) conclusion;
              same = same_goal g;
              goal = λ i. record { owned = refl; over = λ z. cc; bound = i.bound };
            }

  complete_edge :
      not (is_completing g.status || is_completed g.status) ≡ false
      → Edge g.status GoalStatus.completed
  complete_edge h = elim (either _ _ h) [
    | inl e ↦ from (is_completing-eq g.status e) finish
    | inr e ↦ from (is_completed-eq g.status e) (stay GoalStatus.completed)
  ]

  pub complete_goal-Moved : Returns (Moved g) (complete_goal g)
  unfolding complete_goal
  complete_goal-Moved =
      Returns-throw_if (Moved g) (not (is_completing g.status || is_completed g.status))
        Error.bad_goal_transition
        (done (record g {
          status = GoalStatus.completed;
          pending_notice = none;
          running_owner_id = none;
          pending_guidance_ids = [];
        }))
        λ h. record {
          edge = complete_edge h;
          same = same_goal g;
          goal = λ i. record { owned = refl; over = λ e. refl; bound = omega arith };
        }

-- ===== src/State/Invariant/Stops.antt =====
-- `claimStopEvent` of src/state/store.ts keeps the invariant, and the claim that is watched.
use linear_agent_bridge.Base.{
  refl, inl, inr, false, not, ◌&&◌, ◌||◌, Option, none, some, Text, same, lookup, Bool-cases,
  is_some, if◌then◌else◌,
}
use linear_agent_bridge.Recovery.Types.{Identity, Payload}
use linear_agent_bridge.State.Types.{Disposition, Claim, Cursor, Goal, State, Env, Error}
use linear_agent_bridge.State.Steps.{
  Steps, done, throw, write, throw_if, or_throw, ◌>>=◌, ◌>>◌, Runs, Runs->>=, Runs-Quiet,
  Runs-throw_if, Runs-or_throw,
}
use linear_agent_bridge.State.Checks.{
  is_created, is_final, validate_identity, validate_identity-Quiet, validate_cursor,
  validate_cursor-Quiet,
}
use linear_agent_bridge.State.Claiming.{ClaimResult}
use linear_agent_bridge.State.Claim.{claim_event_in_state}
use linear_agent_bridge.State.Dispatch.{supersede_owned}
use linear_agent_bridge.State.Reconcile.{
  session_of, put_session, is_before, with_state, is_claim_result, claim_late_stop, stop_found_goal,
  fence_session, claim_stop_in_state, claim_stop_event,
}
use linear_agent_bridge.State.Invariant.Claiming.{Good, Good-cong, SameRecords}
use linear_agent_bridge.State.Invariant.ClaimEvent.{claim_event_in_state-Runs}
use linear_agent_bridge.State.Invariant.Contending.{IsGrant}
use linear_agent_bridge.State.Invariant.Dispatch.{Marked}
use linear_agent_bridge.State.Invariant.Ending.{supersede_owned-Quiet, supersede_owned-Good}

-- The state that is handed on satisfies what every written state does.
with_state-Runs :
    {A : Type 0} (P : State → Type 0) (Q : State → A → Type 0) (s d : State) (m : Steps A)
    → P s
    → Runs P Q d m
    → Runs P (λ d' b. P b.0 × Q d' b.1) d (with_state s m)
with_state-Runs P Q s d (done a) p h = (p, h)
with_state-Runs P Q s d (throw e) p h = tt
with_state-Runs P Q s d (write t m) p h = (h.0, with_state-Runs P Q t t m h.0 h.1)

stop_found_goal-SameRecords :
    (env : Env) (session : Text) (o : Option Goal) (s : State)
    → SameRecords s (stop_found_goal env session o s)
stop_found_goal-SameRecords env session none s = (refl, refl)
stop_found_goal-SameRecords env session (some g) s = elim (Bool-cases (is_final g.status)) [
  | inl e ↦ rw e (refl, refl)
  | inr e ↦ rw e (refl, refl)
]

fence_session-SameRecords :
    (env : Env) (s : State) (i : Identity) (cursor : Cursor)
    → SameRecords s (fence_session env s i cursor)
unfolding fence_session
fence_session-SameRecords env s i cursor = stop_found_goal-SameRecords env i.linear_session_id _ _

module _ (env : Env) (k : Text) (w : Option Claim) (i : Identity) (p : Option Payload)
    (marked : Marked w) where
  claim_late_stop-Runs :
      (s d : State) (by : Text)
      → Good k w s
      → Runs (Good k w) (IsGrant env i) d (claim_late_stop env s i p by)
  unfolding claim_late_stop
  claim_late_stop-Runs s d by g =
      Runs->>= (Good k w) (λ d' b. Good k w b.0 × IsGrant env i d' b.1) (IsGrant env i)
        (with_state s (claim_event_in_state env s i p false)) _ d
        (with_state-Runs (Good k w) (IsGrant env i) s d (claim_event_in_state env s i p false) g
          (claim_event_in_state-Runs env k w i p s d false g))
        λ d' b h. after_claim d' b h
    where
      after_claim :
          (d' : State) (b : State × ClaimResult)
          → Good k w b.0 × IsGrant env i d' b.1
          → Runs (Good k w) (IsGrant env i) d' (
              if not (is_claim_result (b.1).disposition)
              then done b.1
              else supersede_owned env b.0 i.webhook_id by >>= λ s'.
                  or_throw (lookup i.webhook_id s'.receipts) Error.claim_ownership >>= λ r.
                  write s' (done (record { disposition = Disposition.superseded; receipt = r })))
      after_claim d' b h = elim (Bool-cases (not (is_claim_result (b.1).disposition))) [
        | inl e ↦ rw e (h.1)
        | inr e ↦ rw e (
            Runs-Quiet (Good k w) (IsGrant env i) (supersede_owned env b.0 i.webhook_id by) _ d'
              (supersede_owned-Quiet env k w b.0 i.webhook_id h.0 by)
              λ s' eq.
                Runs-or_throw (Good k w) (IsGrant env i) (lookup i.webhook_id s'.receipts)
                  Error.claim_ownership _ d'
                  λ r _. (
                    (supersede_owned-Good env k w b.0 i.webhook_id h.0 by marked s' eq).0,
                    λ c. cc,
                  ))
      ]

  claim_stop_in_state-Runs :
      (s d : State) (cursor : Cursor)
      → Good k w s
      → Runs (Good k w) (IsGrant env i) d (claim_stop_in_state env s i cursor p)
  unfolding claim_stop_in_state
  claim_stop_in_state-Runs s d cursor g =
      let session = session_of env s i.linear_session_id in
      elim (Bool-cases (is_before env cursor session.stop_fence)) [
        | inl e ↦ rw e (
            claim_late_stop-Runs
              (put_session i.linear_session_id (record session { updated_at = env.now }) s) d _
              (Good-cong env k w s _ (refl, refl) g))
        | inr e ↦ rw e (
            claim_event_in_state-Runs env k w i p (fence_session env s i cursor) d false
              (Good-cong env k w s _ (fence_session-SameRecords env s i cursor) g))
      ]

  pub claim_stop_event-Runs :
      (s d : State) (cursor : Cursor)
      → Good k w s
      → Runs (Good k w) (IsGrant env i) d (claim_stop_event env s i cursor p)
  unfolding claim_stop_event
  claim_stop_event-Runs s d cursor g =
      Runs-Quiet (Good k w) (IsGrant env i) (validate_identity i) _ d (validate_identity-Quiet i)
        λ _ _.
          Runs-Quiet (Good k w) (IsGrant env i) (validate_cursor env cursor) _ d
            (validate_cursor-Quiet env cursor)
            λ _ _.
              Runs-throw_if (Good k w) (IsGrant env i)
                (is_created i.action || not (same i.execution_id cursor.id)) Error.invalid_argument
                (throw_if (is_some p && not (is_some env.vault)) Error.recovery_envelope
                  >> claim_stop_in_state env s i cursor p)
                d
                λ _.
                  Runs-throw_if (Good k w) (IsGrant env i) (is_some p && not (is_some env.vault))
                    Error.recovery_envelope (claim_stop_in_state env s i cursor p) d
                    λ _. claim_stop_in_state-Runs s d cursor g

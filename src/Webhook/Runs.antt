-- ===== src/Webhook/Runs.antt =====
-- src/server.ts: the runs that are active in this process, and which of them a stop aborts.
use linear_agent_bridge.Base.{
  ℕ, suc, Bool, true, false, ◌&&◌, ◌||◌, Option, none, some, List, [], ◌∷◌, ◌++◌, Text, ltb, leb,
  ◌==◌, if◌then◌else◌, Dict, lookup, put, remove,
}
use linear_agent_bridge.Base.Options.{◌>>=◌, ◌>>◌, guard}
use linear_agent_bridge.Recovery.Types.{
  IngressAction, created, prompted, Payload, created_payload, prompted_payload, occurred_at,
}
use linear_agent_bridge.Recovery.Payloads.{Dates}
use linear_agent_bridge.Recovery.Envelope.{is_sequence}

-- `RecoveryOrder`
pub record RecoveryOrder : Type 0 where
  pub action : IngressAction
  pub at : Text
  pub sequence : ℕ

-- `ActiveRun`, with a number that names its `AbortController`.
pub record ActiveRun : Type 0 where
  pub controller : ℕ
  pub recovery_order : RecoveryOrder

-- `activeRuns`, the number of controllers made so far, and those that were aborted.
pub record Runs : Type 0 where
  pub active : Dict (List ActiveRun)
  pub made : ℕ
  pub aborted : List ℕ

unfoldable pub runs_of : Text → Runs → List ActiveRun
unfolding lookup
runs_of session r = elim (lookup session r.active) [ none ↦ [] | some runs ↦ runs ]

-- `registerSessionRun`: the new controller is number `made`.
unfoldable pub register_session_run : Text → RecoveryOrder → Runs → Runs
unfolding runs_of put
register_session_run session order r = record r {
  active =
      put session (runs_of session r ++ record { controller = r.made; recovery_order = order } ∷ [])
        r.active;
  made = suc r.made;
}

abbrev pub is_earlier : Option ℕ → Option ℕ → Bool
is_earlier (some t) (some u) = ltb t u
is_earlier _ _ = false

abbrev pub is_same_time : Option ℕ → Option ℕ → Bool
is_same_time (some t) (some u) = t == u
is_same_time _ _ = false

abbrev pub is_created_action : IngressAction → Bool
is_created_action created = true
is_created_action prompted = false

-- `runIsAtOrBeforeStop`: a difference with NaN is neither negative nor zero.
unfoldable pub run_is_at_or_before_stop : Dates → RecoveryOrder → RecoveryOrder → Bool
run_is_at_or_before_stop dates run stop =
    is_created_action run.action
    || (is_earlier (dates.parse_date run.at) (dates.parse_date stop.at)
        || is_same_time (dates.parse_date run.at) (dates.parse_date stop.at)
          && leb run.sequence stop.sequence)

unfoldable pub abort_runs : Dates → RecoveryOrder → List ActiveRun → List ℕ → List ℕ
unfolding run_is_at_or_before_stop
abort_runs dates stop [] aborted = aborted
abort_runs dates stop (run ∷ runs) aborted =
    let rest = abort_runs dates stop runs aborted in
    if run_is_at_or_before_stop dates run.recovery_order stop then run.controller ∷ rest else rest

-- `abortSessionRuns`
unfoldable pub abort_session_runs : Dates → Text → RecoveryOrder → Runs → Runs
unfolding abort_runs runs_of
abort_session_runs dates session stop r = record r {
  aborted = abort_runs dates stop (runs_of session r) r.aborted;
}

abbrev pub without_run : ℕ → List ActiveRun → List ActiveRun
without_run controller [] = []
without_run controller (run ∷ runs) =
    let rest = without_run controller runs in
    if run.controller == controller then runs else run ∷ rest

abbrev put_or_remove : Text → List ActiveRun → Dict (List ActiveRun) → Dict (List ActiveRun)
unfolding put remove
put_or_remove session [] m = remove session m
put_or_remove session (run ∷ runs) m = put session (run ∷ runs) m

-- `unregisterRun`: a session without runs has no entry.
unfoldable pub unregister_run : Text → ℕ → Runs → Runs
unfolding lookup put remove
unregister_run session controller r = elim (lookup session r.active) [
  | none ↦ r
  | some runs ↦ record r { active = put_or_remove session (without_run controller runs) r.active }
]

abbrev action_of_payload : Payload → IngressAction
action_of_payload (created_payload prompt at issue) = created
action_of_payload (prompted_payload prompt at signal stop) = prompted

-- `recoveryOrderFromReceipt`; `none` is the exception.
unfoldable pub recovery_order_from_receipt : Option ℕ → Payload → Option RecoveryOrder
recovery_order_from_receipt sequence payload = do
  n ← sequence
  guard (is_sequence n)
  some record { action = action_of_payload payload; at = occurred_at payload; sequence = n }

-- ===== src/Shutdown.antt =====
-- src/shutdown.ts: signals, the deadline, the end of `server.close` and the exit of the process, as
-- steps on the variables of `installGracefulShutdown`.
pub mod Once
pub mod Exits
mod Tests
use linear_agent_bridge.Base.{
  ℕ, suc, ◌+◌, ◌≤◌, ◌≡◌, refl, subst, ◌∙◌, Bool, true, false, ◌||◌, Option, none, some, List, [],
  ◌∷◌, length, if◌then◌else◌, arith, ◌⊎◌, inl, inr, Bool-cases,
}

-- The variables, whether the two listeners are installed, whether the deadline's timer runs, the
-- calls of `server.close`, whether its promise is still pending, and the codes `exit` was called
-- with, the last first.
pub record Shutdown : Type 0 where
  pub signal_observed : Bool
  pub shutting_down : Bool
  pub exited : Bool
  pub settled : Bool
  pub listening : Bool
  pub deadline : Bool
  pub closes : ℕ
  pub pending : Bool
  pub exits : List ℕ

-- After `installGracefulShutdown`.
abbrev pub installed : Shutdown
installed = record {
  signal_observed = false;
  shutting_down = false;
  exited = false;
  settled = false;
  listening = true;
  deadline = false;
  closes = 0;
  pending = false;
  exits = [];
}

-- `exitOnce`
unfoldable pub exit_once : ℕ → Shutdown → Shutdown
exit_once code s = if s.exited then s else record s { exited = true; exits = code ∷ s.exits }

-- `dispose`
unfoldable pub dispose : Shutdown → Shutdown
dispose s = record s { listening = false; deadline = false }

-- `shutdown`: the promise is made once.
unfoldable pub shutdown : Shutdown → Shutdown
shutdown s =
    if s.shutting_down
    then s
    else record s { shutting_down = true; closes = suc s.closes; pending = true }

-- `onSignal`
unfoldable pub on_signal : Shutdown → Shutdown
unfolding shutdown
on_signal s =
    if s.signal_observed then s else shutdown (record s { signal_observed = true; deadline = true })

-- The callback of the deadline's timer.
unfoldable pub on_deadline : Shutdown → Shutdown
unfolding dispose exit_once
on_deadline s = if s.settled then s else exit_once 1 (dispose (record s { settled = true }))

abbrev code_of : Bool → ℕ
code_of true = 0
code_of false = 1

-- `server.close` is fulfilled or rejected: `finally`, and then the callbacks of `onSignal`.
unfoldable pub on_closed : Bool → Shutdown → Shutdown
unfolding dispose exit_once
on_closed fulfilled s =
    let s' = dispose (record s { settled = true; pending = false }) in
    if s.signal_observed then exit_once (code_of fulfilled) s' else s'

-- What may happen: a signal reaches a listener, someone calls `shutdown` or `dispose`, the timer
-- fires, `server.close` settles.
pub data Stimulus : Type 0 where
  signals calls_shutdown calls_dispose fires : Stimulus
  closed : (fulfilled : Bool) → Stimulus

unfoldable pub step : Stimulus → Shutdown → Shutdown
unfolding on_signal shutdown dispose on_deadline on_closed
step signals s = if s.listening then on_signal s else s
step calls_shutdown s = shutdown s
step calls_dispose s = dispose s
step fires s = if s.deadline then on_deadline (record s { deadline = false }) else s
step (closed fulfilled) s = if s.pending then on_closed fulfilled s else s

unfoldable pub run : List Stimulus → Shutdown → Shutdown
unfolding step
run [] s = s
run (e ∷ events) s = run events (step e s)

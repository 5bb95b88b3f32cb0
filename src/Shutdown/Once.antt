-- ===== src/Shutdown/Once.antt =====
-- src/shutdown.ts: how the variables hang together in every order of events.
use linear_agent_bridge.Base.{
  ℕ, ◌≤◌, ◌≡◌, refl, Bool, true, false, List, [], ◌∷◌, length, arith, ◌⊎◌,
}
use linear_agent_bridge.Shutdown.{
  Shutdown, installed, exit_once, dispose, shutdown, on_signal, on_deadline, on_closed, Stimulus,
  signals, calls_shutdown, calls_dispose, fires, closed, step, run,
}

-- How the variables hang together.
abbrev pub Exits : Bool → List ℕ → Type 0
Exits false codes = codes ≡ []
Exits true codes = (codes ≡ 0 ∷ []) ⊎ (codes ≡ 1 ∷ [])

abbrev pub Closes : Bool → ℕ → Bool → Type 0
Closes false n pending = (n ≡ 0) × (pending ≡ false)
Closes true n pending = n ≡ 1

-- A signal that was seen started the close, and waits for it, unless the process exited.
abbrev pub Waits : (observed shutting_down exited pending : Bool) → Type 0
Waits false down exited pending = exited ≡ false
Waits true down true pending = down ≡ true
Waits true down false pending = (down ≡ true) × (pending ≡ true)

-- Once the close has settled nothing can happen any more.
abbrev pub Ends : (shutting_down pending settled : Bool) → Type 0
Ends true false settled = settled ≡ true
Ends _ _ settled = Unit {0}

-- The timer is set by a signal only, and runs only before the end.
abbrev pub Arms : (deadline observed settled : Bool) → Type 0
Arms true observed settled = (observed ≡ true) × (settled ≡ false)
Arms false observed settled = Unit {0}

-- While the listeners are installed nothing is settled.
abbrev pub Hears : (listening shutting_down pending settled : Bool) → Type 0
Hears true true pending settled = (pending ≡ true) × (settled ≡ false)
Hears true false pending settled = settled ≡ false
Hears false down pending settled = Unit {0}

pub record Inv (s : Shutdown) : Type 0 where
  pub exits_once : Exits s.exited s.exits
  pub closes_once : Closes s.shutting_down s.closes s.pending
  pub waits : Waits s.signal_observed s.shutting_down s.exited s.pending
  pub arms : Arms s.deadline s.signal_observed s.settled
  pub hears : Hears s.listening s.shutting_down s.pending s.settled

pub installed-Inv : Inv installed
installed-Inv = record {
  exits_once = refl;
  closes_once = (refl, refl);
  waits = refl;
  arms = tt;
  hears = refl;
}

module _ (s : Shutdown) (h : Inv s) where
  shutdown-Inv : Inv (shutdown s)
  unfolding shutdown
  shutdown-Inv = ground (arith, h.exits_once, h.closes_once, h.waits, h.arms, h.hears)

  signals-Inv : Inv (step signals s)
  unfolding step on_signal shutdown
  signals-Inv = ground (arith, h.exits_once, h.closes_once, h.waits, h.arms, h.hears)

  dispose-Inv : Inv (dispose s)
  unfolding dispose
  dispose-Inv = record {
    exits_once = h.exits_once;
    closes_once = h.closes_once;
    waits = h.waits;
    arms = tt;
    hears = tt;
  }

  fires-Inv : Inv (step fires s)
  unfolding step on_deadline dispose exit_once
  fires-Inv = ground (arith, h.exits_once, h.closes_once, h.waits, h.arms, h.hears)

  closed-Inv : (b : Bool) → Inv (step (closed b) s)
  unfolding step on_closed dispose exit_once
  closed-Inv true = ground (arith, h.exits_once, h.closes_once, h.waits, h.arms, h.hears)
  closed-Inv false = ground (arith, h.exits_once, h.closes_once, h.waits, h.arms, h.hears)

  pub step-Inv : (e : Stimulus) → Inv (step e s)
  unfolding step
  step-Inv signals = signals-Inv
  step-Inv calls_shutdown = shutdown-Inv
  step-Inv calls_dispose = dispose-Inv
  step-Inv fires = fires-Inv
  step-Inv (closed b) = closed-Inv b

pub run-Inv : (events : List Stimulus) (s : Shutdown) → Inv s → Inv (run events s)
unfolding run
run-Inv [] s h = h
run-Inv (e ∷ events) s h = run-Inv events (step e s) (step-Inv s h e)

once : (s : Shutdown) → Inv s → (length s.exits ≤ 1) × (s.closes ≤ 1)
once s h = ground (arith, h.exits_once, h.closes_once)

-- Whatever happens after `installGracefulShutdown`, in any order: `exit` is called at most once, and
-- so is `server.close`.
pub run-once :
    (events : List Stimulus)
    → (length (run events installed).exits ≤ 1) × ((run events installed).closes ≤ 1)
run-once events = once (run events installed) (run-Inv events installed installed-Inv)

-- ===== src/Shutdown/Exits.antt =====
-- src/shutdown.ts: the exit of the process after a signal, and what follows it.
use linear_agent_bridge.Base.{
  ℕ, ◌≡◌, refl, subst, ◌∙◌, Bool, true, false, List, [], ◌∷◌, arith, inl, inr,
}
use linear_agent_bridge.Shutdown.{
  Shutdown, installed, exit_once, dispose, shutdown, on_signal, on_deadline, on_closed, Stimulus,
  signals, calls_shutdown, calls_dispose, fires, closed, step, run,
}
use linear_agent_bridge.Shutdown.Once.{Exits, Inv, installed-Inv, step-Inv, run-Inv}

-- Nobody calls `dispose` from outside.
abbrev pub Undisposed : List Stimulus → Type 0
Undisposed [] = Unit {0}
Undisposed (calls_dispose ∷ events) = ⊥
Undisposed (e ∷ events) = Undisposed events

-- A process that saw a signal has exited, or its timer runs.
abbrev Timed : (observed exited deadline : Bool) → Type 0
Timed true false deadline = deadline ≡ true
Timed _ _ deadline = Unit {0}

abbrev IsTimed : Shutdown → Type 0
IsTimed s = Timed s.signal_observed s.exited s.deadline

module _ (s : Shutdown) (h : Inv s) (t : IsTimed s) where
  signals-IsTimed : IsTimed (step signals s)
  unfolding step on_signal shutdown
  signals-IsTimed = ground (arith, h.exits_once, h.closes_once, h.waits, h.arms, t)

  shutdown-IsTimed : IsTimed (shutdown s)
  unfolding shutdown
  shutdown-IsTimed = ground (arith, t)

  fires-IsTimed : IsTimed (step fires s)
  unfolding step on_deadline dispose exit_once
  fires-IsTimed = ground (arith, h.exits_once, h.closes_once, h.waits, h.arms, h.hears, t)

  closed-IsTimed : (b : Bool) → IsTimed (step (closed b) s)
  unfolding step on_closed dispose exit_once
  closed-IsTimed true = ground (arith, h.waits, h.arms, h.hears, t)
  closed-IsTimed false = ground (arith, h.waits, h.arms, h.hears, t)

run-IsTimed :
    (events : List Stimulus) (s : Shutdown)
    → Inv s
    → IsTimed s
    → Undisposed events
    → IsTimed (run events s)
unfolding run
run-IsTimed [] s h t u = t
run-IsTimed (signals ∷ events) s h t u =
    run-IsTimed events (step signals s) (step-Inv s h signals) (signals-IsTimed s h t) u
run-IsTimed (calls_shutdown ∷ events) s h t u =
    run-IsTimed events (step calls_shutdown s) (step-Inv s h calls_shutdown)
      (shutdown-IsTimed s h t) u
run-IsTimed (calls_dispose ∷ events) s h t u = absurd u
run-IsTimed (fires ∷ events) s h t u =
    run-IsTimed events (step fires s) (step-Inv s h fires) (fires-IsTimed s h t) u
run-IsTimed (closed b ∷ events) s h t u =
    run-IsTimed events (step (closed b) s) (step-Inv s h (closed b)) (closed-IsTimed s h t b) u

-- The process has exited.
abbrev pub HasExited : Shutdown → Type 0
HasExited s = (code : ℕ) × (s.exits ≡ code ∷ [])

code_is : (codes : List ℕ) → Exits true codes → (code : ℕ) × (codes ≡ code ∷ [])
code_is codes (inl e) = (0, e)
code_is codes (inr e) = (1, e)

exits-HasExited : (s : Shutdown) → Inv s → s.exited ≡ true → HasExited s
exits-HasExited s h e = let x = subst (λ b. Exits b s.exits) e h.exits_once in code_is s.exits x

ends :
    (s : Shutdown)
    → Inv s
    → s.signal_observed ≡ true
    → (b : Bool) → (step (closed b) s).exited ≡ true
unfolding step on_closed dispose exit_once
ends s h o true = ground (arith, h.waits)
ends s h o false = ground (arith, h.waits)

times_out :
    (s : Shutdown) → Inv s → IsTimed s → s.signal_observed ≡ true → (step fires s).exited ≡ true
unfolding step on_deadline dispose exit_once
times_out s h t o = ground (arith, h.arms, t)

-- After any events in which nobody else calls `dispose`, when a signal has been seen: the process
-- has exited once `server.close` settles, however it does, and it has exited once the deadline
-- passes.
pub run-HasExited :
    (events : List Stimulus) (fulfilled : Bool)
    → Undisposed events
    → (run events installed).signal_observed ≡ true
    → HasExited (step (closed fulfilled) (run events installed))
      × HasExited (step fires (run events installed))
run-HasExited events fulfilled u o =
    let s = run events installed in
    let inv = run-Inv events installed installed-Inv in
    let timed = run-IsTimed events installed installed-Inv tt u in
    (
      exits-HasExited (step (closed fulfilled) s) (step-Inv s inv (closed fulfilled))
          (ends s inv o fulfilled),
      exits-HasExited (step fires s) (step-Inv s inv fires) (times_out s inv timed o),
    )

stays : (s : Shutdown) (e : Stimulus) → s.exited ≡ true → (step e s).exits ≡ s.exits
unfolding step on_signal shutdown on_deadline on_closed dispose exit_once
stays s signals x = ground (arith, x)
stays s calls_shutdown x = ground (arith, x)
stays s calls_dispose x = refl
stays s fires x = ground (arith, x)
stays s (closed b) x = ground (arith, x)

stays_exited : (s : Shutdown) (e : Stimulus) → s.exited ≡ true → (step e s).exited ≡ true
unfolding step on_signal shutdown on_deadline on_closed dispose exit_once
stays_exited s signals x = ground (arith, x)
stays_exited s calls_shutdown x = ground (arith, x)
stays_exited s calls_dispose x = x
stays_exited s fires x = ground (arith, x)
stays_exited s (closed b) x = ground (arith, x)

run-stays :
    (events : List Stimulus) (s : Shutdown) → s.exited ≡ true → (run events s).exits ≡ s.exits
unfolding run
run-stays [] s x = refl
run-stays (e ∷ events) s x = run-stays events (step e s) (stays_exited s e x) ∙ stays s e x

-- Once the process exited, no later event, in particular no late end of `server.close`, changes the
-- code or calls `exit` again.
pub run-exits_stay :
    (events later : List Stimulus)
    → (run events installed).exited ≡ true
    → (run later (run events installed)).exits ≡ (run events installed).exits
run-exits_stay events later x = run-stays later (run events installed) x

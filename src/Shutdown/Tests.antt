-- ===== src/Shutdown/Tests.antt =====
-- src/shutdown.ts: a second signal, and a close that settles after the deadline.
use linear_agent_bridge.Base.{◌≡◌, ◌≤◌, refl, true, false, List, [], ◌∷◌, length}
use linear_agent_bridge.Shutdown.{
  installed, exit_once, dispose, shutdown, on_signal, on_deadline, on_closed, Stimulus, signals,
  calls_shutdown, fires, closed, step, run,
}
use linear_agent_bridge.Shutdown.Once.{run-once}
use linear_agent_bridge.Shutdown.Exits.{HasExited, run-HasExited}

abbrev late_close : List Stimulus
late_close = signals ∷ signals ∷ fires ∷ closed true ∷ []

test_late_close : (run late_close installed).exits ≡ 1 ∷ []
unfolding run step on_signal shutdown on_deadline on_closed dispose exit_once
test_late_close = refl

test_clean_close : (run (calls_shutdown ∷ signals ∷ closed true ∷ []) installed).exits ≡ 0 ∷ []
unfolding run step on_signal shutdown on_deadline on_closed dispose exit_once
test_clean_close = refl

run-once_example :
    (length (run late_close installed).exits ≤ 1) × ((run late_close installed).closes ≤ 1)
run-once_example = run-once late_close

run-HasExited_example :
    HasExited (step (closed false) (run (signals ∷ []) installed))
    × HasExited (step fires (run (signals ∷ []) installed))
unfolding run step on_signal shutdown
run-HasExited_example = run-HasExited (signals ∷ []) false tt refl

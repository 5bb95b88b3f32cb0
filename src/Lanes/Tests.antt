-- ===== src/Lanes/Tests.antt =====
-- Two tasks of one session and one of another, for src/queue.ts.
use linear_agent_bridge.Base.{
  ℕ, ◌≡◌, refl, List, [], ◌∷◌, ◌++◌, Text, text, lookup, put, text_dec, arith,
}
use linear_agent_bridge.Lanes.Order.{
  tasks_of, waiting, Run, begins, enqueues, starts, finishes, Run-fifo,
}
use linear_agent_bridge.Lanes.{
  Lanes, no_lanes, enqueue, start, finish, size, enqueued, started, Reach, begin, then_step,
  Reach-alone,
}

abbrev queued : Lanes
queued = enqueue (text "b") 3 (enqueue (text "a") 2 (enqueue (text "a") 1 no_lanes))

queued-Reach : Reach queued
queued-Reach =
    then_step _ _
      (then_step _ _ (then_step _ _ begin (enqueued _ (text "a") 1)) (enqueued _ (text "a") 2))
      (enqueued _ (text "b") 3)

abbrev working : Lanes
working = start 0 queued

working-Reach : Reach working
unfolding enqueue lookup put text_dec
working-Reach = then_step queued working queued-Reach (started queued 0 (omega arith) refl refl)

size_two : size (text "a") working ≡ 2
unfolding size enqueue start lookup put text_dec
size_two = refl

Reach-alone_example : (◌≡◌ {A = ℕ} 0 0) × (size (text "a") working ≡ 2)
unfolding enqueue start lookup put text_dec
Reach-alone_example =
    Reach-alone working working-Reach 0 0 (omega arith) (omega arith) refl refl refl

abbrev asked : List (Text × ℕ)
asked = (text "a", 1) ∷ (text "a", 2) ∷ []

abbrev two_queued : Lanes
two_queued = enqueue (text "a") 2 (enqueue (text "a") 1 no_lanes)

abbrev first_done : Lanes
first_done = finish 0 (start 0 two_queued)

first_done-Run : Run first_done asked ((text "a", 1) ∷ [])
unfolding enqueue start lookup put text_dec
first_done-Run =
    finishes (start 0 two_queued) asked [] 0 1 (2 ∷ [])
      (starts two_queued asked [] 0
        (enqueues (enqueue (text "a") 1 no_lanes) ((text "a", 1) ∷ []) [] (text "a") 2
          (enqueues no_lanes [] [] (text "a") 1 begins))
        (omega arith) refl refl)
      (omega arith) refl refl

Run-fifo_example :
    tasks_of (text "a") ((text "a", 1) ∷ []) ++ waiting (text "a") first_done
    ≡ tasks_of (text "a") asked
Run-fifo_example = Run-fifo first_done asked ((text "a", 1) ∷ []) first_done-Run (text "a")

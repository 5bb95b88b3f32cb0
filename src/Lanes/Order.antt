-- ===== src/Lanes/Order.antt =====
-- The order in which the tasks of src/queue.ts finish.
use linear_agent_bridge.Base.{
  ℕ, ◌<◌, ◌≡◌, refl, sym, ◌∙◌, ap, true, false, Option, none, some, List, [], ◌∷◌, ◌++◌, Text,
  lookup, same, arith, if◌then◌else◌,
}
use linear_agent_bridge.Base.Dicts.{lookup-put, lookup-remove}
use linear_agent_bridge.Lanes.{
  Lanes, no_lanes, enqueue_in, enqueue, start, finish, has_task, LanesInv, Reach, begin, then_step,
  enqueued, started, finished, Reach-LanesInv,
}

-- The tasks of one session in a log.
unfoldable pub tasks_of : Text → List (Text × ℕ) → List ℕ
tasks_of session [] = []
tasks_of session ((s, t) ∷ log) =
    let rest = tasks_of session log in if same s session then t ∷ rest else rest

abbrev pub waiting_in : Lanes → Option ℕ → List ℕ
waiting_in st none = []
waiting_in st (some r) = (st.objects r).tasks

abbrev pub waiting : Text → Lanes → List ℕ
waiting session st = waiting_in st (lookup session st.lanes)

-- A run with the log of what was enqueued and of what finished.
pub data Run : Lanes → List (Text × ℕ) → List (Text × ℕ) → Type 0 where
  begins : Run no_lanes [] []
  enqueues :
      (st : Lanes) (asked over : List (Text × ℕ)) (session : Text) (task : ℕ)
      → Run st asked over
      → Run (enqueue session task st) (asked ++ ((session, task) ∷ [])) over
  starts :
      (st : Lanes) (asked over : List (Text × ℕ)) (r : ℕ)
      → Run st asked over
      → r < st.next
      → (st.objects r).running ≡ false
      → has_task (st.objects r).tasks ≡ true
      → Run (start r st) asked over
  finishes :
      (st : Lanes) (asked over : List (Text × ℕ)) (r task : ℕ) (rest : List ℕ)
      → Run st asked over
      → r < st.next
      → (st.objects r).running ≡ true
      → (st.objects r).tasks ≡ task ∷ rest
      → Run (finish r st) asked (over ++ (((st.objects r).session, task) ∷ []))

Run-Reach : (st : Lanes) (asked over : List (Text × ℕ)) → Run st asked over → Reach st
Run-Reach _ _ _ begins = begin
Run-Reach _ _ _ (enqueues st asked over session task run) =
    then_step st _ (Run-Reach st asked over run) (enqueued st session task)
Run-Reach _ _ _ (starts st asked over r run below idle work) =
    then_step st _ (Run-Reach st asked over run) (started st r below idle work)
Run-Reach _ _ _ (finishes st asked over r task rest run below busy e) =
    then_step st _ (Run-Reach st asked over run) (finished st r below busy)

tasks_of-snoc :
    (session s : Text) (t : ℕ) (log : List (Text × ℕ))
    → tasks_of session (log ++ ((s, t) ∷ []))
      ≡ tasks_of session log ++ (if same s session then t ∷ [] else [])
unfolding tasks_of
tasks_of-snoc session s t [] = refl
tasks_of-snoc session s t ((s', t') ∷ log) = ground (arith, tasks_of-snoc session s t log)

append_nil : (xs : List ℕ) → xs ++ [] ≡ xs
append_nil [] = refl
append_nil (x ∷ xs) = ground (arith, append_nil xs)

append_assoc : (xs ys zs : List ℕ) → (xs ++ ys) ++ zs ≡ xs ++ (ys ++ zs)
append_assoc [] ys zs = refl
append_assoc (x ∷ xs) ys zs = ground (arith, append_assoc xs ys zs)

-- What a step does to the tasks that wait in a session.
new_lane-waiting :
    (st : Lanes) (session s : Text) (task : ℕ) (o : Option ℕ)
    → lookup session st.lanes ≡ o
    → lookup s st.lanes ≡ none
    → LanesInv st
    → waiting session (enqueue_in st s task none)
      ≡ waiting session st ++ (if same s session then task ∷ [] else [])
new_lane-waiting st session s task none e absent inv =
    ground (arith, lookup-put session s st.next st.lanes, e, absent)
new_lane-waiting st session s task (some r) e absent inv = ground (
  arith,
  lookup-put session s st.next st.lanes,
  e,
  absent,
  append_nil (st.objects r).tasks,
  inv.known session r e,
)

old_lane-waiting :
    (st : Lanes) (session s : Text) (task r : ℕ) (o : Option ℕ)
    → lookup session st.lanes ≡ o
    → lookup s st.lanes ≡ some r
    → LanesInv st
    → waiting session (enqueue_in st s task (some r))
      ≡ waiting session st ++ (if same s session then task ∷ [] else [])
old_lane-waiting st session s task r none e there inv = ground (arith, e, there)
old_lane-waiting st session s task r (some n) e there inv =
    ground
      (arith, e, there, append_nil (st.objects n).tasks, inv.known session n e, inv.known s r there)

enqueue_in-waiting :
    (st : Lanes) (session s : Text) (task : ℕ) (o : Option ℕ)
    → lookup s st.lanes ≡ o
    → LanesInv st
    → waiting session (enqueue_in st s task o)
      ≡ waiting session st ++ (if same s session then task ∷ [] else [])
enqueue_in-waiting st session s task none e inv =
    new_lane-waiting st session s task (lookup session st.lanes) refl e inv
enqueue_in-waiting st session s task (some r) e inv =
    old_lane-waiting st session s task r (lookup session st.lanes) refl e inv

start-waiting :
    (st : Lanes) (session : Text) (r : ℕ) → waiting session (start r st) ≡ waiting session st
unfolding start
start-waiting st session r = ground arith

-- The task that finishes was the first of its session.
finish-waiting :
    (st : Lanes) (session : Text) (r task : ℕ) (rest : List ℕ) (o : Option ℕ)
    → lookup session st.lanes ≡ o
    → LanesInv st
    → r < st.next
    → (st.objects r).tasks ≡ task ∷ rest
    → waiting session st
      ≡ (if same (st.objects r).session session then task ∷ [] else [])
        ++ waiting session (finish r st)
unfolding finish
finish-waiting st session r task rest none e inv below h =
    ground (arith, e, h, inv.found r below, lookup-remove session (st.objects r).session st.lanes)
finish-waiting st session r task rest (some n) e inv below h = ground (
  arith,
  e,
  h,
  inv.found r below,
  inv.counted r below,
  inv.known session n e,
  lookup-remove session (st.objects r).session st.lanes,
)

module _ (st : Lanes) (asked over : List (Text × ℕ)) where
  enqueue-fifo :
      (s : Text) (task : ℕ) (session : Text)
      → LanesInv st
      → tasks_of session over ++ waiting session st ≡ tasks_of session asked
      → tasks_of session over ++ waiting session (enqueue s task st)
        ≡ tasks_of session (asked ++ ((s, task) ∷ []))
  unfolding enqueue
  enqueue-fifo s task session inv h =
      let new = if same s session then task ∷ [] else [] in
      ap (λ w. tasks_of session over ++ w)
        (enqueue_in-waiting st session s task (lookup s st.lanes) refl inv)
      ∙ sym (append_assoc (tasks_of session over) (waiting session st) new)
      ∙ ap (λ w. w ++ new) h
      ∙ sym (tasks_of-snoc session s task asked)

  finish-fifo :
      (r task : ℕ) (rest : List ℕ) (session : Text)
      → LanesInv st
      → r < st.next
      → (st.objects r).tasks ≡ task ∷ rest
      → tasks_of session over ++ waiting session st ≡ tasks_of session asked
      → tasks_of session (over ++ (((st.objects r).session, task) ∷ []))
          ++ waiting session (finish r st)
        ≡ tasks_of session asked
  finish-fifo r task rest session inv below e h =
      let gone = if same (st.objects r).session session then task ∷ [] else [] in
      ap (λ w. w ++ waiting session (finish r st))
        (tasks_of-snoc session (st.objects r).session task over)
      ∙ append_assoc (tasks_of session over) gone (waiting session (finish r st))
      ∙ ap (λ w. tasks_of session over ++ w)
          (sym (finish-waiting st session r task rest (lookup session st.lanes) refl inv below e))
      ∙ h

-- In every run that enqueues tasks, starts the first task of an idle lane, and finishes the task that
-- runs in a lane: the tasks of a session that have finished, in the order in which they did, followed
-- by those that wait or run in its lane, are the tasks of the session in the order in which they were
-- enqueued.
pub Run-fifo :
    (st : Lanes) (asked over : List (Text × ℕ))
    → Run st asked over
    → (session : Text) → tasks_of session over ++ waiting session st ≡ tasks_of session asked
unfolding tasks_of lookup
Run-fifo _ _ _ begins session = refl
Run-fifo _ _ _ (enqueues st asked over s task run) session =
    enqueue-fifo st asked over s task session (Reach-LanesInv st (Run-Reach st asked over run))
      (Run-fifo st asked over run session)
Run-fifo _ _ _ (starts st asked over r run below idle work) session =
    ap (λ w. tasks_of session over ++ w) (start-waiting st session r)
    ∙ Run-fifo st asked over run session
Run-fifo _ _ _ (finishes st asked over r task rest run below busy e) session =
    finish-fifo st asked over r task rest session (Reach-LanesInv st (Run-Reach st asked over run))
      below e (Run-fifo st asked over run session)

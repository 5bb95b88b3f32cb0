-- ===== src/Lanes.antt =====
-- The class SessionLanes of src/queue.ts: one chain of promises for each session. Lane objects are
-- kept by number, since `finish` compares the object that it was given with the one in the map. A
-- task of a lane may start when the task before it has settled and `finish` has run for it, which is
-- what `lane.tail.then(task)` says; promises of different lanes settle in any order.
pub mod Order
mod Tests
use linear_agent_bridge.Base.{
  ℕ, ◌+◌, ◌-◌, ◌<◌, ◌≡◌, refl, sym, inl, inr, Bool, true, false, ◌&&◌, Option, none, some, List, [],
  ◌∷◌, ◌++◌, Text, Dict, length, lookup, put, remove, text_dec, ltb, ◌==◌, arith, Bool-cases,
  if◌then◌else◌,
}
use linear_agent_bridge.Base.Dicts.{lookup-put, lookup-remove}

-- `Lane`, with the tasks on its chain that have not finished, in order, whether the first of them
-- has started, and the session that the closure over it names.
pub record Lane : Type 0 where
  pub session : Text
  pub tasks : List ℕ
  pub running : Bool
  pub size : ℕ

pub record Lanes : Type 0 where
  pub lanes : Dict ℕ
  pub objects : ℕ → Lane
  pub next : ℕ

abbrev no_lane : Lane
no_lane = record { session = []; tasks = []; running = false; size = 0 }

abbrev pub no_lanes : Lanes
no_lanes = record { lanes = []; objects = λ n. no_lane; next = 0 }

abbrev pub set_object : ℕ → Lane → (ℕ → Lane) → ℕ → Lane
set_object r l objects n = if n == r then l else objects n

abbrev joined : ℕ → Lane → Lane
joined task l = record l { tasks = l.tasks ++ (task ∷ []); size = l.size + 1 }

abbrev pub enqueue_in : Lanes → Text → ℕ → Option ℕ → Lanes
enqueue_in st session task none = record st {
  lanes = put session st.next st.lanes;
  objects =
      set_object st.next
        (record { session = session; tasks = task ∷ []; running = false; size = 1 }) st.objects;
  next = st.next + 1;
}
enqueue_in st session task (some r) = record st {
  objects = set_object r (joined task (st.objects r)) st.objects;
}

-- `enqueue`
unfoldable pub enqueue : Text → ℕ → Lanes → Lanes
enqueue session task st = enqueue_in st session task (lookup session st.lanes)

-- The first task of a lane starts.
unfoldable pub start : ℕ → Lanes → Lanes
start r st = record st {
  objects = set_object r (record (st.objects r) { running = true }) st.objects;
}

abbrev rest_of : List ℕ → List ℕ
rest_of [] = []
rest_of (t ∷ ts) = ts

abbrev pub is_ref : ℕ → Option ℕ → Bool
is_ref r none = false
is_ref r (some n) = n == r

abbrev left_lane : Lane → Lane
left_lane l = record l { tasks = rest_of l.tasks; running = false; size = l.size - 1 }

-- The task that runs settles, and `finish` is called with its lane.
unfoldable pub finish : ℕ → Lanes → Lanes
finish r st =
    let l = left_lane (st.objects r) in
    record st {
      objects = set_object r l st.objects;
      lanes =
          if (l.size == 0) && is_ref r (lookup l.session st.lanes)
          then remove l.session st.lanes
          else st.lanes;
    }

-- `size`
abbrev size_in : Lanes → Option ℕ → ℕ
size_in st none = 0
size_in st (some r) = (st.objects r).size

unfoldable pub size : Text → Lanes → ℕ
size session st = size_in st (lookup session st.lanes)

abbrev pub has_task : List ℕ → Bool
has_task [] = false
has_task (t ∷ ts) = true

-- What can happen next.
pub data Step : Lanes → Lanes → Type 0 where
  enqueued : (st : Lanes) (session : Text) (task : ℕ) → Step st (enqueue session task st)
  started :
      (st : Lanes) (r : ℕ)
      → r < st.next
      → (st.objects r).running ≡ false
      → has_task (st.objects r).tasks ≡ true
      → Step st (start r st)
  finished :
      (st : Lanes) (r : ℕ) → r < st.next → (st.objects r).running ≡ true → Step st (finish r st)

pub data Reach : Lanes → Type 0 where
  begin : Reach no_lanes
  then_step : (st st' : Lanes) → Reach st → Step st st' → Reach st'

-- The number of tasks of a lane is its size, and only a task runs. A lane in the map is one of its
-- session with work left, and each lane with work left is in the map.
pub record LanesInv (st : Lanes) : Type 0 where
  pub counted : (r : ℕ) → r < st.next → (st.objects r).size ≡ length (st.objects r).tasks
  pub busy :
      (r : ℕ) → r < st.next → (st.objects r).running ≡ true → has_task (st.objects r).tasks ≡ true
  pub known :
      (session : Text) (r : ℕ)
      → lookup session st.lanes ≡ some r
      → (r < st.next) × ((st.objects r).session ≡ session)
  pub found :
      (r : ℕ)
      → r < st.next
      → has_task (st.objects r).tasks ≡ true
      → lookup (st.objects r).session st.lanes ≡ some r

length-snoc : (ts : List ℕ) (t : ℕ) → length (ts ++ (t ∷ [])) ≡ length ts + 1
length-snoc [] t = refl
length-snoc (x ∷ ts) t = ground (arith, length-snoc ts t)

has_task-snoc : (ts : List ℕ) (t : ℕ) → has_task (ts ++ (t ∷ [])) ≡ true
has_task-snoc [] t = refl
has_task-snoc (x ∷ ts) t = refl

length-rest_of : (ts : List ℕ) → length (rest_of ts) ≡ length ts - 1
length-rest_of [] = refl
length-rest_of (x ∷ ts) = omega arith

start-LanesInv :
    (st : Lanes) (r : ℕ)
    → has_task (st.objects r).tasks ≡ true
    → LanesInv st
    → LanesInv (start r st)
unfolding start
start-LanesInv st r h inv = record {
  counted = λ n lt. ground (arith, inv.counted n lt, inv.counted r);
  busy = λ n lt run. ground (arith, inv.busy n lt, h, run);
  known = λ session n e. ground (arith, inv.known session n e);
  found = λ n lt e. ground (arith, inv.found n lt, inv.found r, e);
}

enqueue_in-LanesInv :
    (st : Lanes) (session : Text) (task : ℕ) (o : Option ℕ)
    → lookup session st.lanes ≡ o
    → LanesInv st
    → LanesInv (enqueue_in st session task o)
enqueue_in-LanesInv st session task none e inv = record {
  counted = λ n lt. ground (arith, inv.counted n, lt);
  busy = λ n lt run. ground (arith, inv.busy n, lt, run);
  known = λ s n h. ground (arith, lookup-put s session st.next st.lanes, inv.known s n, h);
  found = λ n lt h. ground (
    arith,
    lookup-put session session st.next st.lanes,
    lookup-put (st.objects n).session session st.next st.lanes,
    inv.found n,
    lt,
    h,
    e,
  );
}
enqueue_in-LanesInv st session task (some r) e inv = record {
  counted = λ n lt. ground (arith, inv.counted n lt, length-snoc (st.objects r).tasks task);
  busy = λ n lt run. ground (arith, inv.busy n lt, has_task-snoc (st.objects r).tasks task, run);
  known = λ s n h. ground (arith, inv.known s n, h);
  found = λ n lt h. ground (arith, inv.found n lt, inv.known session r e, e, h);
}

finish-LanesInv :
    (st : Lanes) (r : ℕ)
    → r < st.next
    → (st.objects r).running ≡ true
    → LanesInv st
    → LanesInv (finish r st)
unfolding finish
finish-LanesInv st r below run inv = record {
  counted = λ n lt.
      ground (arith, inv.counted n lt, inv.counted r below, length-rest_of (st.objects r).tasks);
  busy = λ n lt h. ground (arith, inv.busy n lt, h);
  known =
      λ s n h. ground (arith, inv.known s n, lookup-remove s (st.objects r).session st.lanes, h);
  found = λ n lt h. ground (
    arith,
    inv.found n lt,
    inv.found r below,
    inv.counted r below,
    inv.busy r below run,
    length-rest_of (st.objects r).tasks,
    lookup-remove (st.objects n).session (st.objects r).session st.lanes,
    h,
  );
}

Step-LanesInv : (st st' : Lanes) → Step st st' → LanesInv st → LanesInv st'
unfolding enqueue
Step-LanesInv _ _ (enqueued st session task) inv =
    enqueue_in-LanesInv st session task (lookup session st.lanes) refl inv
Step-LanesInv _ _ (started st r below idle work) inv = start-LanesInv st r work inv
Step-LanesInv _ _ (finished st r below run) inv = finish-LanesInv st r below run inv

pub Reach-LanesInv : (st : Lanes) → Reach st → LanesInv st
unfolding lookup
Reach-LanesInv _ begin = record {
  counted = λ n lt. refl;
  busy = λ n lt h. ground (arith, lt);
  known = λ s n h. cc;
  found = λ n lt h. ground (arith, lt);
}
Reach-LanesInv _ (then_step st' st'' reach step) =
    Step-LanesInv st' st'' step (Reach-LanesInv st' reach)

-- In every state that can be reached by enqueuing tasks, and starting and finishing them: a lane
-- with a task that runs is the one lane of its session in the map, so that two lanes of one session
-- whose tasks run are the same lane; and `size` of its session is the number of its tasks that have
-- not finished.
pub Reach-alone :
    (st : Lanes)
    → Reach st
    → (r n : ℕ) → r < st.next
    → n < st.next
    → (st.objects r).running ≡ true
    → (st.objects n).running ≡ true
    → (st.objects r).session ≡ (st.objects n).session
    → (r ≡ n) × (size (st.objects r).session st ≡ length (st.objects r).tasks)
unfolding size
Reach-alone st reach r n below below' run run' same =
    let inv = Reach-LanesInv st reach in
    ground (
      arith,
      inv.found r below,
      inv.found n below',
      inv.busy r below run,
      inv.busy n below' run',
      inv.counted r below,
    )

-- ===== src/State/Disk.antt =====
-- The way an operation of src/state/store.ts reaches the disk: `writeState` replaces the file by a
-- rename, and `mutate` and `withFileLock` put the lock round an operation. Each step may fail, and
-- a process that dies there leaves the disk that the failure leaves.
use linear_agent_bridge.Base.{List, [], ◌∷◌, Text}
use linear_agent_bridge.State.Types.{Disposition, State, Error}
use linear_agent_bridge.State.Steps.{Steps, done, throw, write, Runs}
use linear_agent_bridge.State.Claiming.{ClaimResult}

-- A step that touches the file system succeeds, fails before the rename, or fails after it, where
-- the directory is synced.
pub data Fault : Type 0 where
  clean before after : Fault

pub data Outcome (A : Type 0) : Type 0 where
  ok : A → Outcome A
  err : Error → Outcome A

-- The writes of an operation against a plan of faults; a plan that is used up means no more.
unfoldable pub perform : {A : Type 0} → List Fault → Steps A → State → Outcome A × State
perform faults (done a) d = (ok a, d)
perform faults (throw e) d = (err e, d)
perform [] (write s k) d = perform [] k s
perform (clean ∷ faults) (write s k) d = perform faults k s
perform (before ∷ faults) (write s k) d = (err Error.io_error, d)
perform (after ∷ faults) (write s k) d = (err Error.io_error, s)

-- The lock was not got, the lock could not be released, or neither.
pub data LockFault : Type 0 where
  no_fault not_acquired not_released : LockFault

-- If the lock cannot be released the answer is lost; the disk is not.
abbrev pub lose_answer : {A : Type 0} → Outcome A × State → Outcome A × State
lose_answer (o, d) = (err Error.io_error, d)

-- `mutate` with `withFileLock`: the operation reads the state under the lock.
unfoldable pub mutate :
    {A : Type 0} → LockFault → List Fault → (State → Steps A) → State → Outcome A × State
unfolding perform
mutate no_fault faults operation d = perform faults (operation d) d
mutate not_acquired faults operation d = (err Error.lock_timeout, d)
mutate not_released faults operation d = lose_answer (perform faults (operation d) d)

abbrev pub is_claim : Disposition → List Text → Text → List Text
is_claim Disposition.claimed accepted webhook_id = webhook_id ∷ accepted
is_claim _ accepted webhook_id = accepted

-- `mutateClaim`: the set `locallyAcceptedPreDispatchClaims` grows only on an answer that arrives.
abbrev pub remember_claim : Outcome ClaimResult → List Text → List Text
remember_claim (ok a) accepted = is_claim a.disposition accepted (a.receipt).webhook_id
remember_claim (err e) accepted = accepted

-- A result, if there is one, and the disk satisfy `Q`.
abbrev pub OnOk : {A : Type 0} → (State → A → Type 0) → Outcome A × State → Type 0
OnOk Q (ok a, d) = Q d a
OnOk Q (err e, d) = Unit {0}

module _ {A : Type 0} (P : State → Type 0) (Q : State → A → Type 0) where
  -- Whatever fails, the disk holds a state that the operation wrote or found; an answer is true.
  pub perform-Runs :
      (faults : List Fault) (m : Steps A) (d : State)
      → P d
      → Runs P Q d m
      → P (perform faults m d).1 × OnOk Q (perform faults m d)
  unfolding perform
  perform-Runs faults (done a) d p h = (p, h)
  perform-Runs faults (throw e) d p h = (p, tt)
  perform-Runs [] (write s k) d p h = perform-Runs [] k s h.0 h.1
  perform-Runs (clean ∷ faults) (write s k) d p h = perform-Runs faults k s h.0 h.1
  perform-Runs (before ∷ faults) (write s k) d p h = (p, tt)
  perform-Runs (after ∷ faults) (write s k) d p h = (h.0, tt)

  pub mutate-Runs :
      (l : LockFault) (faults : List Fault) (operation : State → Steps A) (d : State)
      → P d
      → Runs P Q d (operation d)
      → P (mutate l faults operation d).1 × OnOk Q (mutate l faults operation d)
  unfolding mutate
  mutate-Runs no_fault faults operation d p h = perform-Runs faults (operation d) d p h
  mutate-Runs not_acquired faults operation d p h = (p, tt)
  mutate-Runs not_released faults operation d p h =
      ((perform-Runs faults (operation d) d p h).0, tt)

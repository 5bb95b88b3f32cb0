-- ===== src/Webhook/Recovering.antt =====
-- `recoverAcceptedIngressPass` of src/server.ts: the events that wait on disk are claimed and run
-- again, batch by batch. Between any two steps other processes may change the disk, and the server
-- may begin to close: what happens is a parameter.
use linear_agent_bridge.Base.{
  ℕ, zero, suc, ◌+◌, ◌≤◌, ◌<◌, ◌≡◌, ◌≢◌, refl, Bool, true, false, Option, none, some, List, [], ◌∷◌,
  arith,
}
use linear_agent_bridge.Base.Lists.{All}
use linear_agent_bridge.Recovery.Types.{Identity, Payload}
use linear_agent_bridge.State.Types.{Disposition, State, Env, Error}
use linear_agent_bridge.State.Checks.{max_safe_integer}
use linear_agent_bridge.State.Claiming.{ClaimResult}
use linear_agent_bridge.State.Disk.{Outcome, ok, err}
use linear_agent_bridge.State.Recoverable.{
  Recoverable, available, unavailable, assert_recoverable_events_available, list_recoverable_events,
}
use linear_agent_bridge.State.Recoverable.Listed.{IsWithin, list_recoverable_events-IsWithin}

-- The world that the pass runs in: the file that it reads, `deps.closing`, `claimEvent` with what
-- other processes did before it, and `processClaimedEvent`, whose answer says whether the event was
-- given back to be retried.
pub record World (W : Type 0) : Type 0 where
  pub env : Env
  pub disk : W → State
  pub is_closing : W → Bool
  pub claim : Identity → W → Outcome ClaimResult × W
  pub process : Identity → ℕ → Payload → W → Bool × W

-- How a pass ends; `out_of_fuel` is no end of the program's.
pub data PassEnd : Type 0 where
  finished closed retryable threw out_of_fuel : PassEnd

-- After a batch the loop goes on with `afterSequence`, or the pass ends.
pub data Batch : Type 0 where
  goes_on : (after_sequence : ℕ) → Batch
  ends : PassEnd → Batch

abbrev unless_closing : {R : Type 0} → Bool → R → R → R
unless_closing true closed_answer answer = closed_answer
unless_closing false closed_answer answer = answer

module _ {W : Type 0} where
  abbrev after_process : (W → Batch × W) → Bool × W → Batch × W
  after_process next (true, w) = (ends retryable, w)
  after_process next (false, w) = next w

  abbrev after_disposition :
      World W → (W → Batch × W) → Identity → ℕ → Payload → Disposition → W → Batch × W
  after_disposition world next i n p Disposition.claimed w =
      after_process next (world.process i n p w)
  after_disposition world next i n p _ w = next w

  abbrev after_claim :
      World W → (W → Batch × W) → Identity → ℕ → Payload → Outcome ClaimResult × W → Batch × W
  after_claim world next i n p (err x, w) = (ends threw, w)
  after_claim world next i n p (ok a, w) = after_disposition world next i n p a.disposition w

  -- The loop over one batch.
  unfoldable pub recover_batch : World W → List Recoverable → ℕ → W → Batch × W
  recover_batch world [] after_sequence w = (goes_on after_sequence, w)
  recover_batch world (unavailable i missing ∷ cs) after_sequence w =
      unless_closing (world.is_closing w) (ends closed, w) (ends threw, w)
  recover_batch world (available i n p ∷ cs) after_sequence w =
      let next = recover_batch world cs n in
      unless_closing (world.is_closing w) (ends closed, w)
        (after_claim world next i n p (world.claim i w))

  abbrev after_batch : (ℕ → W → PassEnd × W) → Batch × W → PassEnd × W
  after_batch next (ends e, w) = (e, w)
  after_batch next (goes_on n, w) = next n w

  unfoldable pub after_list :
      World W → (ℕ → W → PassEnd × W) → ℕ → Option (List Recoverable) → W → PassEnd × W
  unfolding recover_batch
  after_list world next n none w = (threw, w)
  after_list world next n (some []) w = (finished, w)
  after_list world next n (some (c ∷ cs)) w = after_batch next (recover_batch world (c ∷ cs) n w)

  -- The loop over the batches.
  unfoldable pub recover_from : World W → (fuel after_sequence : ℕ) → W → PassEnd × W
  unfolding after_list list_recoverable_events
  recover_from world zero n w = (out_of_fuel, w)
  recover_from world (suc fuel) n w =
      let next = recover_from world fuel in
      unless_closing (world.is_closing w) (closed, w)
        (after_list world next n (list_recoverable_events world.env (world.disk w) n) w)

  unfoldable pub after_check : World W → ℕ → Option Error → W → PassEnd × W
  unfolding recover_from
  after_check world fuel (some e) w = (threw, w)
  after_check world fuel none w = recover_from world fuel 0 w

  -- `recoverAcceptedIngressPass`
  unfoldable pub recover_accepted_ingress_pass : World W → (fuel : ℕ) → W → PassEnd × W
  unfolding after_check assert_recoverable_events_available
  recover_accepted_ingress_pass world fuel w =
      after_check world fuel (assert_recoverable_events_available world.env (world.disk w)) w

-- Where a batch goes on: after `low`, at a safe integer.
abbrev IsPast : ℕ → ℕ → Type 0
IsPast low n = (low < n) × (n ≤ max_safe_integer)

abbrev GoesPast : ℕ → Batch → Type 0
GoesPast low (goes_on n) = IsPast low n
GoesPast low (ends e) = e ≢ out_of_fuel

-- The batch has an event, or the loop stands at one of it.
abbrev Ready : ℕ → List Recoverable → ℕ → Type 0
Ready low [] n = IsPast low n
Ready low (c ∷ cs) n = Unit {0}

ready : (low : ℕ) (cs : List Recoverable) (n : ℕ) → IsPast low n → Ready low cs n
ready low [] n h = h
ready low (c ∷ cs) n h = tt

closed_ne : closed ≢ out_of_fuel
closed_ne e = cc

threw_ne : threw ≢ out_of_fuel
threw_ne e = cc

retryable_ne : retryable ≢ out_of_fuel
retryable_ne e = cc

finished_ne : finished ≢ out_of_fuel
finished_ne e = cc

module _ {W : Type 0} (world : World W) where
  unless_closing-holds :
      {R : Type 0} (P : R → Type 0) (b : Bool) (x y : R) → P x → P y → P (unless_closing b x y)
  unless_closing-holds P true x y h k = h
  unless_closing-holds P false x y h k = k

  after_process-GoesPast :
      (low : ℕ) (next : W → Batch × W) (r : Bool × W)
      → ((w : W) → GoesPast low (next w).0)
      → GoesPast low (after_process next r).0
  after_process-GoesPast low next (true, w) f = retryable_ne
  after_process-GoesPast low next (false, w) f = f w

  after_disposition-GoesPast :
      (low : ℕ) (next : W → Batch × W) (i : Identity) (n : ℕ) (p : Payload) (x : Disposition)
      (w : W)
      → ((w : W) → GoesPast low (next w).0)
      → GoesPast low (after_disposition world next i n p x w).0
  after_disposition-GoesPast low next i n p Disposition.claimed w f =
      after_process-GoesPast low next (world.process i n p w) f
  after_disposition-GoesPast low next i n p Disposition.received w f = f w
  after_disposition-GoesPast low next i n p Disposition.duplicate w f = f w
  after_disposition-GoesPast low next i n p Disposition.superseded w f = f w
  after_disposition-GoesPast low next i n p Disposition.ambiguous w f = f w

  after_claim-GoesPast :
      (low : ℕ) (next : W → Batch × W) (i : Identity) (n : ℕ) (p : Payload)
      (r : Outcome ClaimResult × W)
      → ((w : W) → GoesPast low (next w).0)
      → GoesPast low (after_claim world next i n p r).0
  after_claim-GoesPast low next i n p (err x, w) f = threw_ne
  after_claim-GoesPast low next i n p (ok a, w) f =
      after_disposition-GoesPast low next i n p a.disposition w f

  -- A batch of events after `low` goes on past `low`, or ends the pass.
  recover_batch-GoesPast :
      (low : ℕ) (cs : List Recoverable) (n : ℕ) (w : W)
      → All (IsWithin low) cs
      → Ready low cs n
      → GoesPast low (recover_batch world cs n w).0
  unfolding recover_batch
  recover_batch-GoesPast low [] n w h r = r
  recover_batch-GoesPast low (unavailable i missing ∷ cs) n w h r =
      unless_closing-holds {R = Batch × W} (λ x. GoesPast low x.0) (world.is_closing w)
        (ends closed, w) (ends threw, w) closed_ne threw_ne
  recover_batch-GoesPast low (available i m p ∷ cs) n w h r =
      let next = recover_batch world cs m in
      unless_closing-holds {R = Batch × W} (λ x. GoesPast low x.0) (world.is_closing w)
        (ends closed, w) (after_claim world next i m p (world.claim i w)) closed_ne
        (after_claim-GoesPast low next i m p (world.claim i w)
          λ w'. recover_batch-GoesPast low cs m w' h.1 (ready low cs m h.0))

  after_batch-ends :
      (low fuel : ℕ) (next : ℕ → W → PassEnd × W) (r : Batch × W)
      → max_safe_integer < low + suc fuel
      → ((n : ℕ) (w : W)
          → n ≤ max_safe_integer
          → max_safe_integer < n + fuel
          → (next n w).0 ≢ out_of_fuel)
      → GoesPast low r.0
      → (after_batch next r).0 ≢ out_of_fuel
  after_batch-ends low fuel next (ends e, w) k f h = h
  after_batch-ends low fuel next (goes_on n, w) k f h = f n w h.1 (omega (arith, h.0, k))

  after_list-ends :
      (low fuel : ℕ) (next : ℕ → W → PassEnd × W) (o : Option (List Recoverable)) (w : W)
      → max_safe_integer < low + suc fuel
      → ((n : ℕ) (w : W)
          → n ≤ max_safe_integer
          → max_safe_integer < n + fuel
          → (next n w).0 ≢ out_of_fuel)
      → ((cs : List Recoverable) → o ≡ some cs → All (IsWithin low) cs)
      → (after_list world next low o w).0 ≢ out_of_fuel
  unfolding after_list
  after_list-ends low fuel next none w k f h = threw_ne
  after_list-ends low fuel next (some []) w k f h = finished_ne
  after_list-ends low fuel next (some (c ∷ cs)) w k f h =
      after_batch-ends low fuel next (recover_batch world (c ∷ cs) low w) k f
        (recover_batch-GoesPast low (c ∷ cs) low w (h (c ∷ cs) refl) tt)

  recover_from-ends :
      (fuel n : ℕ) (w : W)
      → n ≤ max_safe_integer
      → max_safe_integer < n + fuel
      → (recover_from world fuel n w).0 ≢ out_of_fuel
  unfolding recover_from
  recover_from-ends zero n w h k = absurd (omega (arith, h, k))
  recover_from-ends (suc fuel) n w h k =
      let events = list_recoverable_events world.env (world.disk w) n in
      unless_closing-holds {R = PassEnd × W} (λ x. x.0 ≢ out_of_fuel) (world.is_closing w)
        (closed, w) (after_list world (recover_from world fuel) n events w) closed_ne
        (after_list-ends n fuel (recover_from world fuel) events w k (recover_from-ends fuel)
          λ cs e. (list_recoverable_events-IsWithin world.env (world.disk w) n cs e).0)

  after_check-ends :
      (o : Option Error) (fuel : ℕ) (w : W)
      → max_safe_integer < fuel
      → (after_check world fuel o w).0 ≢ out_of_fuel
  unfolding after_check
  after_check-ends (some e) fuel w h = threw_ne
  after_check-ends none fuel w h = recover_from-ends fuel 0 w (omega arith) (omega (arith, h))

  -- A recovery pass ends, whatever the disk becomes between its steps and whatever its calls answer:
  -- with fuel for each safe integer it does not run out of fuel.
  pub recover_accepted_ingress_pass-ends :
      (fuel : ℕ) (w : W)
      → max_safe_integer < fuel
      → (recover_accepted_ingress_pass world fuel w).0 ≢ out_of_fuel
  unfolding recover_accepted_ingress_pass
  recover_accepted_ingress_pass-ends fuel w h =
      after_check-ends (assert_recoverable_events_available world.env (world.disk w)) fuel w h

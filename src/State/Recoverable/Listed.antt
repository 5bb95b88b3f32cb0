-- ===== src/State/Recoverable/Listed.antt =====
-- src/state/store.ts: what listRecoverableEvents gives, and what assertRecoverableEventsAvailable
-- makes sure of.
use linear_agent_bridge.Base.{
  ℕ, zero, suc, ◌≤◌, ◌<◌, ◌≡◌, ◌≢◌, refl, subst, Bool, true, false, ◌&&◌, Option, none, some, List,
  [], ◌∷◌, map, length, ◌==◌, if◌then◌else◌, arith, select, sort_by, any, Bool-cases, inl, inr,
}
use linear_agent_bridge.Base.Lists.{All, All-map, select-All, sort_by-All}
use linear_agent_bridge.Recovery.Types.{Identity, Payload, Envelope, Vault}
use linear_agent_bridge.Recovery.Base64.{guarded}
use linear_agent_bridge.State.Types.{Receipt, State, Env, Error}
use linear_agent_bridge.State.Checks.{is_safe, max_safe_integer, active_recoverable_receipts}
use linear_agent_bridge.State.Recoverable.{
  Recoverable, available, unavailable, is_usable, opened, decode_with, decode_recoverable_receipt,
  recovery_state_is_bounded, check_available, assert_recoverable_events_available, is_above,
  is_listed_after, comes_before, first, recoverable_ingress_batch_size, list_recoverable_events,
}

-- An event that is available has a sequence after the given one, a safe integer.
abbrev pub IsWithin : ℕ → Recoverable → Type 0
IsWithin after_sequence (available i n p) = (after_sequence < n) × (n ≤ max_safe_integer)
IsWithin after_sequence (unavailable i missing) = Unit {0}

abbrev pub IsAvailable : Recoverable → Type 0
IsAvailable (available i n p) = Unit {0}
IsAvailable (unavailable i missing) = ⊥

opened-IsWithin :
    (after_sequence : ℕ) (i : Identity) (n : ℕ) (o : Option Payload)
    → after_sequence < n
    → n ≤ max_safe_integer
    → IsWithin after_sequence (opened i n o)
opened-IsWithin after_sequence i n none h k = tt
opened-IsWithin after_sequence i n (some p) h k = (h, k)

decode_with-IsWithin :
    (after_sequence : ℕ) (r : Receipt) (vault : Option Vault) (n : Option ℕ) (e : Option Envelope)
    → is_above after_sequence n ≡ true
    → IsWithin after_sequence (decode_with r vault n e)
decode_with-IsWithin after_sequence r vault none none h = tt
decode_with-IsWithin after_sequence r vault none (some e) h = tt
decode_with-IsWithin after_sequence r none (some n) e h = tt
decode_with-IsWithin after_sequence r (some vault) (some n) none h = tt
decode_with-IsWithin after_sequence r (some vault) (some n) (some e) h =
    elim (Bool-cases (is_usable n)) [
      | inl u ↦ rw u (
          opened-IsWithin after_sequence r.identity n (vault.open_ingress r.identity n e)
            (ground (arith, h)) (ground (arith, u)))
      | inr u ↦ rw u tt
    ]

module _ {A : Type 0} where
  select-true : (p : A → Bool) (xs : List A) → All (λ x. p x ≡ true) (select p xs)
  unfolding select
  select-true p [] = tt
  select-true p (x ∷ xs) = elim (Bool-cases (p x)) [
    | inl e ↦ rw e (e, select-true p xs)
    | inr e ↦ rw e (select-true p xs)
  ]

  first-All : (P : A → Type 0) (n : ℕ) (xs : List A) → All P xs → All P (first n xs)
  first-All P zero xs h = tt
  first-All P (suc n) [] h = tt
  first-All P (suc n) (x ∷ xs) h = (h.0, first-All P n xs h.1)

  length-first : (n : ℕ) (xs : List A) → length (first n xs) ≤ n
  length-first zero xs = omega arith
  length-first (suc n) [] = omega arith
  length-first (suc n) (x ∷ xs) = omega (arith, length-first n xs)

  map-All :
      {B : Type 0} (f : A → B) (P : B → Type 0) (xs : List A)
      → All (λ x. P (f x)) xs
      → All P (map f xs)
  map-All f P [] h = tt
  map-All f P (x ∷ xs) h = (h.0, map-All f P xs h.1)

  map-All_inv :
      {B : Type 0} (f : A → B) (P : B → Type 0) (xs : List A)
      → All P (map f xs)
      → All (λ x. P (f x)) xs
  map-All_inv f P [] h = tt
  map-All_inv f P (x ∷ xs) h = (h.0, map-All_inv f P xs h.1)

  length-map : {B : Type 0} (f : A → B) (xs : List A) → length (map f xs) ≡ length xs
  length-map f [] = refl
  length-map f (x ∷ xs) = omega (arith, length-map f xs)

some_ne : {A : Type 0} {a : A} → some a ≢ none
some_ne h = cc

true_ne : true ≢ false
true_ne h = cc

check_available-All :
    (cs : List Recoverable) (seen : List ℕ) (missing : Bool)
    → check_available cs seen missing ≡ none
    → All IsAvailable cs × (missing ≡ false)
unfolding check_available
check_available-All [] seen true h = cc
check_available-All [] seen false h = (tt, refl)
check_available-All (available i n p ∷ cs) seen missing h =
    elim (Bool-cases (any (λ m. m == n) seen)) [
      | inl e ↦ let thrown = rw e at h in absurd (some_ne thrown)
      | inr e ↦
          let rest = check_available-All cs (n ∷ seen) missing (rw e at h) in ((tt, rest.0), rest.1)
    ]
check_available-All (unavailable i false ∷ cs) seen missing h = absurd (some_ne h)
check_available-All (unavailable i true ∷ cs) seen missing h =
    let rest = check_available-All cs seen true h in absurd (true_ne rest.1)

-- What `listRecoverableEvents` answers: at most 16 events; each one that is available has a sequence
-- after the given one, a safe integer.
pub list_recoverable_events-IsWithin :
    (env : Env) (s : State) (after_sequence : ℕ) (cs : List Recoverable)
    → list_recoverable_events env s after_sequence ≡ some cs
    → All (IsWithin after_sequence) cs × (length cs ≤ 16)
unfolding list_recoverable_events decode_recoverable_receipt
list_recoverable_events-IsWithin env s after_sequence cs h =
    let found =
      sort_by (comes_before env)
        (select (is_listed_after after_sequence) (active_recoverable_receipts s)) in
    let after_all =
      sort_by-All (λ r. is_listed_after after_sequence r ≡ true) (comes_before env)
        (select (is_listed_after after_sequence) (active_recoverable_receipts s))
        (select-true (is_listed_after after_sequence) (active_recoverable_receipts s)) in
    let batch = first recoverable_ingress_batch_size found in
    let within =
      All-map (λ r. is_listed_after after_sequence r ≡ true)
        (λ r. IsWithin after_sequence (decode_recoverable_receipt env r)) batch
        (λ r a.
          decode_with-IsWithin after_sequence r env.vault r.recovery_sequence r.recovery_envelope a)
        (first-All (λ r. is_listed_after after_sequence r ≡ true) 16 found after_all) in
    let (tests, e) =
      guarded (is_safe after_sequence && recovery_state_is_bounded env s)
        (map (decode_recoverable_receipt env) batch) cs h in
    (
      subst (All (IsWithin after_sequence)) e
          (map-All (decode_recoverable_receipt env) (IsWithin after_sequence) batch within),
      subst (λ x. length x ≤ 16) e
          (omega (arith, length-map (decode_recoverable_receipt env) batch, length-first 16 found)),
    )

passed_check :
    (b : Bool) (o : Option Error)
    → (if b then o else some Error.recovery_envelope) ≡ none
    → o ≡ none
passed_check true o h = h
passed_check false o h = absurd (some_ne h)

-- When `assertRecoverableEventsAvailable` does not throw, `listRecoverableEvents` on the same state
-- gives available events only.
pub list_recoverable_events-IsAvailable :
    (env : Env) (s : State) (after_sequence : ℕ) (cs : List Recoverable)
    → assert_recoverable_events_available env s ≡ none
    → list_recoverable_events env s after_sequence ≡ some cs
    → All IsAvailable cs
unfolding assert_recoverable_events_available list_recoverable_events
list_recoverable_events-IsAvailable env s after_sequence cs passed h =
    let decode = decode_recoverable_receipt env in
    let active = active_recoverable_receipts s in
    let checked =
      passed_check (recovery_state_is_bounded env s) (check_available (map decode active) [] false)
        passed in
    let all =
      map-All_inv decode IsAvailable active
        (check_available-All (map decode active) [] false checked).0 in
    let P : Receipt → Type 0 = λ r. IsAvailable (decode r) in
    let kept = select-All P (is_listed_after after_sequence) active all in
    let sorted =
      sort_by-All P (comes_before env) (select (is_listed_after after_sequence) active) kept in
    let batch =
      first recoverable_ingress_batch_size
        (sort_by (comes_before env) (select (is_listed_after after_sequence) active)) in
    let (tests, e) =
      guarded (is_safe after_sequence && recovery_state_is_bounded env s) (map decode batch) cs h in
    subst (All IsAvailable) e (map-All decode IsAvailable batch (first-All P 16 _ sorted))

-- ===== src/State/Freshness.antt =====
-- What `createRecoveryEnvelope` of src/state/store.ts promises: the place that an event gets in the
-- order of recovery, the bound on waiting events, and the payload that can be read back.
use linear_agent_bridge.Base.{
  ℕ, ◌+◌, ◌≤◌, ◌<◌, max, ◌≡◌, refl, subst, inl, inr, Bool, true, false, not, Option, none, some,
  List, [], ◌∷◌, length, values, leb→le, arith, Bool-cases, get_or,
}
use linear_agent_bridge.Base.Lists.{All}
use linear_agent_bridge.Recovery.Types.{Identity, Payload, Envelope, Vault}
use linear_agent_bridge.Base.Options.{◌>>=◌, ◌>>◌, guard}
use linear_agent_bridge.State.Types.{Receipt, Fence, State, Env}
use linear_agent_bridge.State.Checks.{
  is_safe, max_safe_integer, is_valid_recovery_stop_fence, active_recoverable_receipts,
}
use linear_agent_bridge.State.Sequence.{
  safe_sequence, highest_of_receipts, highest_of_fences, is_bad_next, exceeds_capacity, Recovery,
  next_sequence, create_recovery_envelope,
}

bind-some :
    {A B : Type 0} (m : Option A) (f : A → Option B) (b : B)
    → (m >>= f) ≡ some b
    → (a : A) × (m ≡ some a) × (f a ≡ some b)
bind-some none f b h = cc
bind-some (some a) f b h = (a, refl, h)

guard-some :
    {B : Type 0} (t : Bool) (k : Option B) (b : B)
    → (guard t >> k) ≡ some b
    → (t ≡ true) × (k ≡ some b)
guard-some true k b h = (refl, h)
guard-some false k b h = cc

highest_of_receipts-bound :
    (rs : List Receipt) (n : ℕ)
    → highest_of_receipts rs < n
    → All (λ r. safe_sequence r.recovery_sequence < n) rs
unfolding highest_of_receipts
highest_of_receipts-bound [] n h = tt
highest_of_receipts-bound (r ∷ rs) n h =
    (omega (arith, h), highest_of_receipts-bound rs n (omega (arith, h)))

highest_of_fences-ge :
    (env : Env) (fs : List Fence) (m n : ℕ) → highest_of_fences env fs m ≡ some n → m ≤ n
unfolding highest_of_fences
highest_of_fences-ge env [] m n h = ground (arith, h)
highest_of_fences-ge env (f ∷ fs) m n h = elim (Bool-cases (is_valid_recovery_stop_fence env f)) [
  | inl e ↦ omega (arith, highest_of_fences-ge env fs (max m f.sequence) n (ground (arith, h, e)))
  | inr e ↦ ground (arith, h, e)
]

highest_of_fences-bound :
    (env : Env) (fs : List Fence) (m highest n : ℕ)
    → highest_of_fences env fs m ≡ some highest
    → highest < n
    → All (λ f. f.sequence < n) fs
unfolding highest_of_fences
highest_of_fences-bound env [] m highest n h lt = tt
highest_of_fences-bound env (f ∷ fs) m highest n h lt =
    elim (Bool-cases (is_valid_recovery_stop_fence env f)) [
      | inl e ↦
          let rest : highest_of_fences env fs (max m f.sequence) ≡ some highest =
            ground (arith, h, e) in
          (
            omega (arith, highest_of_fences-ge env fs (max m f.sequence) highest rest, lt),
            highest_of_fences-bound env fs (max m f.sequence) highest n rest lt,
          )
      | inr e ↦ absurd (ground (arith, h, e))
    ]

-- The payload can be read back under the sequence number it got.
abbrev pub Opens : Option Vault → Identity → Payload → Recovery → Type 0
Opens none i p r = ⊥
Opens (some vault) i p r = vault.open_ingress i r.sequence r.envelope ≡ some p

pub record IsFresh (env : Env) (s : State) (i : Identity) (p : Payload) (admitting : Bool)
    (r : Recovery) : Type 0 where
  pub after_receipts : All (λ x. safe_sequence x.recovery_sequence < r.sequence) (values s.receipts)
  pub after_fences : All (λ f. f.sequence < r.sequence) (values s.recovery_stop_fences)
  pub after_counter : get_or s.next_recovery_sequence 1 ≤ r.sequence
  pub counts : (r.state).next_recovery_sequence ≡ some (r.sequence + 1)
  pub safe : r.sequence < max_safe_integer
  pub room : admitting ≡ true → length (active_recoverable_receipts s) < env.max_recoverable_events
  pub opens : Opens env.vault i p r
  pub receipts : (r.state).receipts ≡ s.receipts
  pub claims : (r.state).claims ≡ s.claims

some_eq : {A : Type 0} {a b : A} → some a ≡ some b → a ≡ b
some_eq h = cc

-- The facts that the checks leave, put together.
module _ (env : Env) (s : State) (i : Identity) (p : Payload) (admitting : Bool) (vault : Vault)
    (highest : ℕ) (envelope : Envelope) where
  recovered : Recovery
  recovered = record {
    state = record s { next_recovery_sequence = some (next_sequence s highest + 1) };
    sequence = next_sequence s highest;
    envelope = envelope;
  }

  recovered-IsFresh :
      env.vault ≡ some vault
      → exceeds_capacity env s admitting ≡ false
      → highest_of_fences env
          (values s.recovery_stop_fences)
          (highest_of_receipts (values s.receipts))
        ≡ some highest
      → next_sequence s highest + 1 ≤ max_safe_integer
      → vault.seal_ingress i (next_sequence s highest) p ≡ some envelope
      → IsFresh env s i p admitting recovered
  unfolding recovered
  recovered-IsFresh keyring room found safe sealed = record {
    after_receipts =
        highest_of_receipts-bound (values s.receipts) (next_sequence s highest)
          (omega (arith, highest_of_fences-ge env _ _ highest found));
    after_fences =
        highest_of_fences-bound env (values s.recovery_stop_fences) _ highest
          (next_sequence s highest) found (omega arith);
    after_counter = omega arith;
    counts = refl;
    safe = omega (arith, safe);
    room = λ e. ground (arith, room, e);
    opens = rw keyring (vault.open-seal_ingress i (next_sequence s highest) p envelope sealed);
    receipts = refl;
    claims = refl;
  }

  fresh :
      env.vault ≡ some vault
      → exceeds_capacity env s admitting ≡ false
      → highest_of_fences env
          (values s.recovery_stop_fences)
          (highest_of_receipts (values s.receipts))
        ≡ some highest
      → next_sequence s highest + 1 ≤ max_safe_integer
      → vault.seal_ingress i (next_sequence s highest) p ≡ some envelope
      → (r : Recovery) → ◌≡◌ {A = Option Recovery} (some recovered) (some r)
      → IsFresh env s i p admitting r
  unfolding recovered
  fresh keyring room found safe sealed r e =
      subst (IsFresh env s i p admitting) (some_eq e)
        (recovered-IsFresh keyring room found safe sealed)

-- An event that `createRecoveryEnvelope` lets in gets a sequence number after that of every receipt
-- and every stop fence on the disk and not before the counter, and the counter moves past it, below
-- 2^53 - 1; a new event is let in only below the bound on waiting events; the sealed payload opens
-- to the payload under the event's identity and number; and receipts and claims stay as they are.
pub create_recovery_envelope-IsFresh :
    (env : Env) (s : State) (i : Identity) (p : Payload) (admitting : Bool) (r : Recovery)
    → create_recovery_envelope env s i p admitting ≡ some r
    → IsFresh env s i p admitting r
unfolding create_recovery_envelope recovered
create_recovery_envelope-IsFresh env s i p admitting r h =
    let vault = bind-some env.vault _ r h in
    let room = guard-some (not (exceeds_capacity env s admitting)) _ r vault.2 in
    let highest =
      bind-some
        (highest_of_fences env (values s.recovery_stop_fences)
          (highest_of_receipts (values s.receipts)))
        _ r room.1 in
    let good_next = guard-some (not (is_bad_next s.next_recovery_sequence)) _ r highest.2 in
    let safe = guard-some (is_safe (next_sequence s highest.0)) _ r good_next.1 in
    let safe_next = guard-some (is_safe (next_sequence s highest.0 + 1)) _ r safe.1 in
    let sealed =
      bind-some ((vault.0).seal_ingress i (next_sequence s highest.0) p) _ r safe_next.1 in
    fresh env s i p admitting vault.0 highest.0 sealed.0 vault.1 (ground (arith, room.0)) highest.1
      (leb→le (next_sequence s highest.0 + 1) max_safe_integer safe_next.0) sealed.1 r sealed.2

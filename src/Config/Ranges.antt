-- ===== src/Config/Ranges.antt =====
-- src/config.ts: what each test of a variable makes sure of.
use linear_agent_bridge.Base.{
  ℕ, ◌≤◌, ◌≡◌, refl, Bool, true, false, ◌&&◌, Option, none, some, List, ◌∷◌, Text, text, length,
  same, leb, arith, Bool-cases, inl, inr, leb→le,
}
use linear_agent_bridge.Recovery.Base64.{conjuncts}
use linear_agent_bridge.Config.{runtime_of, positive_or}
use linear_agent_bridge.Config.Values.{
  Host, missing, invalid, Load, loaded, rejected_with, ◌>>=◌, ◌>>◌, demand, in_range,
  positive_integer, previous_values, is_recovery_key, all_keys, all_distinct, parse_recovery_keys,
  is_linear_uuid, checked_id, output_path, resolve_agent_output_path, optional_path, or_default,
}

unfoldable pub HasUuid : Option Text → Type 0
unfolding is_linear_uuid
HasUuid none = Unit
HasUuid (some t) = is_linear_uuid t ≡ true

-- `minimum <= n <= maximum`
abbrev pub Within : ℕ → ℕ → ℕ → Type 0
Within minimum maximum n = (minimum ≤ n) × (n ≤ maximum)

-- The primary key and up to four previous ones are canonical, and no key is given twice.
unfoldable pub AreKeys : Text → List Text → Type 0
unfolding all_keys all_distinct is_recovery_key
AreKeys primary previous =
    (is_recovery_key primary ≡ true)
    × (length previous ≤ 4)
    × (all_keys previous ≡ true)
    × (all_distinct (primary ∷ previous) ≡ true)

-- An exception is for a value, not for a missing variable.
abbrev pub Gives : {A : Type 0} → (A → Type 0) → Load A → Type 0
Gives Q (loaded a) = Q a
Gives Q (rejected_with (missing k)) = ⊥
Gives Q (rejected_with (invalid k)) = Unit

pub Gives->>= :
    {A B : Type 0} (Q : A → Type 0) (P : B → Type 0) (o : Load A) (f : A → Load B)
    → Gives Q o
    → ((a : A) → Q a → Gives P (f a))
    → Gives P (o >>= f)
Gives->>= Q P (loaded a) f h k = k a h
Gives->>= Q P (rejected_with (missing key)) f h k = absurd h
Gives->>= Q P (rejected_with (invalid key)) f h k = tt

demand-Gives : (b : Bool) (key : Text) → Gives (λ _. b ≡ true) (demand b key)
demand-Gives true key = refl
demand-Gives false key = tt

pub Gives-demand :
    {B : Type 0} (P : B → Type 0) (b : Bool) (key : Text) (k : Load B)
    → (b ≡ true → Gives P k)
    → Gives P (demand b key >> k)
Gives-demand P true key k h = h refl
Gives-demand P false key k h = tt

pub in_range-Gives-min :
    (minimum : ℕ) (o : Option ℕ) (key : Text)
    → Gives (λ n. minimum ≤ n) (in_range minimum none o key)
in_range-Gives-min minimum none key = tt
in_range-Gives-min minimum (some n) key =
    Gives-demand (λ x. minimum ≤ x) (leb minimum n) key (loaded n) (λ h. leb→le minimum n h)

pub in_range-Gives :
    (minimum maximum : ℕ) (o : Option ℕ) (key : Text)
    → Gives (Within minimum maximum) (in_range minimum (some maximum) o key)
in_range-Gives minimum maximum none key = tt
in_range-Gives minimum maximum (some n) key =
    Gives-demand (Within minimum maximum) (leb minimum n && leb n maximum) key (loaded n)
      (λ h. (ground arith, ground arith))

module _ (host : Host) where
  pub positive_or-Gives : (key value : Text) → Gives (λ n. 1 ≤ n) (positive_or host key value)
  unfolding positive_or positive_integer
  positive_or-Gives key value =
      in_range-Gives-min 1 (host.natural_of (or_default (host.env key) value)) key

  output_path-Gives :
      (resolved : Text) (o : Option Bool) → Gives (λ _. Unit {0}) (output_path host resolved o)
  unfolding output_path
  output_path-Gives resolved none =
      Gives-demand (λ _. Unit {0}) (host.mkdir resolved) (text "AGENT_OUTPUT_PATH")
        (loaded resolved) (λ _. tt)
  output_path-Gives resolved (some is_directory) =
      Gives-demand (λ _. Unit {0}) is_directory (text "AGENT_OUTPUT_PATH") _
        (λ _.
          Gives-demand (λ _. Unit {0}) (host.access resolved) (text "AGENT_OUTPUT_PATH")
            (loaded resolved) (λ _. tt))

  pub optional_path-Gives : (o : Option Text) → Gives (λ _. Unit {0}) (optional_path host o)
  unfolding resolve_agent_output_path
  optional_path-Gives none = tt
  optional_path-Gives (some t) =
      let resolved = host.resolve t in
      Gives->>= (λ _. Unit {0}) (λ _. Unit {0}) (output_path host resolved (host.stat resolved)) _
        (output_path-Gives resolved (host.stat resolved)) (λ p h. tt)

pub parse_recovery_keys-Gives :
    (primary : Text) (raw : Option Text) → Gives (AreKeys primary) (parse_recovery_keys primary raw)
unfolding parse_recovery_keys AreKeys
parse_recovery_keys-Gives primary raw =
    let previous = previous_values raw in
    let keys = all_keys previous in
    let distinct = all_distinct (primary ∷ previous) in
    Gives-demand (AreKeys primary) (is_recovery_key primary) (text "INGRESS_RECOVERY_KEY") _ (λ own.
      Gives-demand (AreKeys primary) (leb (length previous) 4 && (keys && distinct))
        (text "INGRESS_RECOVERY_PREVIOUS_KEYS") (loaded previous)
        (λ h.
          let (few, more) = conjuncts (leb (length previous) 4) (keys && distinct) h in
          let (canonical, apart) = conjuncts keys distinct more in
          (own, leb→le (length previous) 4 few, canonical, apart)))

pub checked_id-Gives : (o : Option Text) (key : Text) → Gives HasUuid (checked_id o key)
unfolding checked_id HasUuid
checked_id-Gives none key = tt
checked_id-Gives (some t) key =
    Gives-demand HasUuid (is_linear_uuid t) key (loaded (some t)) (λ h. h)

pub runtime_of-Gives : (t : Text) → Gives (λ _. Unit {0}) (runtime_of t)
runtime_of-Gives t = elim (Bool-cases (same t (text "claude"))) [
  | inl e ↦ rw e tt
  | inr e ↦ elim (Bool-cases (same t (text "codex"))) [
    | inl k ↦ rw (e, k) tt
    | inr k ↦ rw (e, k) tt
  ]
]

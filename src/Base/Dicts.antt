-- ===== src/Base/Dicts.antt =====
-- A plain object used as a map from strings: its entries in insertion order. (The keys are
-- webhook, execution and session ids, none of which is an array index, so insertion order is the
-- order of `Object.keys`.)
use mathlib.Core.Path.{◌≡◌, refl}
use mathlib.Core.Logic.{ite, ◌≢◌, inl, inr}
use mathlib.Core.Option.{Option, none, some}
use mathlib.Core.List.{List, [], ◌∷◌, map}
use native.Mathlib.Omega.{arith}
use linear_agent_bridge.Base.Strings.{Text, text_dec}
use linear_agent_bridge.Base.Lists.{All, All-map, Has}

abbrev pub Dict {ℓ} : Type ℓ → Type ℓ
Dict V = List (Text × V)

module _ {ℓ} {V : Type ℓ} where
  -- `m[k]`
  unfoldable pub lookup : Text → Dict V → Option V
  lookup k [] = none
  lookup k ((j, v) ∷ m) = ite (text_dec j k) (some v) (lookup k m)

  -- `m[k] = v`
  unfoldable pub put : Text → V → Dict V → Dict V
  put k v [] = (k, v) ∷ []
  put k v ((j, w) ∷ m) = ite (text_dec j k) ((j, v) ∷ m) ((j, w) ∷ put k v m)

  -- `delete m[k]`
  unfoldable pub remove : Text → Dict V → Dict V
  remove k [] = []
  remove k ((j, w) ∷ m) = ite (text_dec j k) (remove k m) ((j, w) ∷ remove k m)

  -- `Object.values(m)` and `Object.keys(m)`
  abbrev pub values : Dict V → List V
  values m = map (λ e. e.1) m

  abbrev pub keys : Dict V → List Text
  keys m = map (λ e. e.0) m

  pub lookup-put :
      (j k : Text) (v : V) (m : Dict V)
      → lookup j (put k v m) ≡ ite (text_dec k j) (some v) (lookup j m)
  unfolding lookup put
  lookup-put j k v [] = refl
  lookup-put j k v ((i, w) ∷ m) = ground (arith, lookup-put j k v m)

  pub lookup-put_self : (k : Text) (v : V) (m : Dict V) → lookup k (put k v m) ≡ some v
  lookup-put_self k v m = ground (arith, lookup-put k k v m)

  pub lookup-put_ne : (j k : Text) (v : V) (m : Dict V) → k ≢ j → lookup j (put k v m) ≡ lookup j m
  lookup-put_ne j k v m h = ground (arith, lookup-put j k v m)

  pub lookup-remove :
      (j k : Text) (m : Dict V) → lookup j (remove k m) ≡ ite (text_dec k j) none (lookup j m)
  unfolding lookup remove
  lookup-remove j k [] = ground arith
  lookup-remove j k ((i, w) ∷ m) = ground (arith, lookup-remove j k m)

  pub put-put : (k : Text) (v w : V) (m : Dict V) → put k v (put k w m) ≡ put k v m
  unfolding put
  put-put k v w [] = ground arith
  put-put k v w ((j, u) ∷ m) = ground (arith, put-put k v w m)

  -- No key stands twice.
  abbrev pub Distinct : Dict V → Type ℓ
  Distinct [] = Unit
  Distinct ((k, v) ∷ m) = (lookup k m ≡ none) × Distinct m

  pub put-Distinct : (k : Text) (v : V) (m : Dict V) → Distinct m → Distinct (put k v m)
  unfolding put lookup
  put-Distinct k v [] d = (refl, tt)
  put-Distinct k v ((j, w) ∷ m) d = ground (arith, put-Distinct k v m, lookup-put j k v m)

  pub remove-Distinct : (k : Text) (m : Dict V) → Distinct m → Distinct (remove k m)
  unfolding remove lookup
  remove-Distinct k [] d = tt
  remove-Distinct k ((j, w) ∷ m) d = ground (arith, remove-Distinct k m, lookup-remove j k m)

  weaken_entry :
      (j : Text) (w : V) (m : Dict V)
      → lookup j m ≡ none
      → (e : Text × V) → lookup e.0 m ≡ some e.1
      → lookup e.0 ((j, w) ∷ m) ≡ some e.1
  unfolding lookup
  weaken_entry j w m fresh e h = ground arith

  -- Each entry is what its key looks up.
  pub entries-lookup : (m : Dict V) → Distinct m → All (λ e. lookup e.0 m ≡ some e.1) m
  unfolding lookup
  entries-lookup [] d = tt
  entries-lookup ((j, w) ∷ m) d = (
    ground arith,
    All-map (λ e. lookup e.0 m ≡ some e.1) (λ e. lookup e.0 ((j, w) ∷ m) ≡ some e.1) m
        (weaken_entry j w m d.0) (entries-lookup m d.1),
  )

  pub values-All {κ} : (P : V → Type κ) (m : Dict V) → All (λ e. P e.1) m → All P (values m)
  values-All P [] h = tt
  values-All P (e ∷ m) h = (h.0, values-All P m h.1)

pub values-Has :
    {V : Type 0} (k : Text) (v : V) (m : Dict V) → lookup k m ≡ some v → Has (values m) v
unfolding lookup
values-Has k v [] h = cc
values-Has k v ((j, w) ∷ m) h = elim (text_dec j k) [
  | yes e ↦ inl (ground (arith, h, e))
  | no n ↦ inr (values-Has k v m (ground (arith, h, n)))
]

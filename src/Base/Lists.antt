-- ===== src/Base/Lists.antt =====
-- Selection by a Boolean test, counting, and `Array.prototype.sort` (a stable sort).
use mathlib.Core.Bool.{Bool, true, false}
use mathlib.Core.List.{List, [], ◌∷◌}
use Prim.Native.Nat.{◌≤◌}
use native.Mathlib.Omega.{arith}
use linear_agent_bridge.Base.Strings.{length}
use linear_agent_bridge.Base.Tests.{if◌then◌else◌, Bool-cases}
use mathlib.Core.Path.{◌≡◌, ◌∙◌, ap}
use mathlib.Core.Logic.{◌⊎◌, inl, inr}

module _ {ℓ} {A : Type ℓ} where
  -- `xs.filter(p)`
  unfoldable pub select : (A → Bool) → List A → List A
  select p [] = []
  select p (x ∷ xs) = let rest = select p xs in if p x then x ∷ rest else rest

  -- The stable insertion behind `xs.sort(compare)`; `before a b` is `compare(a, b) <= 0`.
  unfoldable pub insert_by : (A → A → Bool) → A → List A → List A
  insert_by before x [] = x ∷ []
  insert_by before x (y ∷ ys) = if before x y then x ∷ y ∷ ys else y ∷ insert_by before x ys

  unfoldable pub sort_by : (A → A → Bool) → List A → List A
  unfolding insert_by
  sort_by before [] = []
  sort_by before (x ∷ xs) = insert_by before x (sort_by before xs)

  -- `xs.some(p)`
  unfoldable pub any : (A → Bool) → List A → Bool
  any p [] = false
  any p (x ∷ xs) = if p x then true else any p xs

  pub length-select-le : (p : A → Bool) (xs : List A) → length (select p xs) ≤ length xs
  unfolding select
  length-select-le p [] = omega arith
  length-select-le p (x ∷ xs) = ground (arith, length-select-le p xs)

module _ {ℓ κ} {A : Type ℓ} where
  abbrev pub All : (A → Type κ) → List A → Type κ
  All P [] = Unit
  All P (x ∷ xs) = P x × All P xs

  pub All-map : (P Q : A → Type κ) (xs : List A) → ((x : A) → P x → Q x) → All P xs → All Q xs
  All-map P Q [] f h = tt
  All-map P Q (x ∷ xs) f h = (f x h.0, All-map P Q xs f h.1)

  pub select-All : (P : A → Type κ) (p : A → Bool) (xs : List A) → All P xs → All P (select p xs)
  unfolding select
  select-All P p [] h = tt
  select-All P p (x ∷ xs) h = elim (Bool-cases (p x)) [
    | inl e ↦ rw e (h.0, select-All P p xs h.1)
    | inr e ↦ rw e (select-All P p xs h.1)
  ]

  insert_by-All :
      (P : A → Type κ) (before : A → A → Bool) (x : A) (xs : List A)
      → P x
      → All P xs
      → All P (insert_by before x xs)
  unfolding insert_by
  insert_by-All P before x [] h hs = (h, tt)
  insert_by-All P before x (y ∷ ys) h hs = elim (Bool-cases (before x y)) [
    | inl e ↦ rw e (h, hs)
    | inr e ↦ rw e (hs.0, insert_by-All P before x ys h hs.1)
  ]

  pub sort_by-All :
      (P : A → Type κ) (before : A → A → Bool) (xs : List A) → All P xs → All P (sort_by before xs)
  unfolding sort_by
  sort_by-All P before [] h = tt
  sort_by-All P before (x ∷ xs) h =
      insert_by-All P before x (sort_by before xs) h.0 (sort_by-All P before xs h.1)

-- What is selected passes the test.
pub select-test {ℓ} :
    {A : Type ℓ} (p : A → Bool) (xs : List A) → All (λ x. p x ≡ true) (select p xs)
unfolding select
select-test p [] = tt
select-test p (x ∷ xs) = elim (Bool-cases (p x)) [
  | inl e ↦ rw e (e, select-test p xs)
  | inr e ↦ rw e (select-test p xs)
]

pub All-both {ℓ κ} :
    {A : Type ℓ} (P Q : A → Type κ) (xs : List A) → All P xs → All Q xs → All (λ x. P x × Q x) xs
All-both P Q [] h k = tt
All-both P Q (x ∷ xs) h k = ((h.0, k.0), All-both P Q xs h.1 k.1)

-- `xs.includes(x)`, for equal values.
abbrev pub Has : {A : Type 0} → List A → A → Type 0
Has [] x = ⊥
Has (y ∷ ys) x = (y ≡ x) ⊎ Has ys x

pub select-Has :
    {A : Type 0} (p : A → Bool) (xs : List A) (x : A) → p x ≡ true → Has xs x → Has (select p xs) x
unfolding select
select-Has p [] x t h = absurd h
select-Has p (y ∷ ys) x t (inl e) = rw (ap p e ∙ t) (inl e)
select-Has p (y ∷ ys) x t (inr h) = elim (Bool-cases (p y)) [
  | inl e ↦ rw e (inr (select-Has p ys x t h))
  | inr e ↦ rw e (select-Has p ys x t h)
]

swapped : {P Q R S : Type 0} → (P ⊎ R → S) → P ⊎ (Q ⊎ R) → Q ⊎ S
swapped f (inl q) = inr (f (inl q))
swapped f (inr (inl q)) = inl q
swapped f (inr (inr k)) = inr (f (inr k))

insert_by-Has :
    {A : Type 0} (before : A → A → Bool) (y : A) (ys : List A) (x : A)
    → (y ≡ x) ⊎ Has ys x
    → Has (insert_by before y ys) x
unfolding insert_by
insert_by-Has before y [] x h = h
insert_by-Has before y (z ∷ zs) x h = elim (Bool-cases (before y z)) [
  | inl e ↦ rw e h
  | inr e ↦ rw e (swapped (insert_by-Has before y zs x) h)
]

pub sort_by-Has :
    {A : Type 0} (before : A → A → Bool) (xs : List A) (x : A)
    → Has xs x
    → Has (sort_by before xs) x
unfolding sort_by
sort_by-Has before [] x h = h
sort_by-Has before (y ∷ ys) x (inl e) = insert_by-Has before y (sort_by before ys) x (inl e)
sort_by-Has before (y ∷ ys) x (inr h) =
    insert_by-Has before y (sort_by before ys) x (inr (sort_by-Has before ys x h))

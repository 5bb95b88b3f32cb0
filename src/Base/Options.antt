-- ===== src/Base/Options.antt =====
-- `Option` as a result: `none` is a thrown exception or an answer `undefined`.
use mathlib.Core.Path.{◌≡◌, refl}
use mathlib.Core.Bool.{Bool, true, false}
use mathlib.Core.Option.{Option, none, some}

infixl 5 ◌>>=◌ ◌>>◌
abbrev pub ◌>>=◌ : {A B : Type 0} → Option A → (A → Option B) → Option B
none >>= f = none
some a >>= f = f a

abbrev pub ◌>>◌ : {B : Type 0} → Option (Unit {0}) → Option B → Option B
m >> k = m >>= λ _. k

abbrev pub guard : Bool → Option (Unit {0})
guard true = some tt
guard false = none

-- What a chain gave comes from what each of its steps gave.
pub bind_inv :
    {A B : Type 0} (o : Option A) (f : A → Option B) (b : B)
    → (o >>= f) ≡ some b
    → (a : A) × (o ≡ some a) × (f a ≡ some b)
bind_inv none f b h = cc
bind_inv (some a) f b h = (a, refl, h)

pub guard_inv :
    {B : Type 0} (t : Bool) (k : Option B) (b : B)
    → (guard t >> k) ≡ some b
    → (t ≡ true) × (k ≡ some b)
guard_inv true k b h = (refl, h)
guard_inv false k b h = cc

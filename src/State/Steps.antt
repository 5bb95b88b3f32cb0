-- ===== src/State/Steps.antt =====
-- One operation of the store between `readState` and its result, as the writes that it makes: a
-- state is written, an exception is thrown, or the operation returns. The writes are kept apart
-- from the computation, so that a fault or a crash can be put at each of them (State.Disk).
use linear_agent_bridge.Base.{◌≡◌, refl, Bool, true, false, Option, none, some}
use linear_agent_bridge.State.Types.{State, Error}

pub data Steps (A : Type 0) : Type 0 where
  done : A → Steps A
  throw : Error → Steps A
  write : State → Steps A → Steps A

infixl 5 ◌>>=◌ ◌>>◌
abbrev pub ◌>>=◌ : {A B : Type 0} → Steps A → (A → Steps B) → Steps B
done a >>= f = f a
throw e >>= f = throw e
write s k >>= f = write s (k >>= f)

abbrev pub ◌>>◌ : {B : Type 0} → Steps (Unit {0}) → Steps B → Steps B
m >> k = m >>= λ _. k

-- `if (bad) throw e;`
abbrev pub throw_if : Bool → Error → Steps (Unit {0})
throw_if true e = throw e
throw_if false e = done tt

-- A value that must be there.
abbrev pub or_throw : {A : Type 0} → Option A → Error → Steps A
or_throw none e = throw e
or_throw (some a) e = done a

-- From a disk that holds `d`: every state that is written satisfies `P`, and the operation returns
-- only with a disk and a result that satisfy `Q`.
abbrev pub Runs : {A : Type 0} → (State → Type 0) → (State → A → Type 0) → State → Steps A → Type 0
Runs P Q d (done a) = Q d a
Runs P Q d (throw e) = Unit {0}
Runs P Q d (write s k) = P s × Runs P Q s k

pub Runs->>= :
    {A B : Type 0} (P : State → Type 0) (Q : State → A → Type 0) (R : State → B → Type 0)
    (m : Steps A) (f : A → Steps B) (d : State)
    → Runs P Q d m
    → ((d' : State) (a : A) → Q d' a → Runs P R d' (f a))
    → Runs P R d (m >>= f)
Runs->>= P Q R (done a) f d h k = k d a h
Runs->>= P Q R (throw e) f d h k = tt
Runs->>= P Q R (write s m) f d h k = (h.0, Runs->>= P Q R m f s h.1 k)

-- A test that throws is passed only if it fails.
pub Runs-throw_if :
    {B : Type 0} (P : State → Type 0) (R : State → B → Type 0) (b : Bool) (e : Error) (k : Steps B)
    (d : State)
    → (b ≡ false → Runs P R d k)
    → Runs P R d (throw_if b e >> k)
Runs-throw_if P R true e k d h = tt
Runs-throw_if P R false e k d h = h refl

pub Runs-or_throw :
    {A B : Type 0} (P : State → Type 0) (R : State → B → Type 0) (o : Option A) (e : Error)
    (f : A → Steps B) (d : State)
    → ((a : A) → o ≡ some a → Runs P R d (f a))
    → Runs P R d (or_throw o e >>= f)
Runs-or_throw P R none e f d h = tt
Runs-or_throw P R (some a) e f d h = h a refl

pub Runs-map :
    {A : Type 0} (P : State → Type 0) (Q R : State → A → Type 0) (m : Steps A) (d : State)
    → Runs P Q d m
    → ((d' : State) (a : A) → Q d' a → R d' a)
    → Runs P R d m
Runs-map P Q R (done a) d h k = k d a h
Runs-map P Q R (throw e) d h k = tt
Runs-map P Q R (write s m) d h k = (h.0, Runs-map P Q R m s h.1 k)

-- An operation, or a check at its start, that writes nothing.
abbrev pub Quiet : {A : Type 0} → Steps A → Type 0
Quiet (done a) = Unit {0}
Quiet (throw e) = Unit {0}
Quiet (write s k) = ⊥

pub throw_if-Quiet : (b : Bool) (e : Error) → Quiet (throw_if b e)
throw_if-Quiet true e = tt
throw_if-Quiet false e = tt

pub >>-Quiet :
    {B : Type 0} (m : Steps (Unit {0})) (k : Steps B) → Quiet m → Quiet k → Quiet (m >> k)
>>-Quiet (done a) k h h' = h'
>>-Quiet (throw e) k h h' = tt
>>-Quiet (write s m) k h h' = h

pub Runs-Quiet :
    {A B : Type 0} (P : State → Type 0) (R : State → B → Type 0) (m : Steps A) (f : A → Steps B)
    (d : State)
    → Quiet m
    → ((a : A) → m ≡ done a → Runs P R d (f a))
    → Runs P R d (m >>= f)
Runs-Quiet P R (done a) f d h k = k a refl
Runs-Quiet P R (throw e) f d h k = tt
Runs-Quiet P R (write s m) f d h k = absurd h

-- A chain that returns at once: each of its parts did.
pub >>=-eq-done :
    {A B : Type 0} (m : Steps A) (f : A → Steps B) (b : B)
    → (m >>= f) ≡ done b
    → (a : A) × (m ≡ done a) × (f a ≡ done b)
>>=-eq-done (done a) f b h = (a, refl, h)
>>=-eq-done (throw e) f b h = cc
>>=-eq-done (write s m) f b h = cc

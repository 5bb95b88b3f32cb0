-- ===== src/Base/Strings.antt =====
-- Strings of the program: a JavaScript string is the list of its UTF-16 code units, so `length`
-- is `.length`, and two strings are `===` when the lists are equal.
use Prim.Native.Nat.{ℕ, suc}
use Prim.Native.Char.{code}
use Prim.Native.String.{String}
use mathlib.Core.Path.{◌≡◌, refl}
use mathlib.Core.Logic.{◌≢◌}
use mathlib.Core.Bool.{Bool, true, false}
use mathlib.Core.List.{List, [], ◌∷◌}
use native.Mathlib.Omega.{arith}
use native.Mathlib.Decide.{ℕ_discrete}

abbrev pub Text : Type 0
Text = List ℕ

-- A literal of the source, all ASCII.
abbrev pub text : String → Text
text String.[] = []
text (String.◌∷◌ c s) = code c ∷ text s

abbrev pub length {ℓ} : {A : Type ℓ} → List A → ℕ
length [] = 0
length (x ∷ xs) = suc (length xs)

cons_eq : {x y : ℕ} {xs ys : Text} → x ≡ y → xs ≡ ys → x ∷ xs ≡ y ∷ ys
cons_eq p q = cc

cons_ne_head : {x y : ℕ} (xs ys : Text) → x ≢ y → x ∷ xs ≢ y ∷ ys
cons_ne_head xs ys h e = h (ground arith)

cons_ne_tail : {xs ys : Text} (x y : ℕ) → xs ≢ ys → x ∷ xs ≢ y ∷ ys
cons_ne_tail x y h e = h (ground arith)

nil_ne_cons : (y : ℕ) (ys : Text) → ◌≢◌ {A = Text} [] (y ∷ ys)
nil_ne_cons y ys e = cc

cons_ne_nil : (y : ℕ) (ys : Text) → ◌≢◌ {A = Text} (y ∷ ys) []
cons_ne_nil y ys e = cc

unfoldable pub text_dec : Discrete Text
unfolding ℕ_discrete cons_eq cons_ne_head cons_ne_tail nil_ne_cons cons_ne_nil
text_dec [] [] = yes refl
text_dec [] (y ∷ ys) = no (nil_ne_cons y ys)
text_dec (x ∷ xs) [] = no (cons_ne_nil x xs)
text_dec (x ∷ xs) (y ∷ ys) = elim (ℕ_discrete x y) [
  | yes p ↦ elim (text_dec xs ys) [ yes q ↦ yes (cons_eq p q) | no q ↦ no (cons_ne_tail x y q) ]
  | no p ↦ no (cons_ne_head xs ys p)
]

-- `a === b`
abbrev pub same : Text → Text → Bool
same a b = elim (text_dec a b) [ yes _ ↦ true | no _ ↦ false ]

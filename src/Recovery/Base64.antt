-- ===== src/Recovery/Base64.antt =====
-- base64url without padding, as `Buffer` of Node writes and reads it, and the canonical decoding of
-- src/state/recovery-envelope.ts.
use linear_agent_bridge.Base.{
  ℕ, ◌+◌, ◌-◌, ◌*◌, ◌/◌, ◌%◌, ◌≤◌, ◌<◌, ◌≡◌, refl, sym, ap, subst, ◌∙◌, Bool, true, false, ◌&&◌,
  ◌||◌, Option, none, some, List, [], ◌∷◌, Text, length, same, ltb, leb, ◌==◌, arith, if◌then◌else◌,
}
use linear_agent_bridge.Base.Lists.{All}

-- A `Buffer`.
abbrev pub Bytes : Type 0
Bytes = List ℕ

abbrev pub AreBytes : Bytes → Type 0
AreBytes bs = All (λ b. b < 256) bs

-- The character of a sextet: A-Z, a-z, 0-9, "-" and "_".
abbrev pub char_of : ℕ → ℕ
char_of n =
    if ltb n 26
    then n + 65
    else if ltb n 52
    then n + 71
    else if ltb n 62
    then n - 4
    else if n == 62
    then 45
    else 95

abbrev is_between : ℕ → ℕ → ℕ → Bool
is_between low high c = leb low c && leb c high

-- `[A-Za-z0-9_-]`
abbrev pub is_char : ℕ → Bool
is_char c =
    is_between 65 90 c || (is_between 97 122 c || (is_between 48 57 c || ((c == 45) || (c == 95))))

abbrev pub value_of : ℕ → ℕ
value_of c =
    if is_between 65 90 c
    then c - 65
    else if is_between 97 122 c
    then c - 71
    else if is_between 48 57 c
    then c + 4
    else if c == 45
    then 62
    else 63

value_of-char_of : (n : ℕ) → n < 64 → value_of (char_of n) ≡ n
value_of-char_of n h = ground arith

is_char-char_of : (n : ℕ) → n < 64 → is_char (char_of n) ≡ true
is_char-char_of n h = ground arith

-- `toString("base64url")`
unfoldable pub to_base64url : Bytes → Text
to_base64url [] = []
to_base64url (a ∷ []) = char_of (a / 4) ∷ char_of ((a % 4) * 16) ∷ []
to_base64url (a ∷ b ∷ []) =
    char_of (a / 4) ∷ char_of ((a % 4) * 16 + b / 16) ∷ char_of ((b % 16) * 4) ∷ []
to_base64url (a ∷ b ∷ c ∷ bs) =
    char_of (a / 4)
    ∷ char_of ((a % 4) * 16 + b / 16)
    ∷ char_of ((b % 16) * 4 + c / 64)
    ∷ char_of (c % 64)
    ∷ to_base64url bs

-- `Buffer.from(value, "base64url")` on a string of the alphabet: bits that fill no byte are dropped.
unfoldable pub from_base64url : Text → Bytes
from_base64url [] = []
from_base64url (w ∷ []) = []
from_base64url (w ∷ x ∷ []) = (value_of w * 4 + value_of x / 16) ∷ []
from_base64url (w ∷ x ∷ y ∷ []) =
    (value_of w * 4 + value_of x / 16) ∷ ((value_of x % 16) * 16 + value_of y / 4) ∷ []
from_base64url (w ∷ x ∷ y ∷ z ∷ rest) =
    (value_of w * 4 + value_of x / 16)
    ∷ ((value_of x % 16) * 16 + value_of y / 4)
    ∷ ((value_of y % 4) * 64 + value_of z)
    ∷ from_base64url rest

cons_eq : {x y : ℕ} {xs ys : Text} → x ≡ y → xs ≡ ys → x ∷ xs ≡ y ∷ ys
cons_eq p q = cc

first_byte : (a b : ℕ) → a < 256 → b < 256 → (a / 4) * 4 + ((a % 4) * 16 + b / 16) / 16 ≡ a
first_byte a b h k = omega arith

second_byte :
    (a b c : ℕ)
    → b < 256
    → c < 256
    → (((a % 4) * 16 + b / 16) % 16) * 16 + ((b % 16) * 4 + c / 64) / 4 ≡ b
second_byte a b c h k = omega arith

third_byte : (b c : ℕ) → c < 256 → (((b % 16) * 4 + c / 64) % 4) * 64 + c % 64 ≡ c
third_byte b c h = omega arith

-- What is written is read back.
pub from_base64url-to_base64url : (bs : Bytes) → AreBytes bs → from_base64url (to_base64url bs) ≡ bs
unfolding from_base64url to_base64url
from_base64url-to_base64url [] h = refl
from_base64url-to_base64url (a ∷ []) h =
    ap (λ x. x ∷ [])
      (rw
        (
          value_of-char_of (a / 4) (omega (arith, h.0)),
          value_of-char_of ((a % 4) * 16) (omega arith),
        )
        (omega (arith, h.0)))
from_base64url-to_base64url (a ∷ b ∷ []) h =
    let first = value_of-char_of (a / 4) (omega (arith, h.0)) in
    let second = value_of-char_of ((a % 4) * 16 + b / 16) (omega (arith, h.1.0)) in
    let third = value_of-char_of ((b % 16) * 4) (omega arith) in
    rw (first, second, third)
      (cons_eq (first_byte a b h.0 h.1.0) (cons_eq (omega (arith, h.1.0)) refl))
from_base64url-to_base64url (a ∷ b ∷ c ∷ bs) h =
    let first = value_of-char_of (a / 4) (omega (arith, h.0)) in
    let second = value_of-char_of ((a % 4) * 16 + b / 16) (omega (arith, h.1.0)) in
    let third = value_of-char_of ((b % 16) * 4 + c / 64) (omega (arith, h.1.1.0)) in
    let fourth = value_of-char_of (c % 64) (omega arith) in
    rw (first, second, third, fourth)
      (cons_eq (first_byte a b h.0 h.1.0) (
        cons_eq (second_byte a b c h.1.0 h.1.1.0)
          (cons_eq (third_byte b c h.1.1.0) (from_base64url-to_base64url bs h.1.1.1))))

-- Four characters for three bytes.
pub length-to_base64url : (bs : Bytes) → length (to_base64url bs) ≡ (length bs * 4 + 2) / 3
unfolding to_base64url
length-to_base64url [] = omega arith
length-to_base64url (a ∷ []) = omega arith
length-to_base64url (a ∷ b ∷ []) = omega arith
length-to_base64url (a ∷ b ∷ c ∷ bs) = omega (arith, length-to_base64url bs)

-- `/^[A-Za-z0-9_-]*$/`
unfoldable pub all_chars : Text → Bool
all_chars [] = true
all_chars (c ∷ s) = let rest = all_chars s in is_char c && rest

pub all_chars-to_base64url : (bs : Bytes) → AreBytes bs → all_chars (to_base64url bs) ≡ true
unfolding all_chars to_base64url
all_chars-to_base64url [] h = refl
all_chars-to_base64url (a ∷ []) h =
    rw (is_char-char_of (a / 4) (omega (arith, h.0)), is_char-char_of ((a % 4) * 16) (omega arith))
      refl
all_chars-to_base64url (a ∷ b ∷ []) h =
    rw
      (
        is_char-char_of (a / 4) (omega (arith, h.0)),
        is_char-char_of ((a % 4) * 16 + b / 16) (omega (arith, h.1.0)),
        is_char-char_of ((b % 16) * 4) (omega arith),
      )
      refl
all_chars-to_base64url (a ∷ b ∷ c ∷ bs) h =
    rw
      (
        is_char-char_of (a / 4) (omega (arith, h.0)),
        is_char-char_of ((a % 4) * 16 + b / 16) (omega (arith, h.1.0)),
        is_char-char_of ((b % 16) * 4 + c / 64) (omega (arith, h.1.1.0)),
        is_char-char_of (c % 64) (omega arith),
        all_chars-to_base64url bs h.1.1.1,
      )
      refl

-- `exactLength` and `maximumLength` of `decodeCanonicalBase64url`.
pub data Size : Type 0 where
  exactly at_most : ℕ → Size

abbrev pub fits : Size → ℕ → Bool
fits (exactly n) m = m == n
fits (at_most n) m = leb m n

-- `Math.ceil((length * 4) / 3)`
abbrev encoded : Size → Size
encoded (exactly n) = exactly ((n * 4 + 2) / 3)
encoded (at_most n) = at_most ((n * 4 + 2) / 3)

-- The tests of `decodeCanonicalBase64url`: before the decoding, and after it.
abbrev is_encoding : Text → Size → Bool
is_encoding value size =
    ltb 0 (length value) && (all_chars value && fits (encoded size) (length value))

abbrev is_canonical : Text → Bytes → Size → Bool
is_canonical value decoded size = same (to_base64url decoded) value && fits size (length decoded)

-- `decodeCanonicalBase64url`; `none` is the exception.
unfoldable pub decode_canonical : Text → Size → Option Bytes
unfolding all_chars from_base64url to_base64url
decode_canonical value size =
    if is_encoding value size && is_canonical value (from_base64url value) size
    then some (from_base64url value)
    else none

pub some_eq : {A : Type 0} {x y : A} → some x ≡ some y → x ≡ y
some_eq h = cc

pub both : (x y : Bool) → x ≡ true → y ≡ true → (x && y) ≡ true
both true y h k = k
both false y h k = h

pub same_refl : (t : Text) → same t t ≡ true
same_refl t = ground arith

encoded-fits :
    (size : Size) (n : ℕ) → fits size n ≡ true → fits (encoded size) ((n * 4 + 2) / 3) ≡ true
encoded-fits (exactly m) n h = let e : n ≡ m = ground (arith, h) in rw e (ground arith)
encoded-fits (at_most m) n h = let e : n ≤ m = ground (arith, h) in ground (arith, e)

-- The canonical decoding reads what was written, if there is something and it has the size.
pub decode_canonical-to_base64url :
    (bs : Bytes) (size : Size)
    → AreBytes bs
    → 0 < length bs
    → fits size (length bs) ≡ true
    → decode_canonical (to_base64url bs) size ≡ some bs
unfolding decode_canonical
decode_canonical-to_base64url bs size h some_bytes fit =
    let before : is_encoding (to_base64url bs) size ≡ true = rw (length-to_base64url bs) (
      both _ _ (ground (arith, some_bytes))
        (both _ _ (all_chars-to_base64url bs h) (encoded-fits size (length bs) fit))) in
    let after : is_canonical (to_base64url bs) bs size ≡ true =
      both _ _ (same_refl (to_base64url bs)) fit in
    rw (from_base64url-to_base64url bs h, before, after) refl

pub guarded :
    {A : Type 0} (b : Bool) (x y : A) → (if b then some x else none) ≡ some y → (b ≡ true) × (x ≡ y)
guarded true x y h = (refl, some_eq h)
guarded false x y h = cc

pub conjuncts : (x y : Bool) → (x && y) ≡ true → (x ≡ true) × (y ≡ true)
conjuncts true y h = (refl, h)
conjuncts false y h = cc

pub same_eq : (a b : Text) → same a b ≡ true → a ≡ b
same_eq a b h = ground (arith, h)

-- What is decoded is what was written.
pub decode_canonical-inverse :
    (value : Text) (size : Size) (bs : Bytes)
    → decode_canonical value size ≡ some bs
    → to_base64url bs ≡ value
unfolding decode_canonical
decode_canonical-inverse value size bs h =
    let decoded = from_base64url value in
    let found = guarded (is_encoding value size && is_canonical value decoded size) decoded bs h in
    let tests = conjuncts (is_encoding value size) (is_canonical value decoded size) found.0 in
    let again =
      conjuncts (same (to_base64url decoded) value) (fits size (length decoded)) tests.1 in
    ap to_base64url (sym found.1) ∙ same_eq (to_base64url decoded) value again.0

-- What is decoded has the size asked for.
pub decode_canonical-fits :
    (value : Text) (size : Size) (bs : Bytes)
    → decode_canonical value size ≡ some bs
    → fits size (length bs) ≡ true
unfolding decode_canonical
decode_canonical-fits value size bs h =
    let decoded = from_base64url value in
    let found = guarded (is_encoding value size && is_canonical value decoded size) decoded bs h in
    let tests = conjuncts (is_encoding value size) (is_canonical value decoded size) found.0 in
    let again =
      conjuncts (same (to_base64url decoded) value) (fits size (length decoded)) tests.1 in
    subst (λ x. fits size (length x) ≡ true) found.1 again.1

pub eqb→eq : (a b : ℕ) → (a == b) ≡ true → a ≡ b
eqb→eq a b h = ground arith

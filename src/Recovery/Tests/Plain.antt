-- ===== src/Recovery/Tests/Plain.antt =====
-- A codec, a cipher, a digest and dates that have what src/state/recovery-envelope.ts relies on.
use linear_agent_bridge.Base.{
  ℕ, zero, suc, ◌+◌, ◌%◌, ◌<◌, ◌≡◌, refl, sym, ap, ◌∙◌, true, false, Option, none, some, List, [],
  ◌∷◌, ◌++◌, not, is_some, text_dec, Text, text, length, same, ltb, arith, if◌then◌else◌,
}
use linear_agent_bridge.Json.{
  whole, fraction, Json, boolean, number, string, array, object, Elements, nothing, element,
  Members, empty, member, is_flat, is_scalar, is_name, are_scalars, are_flat_members, field, Codec,
}
use linear_agent_bridge.Recovery.Base64.{Bytes, AreBytes, conjuncts, guarded, same_eq, same_refl}
use linear_agent_bridge.Recovery.Keyring.{Digest}
use linear_agent_bridge.Recovery.Payloads.{Dates}
use linear_agent_bridge.Recovery.Envelope.{Cipher}

-- Each number as ones before a zero.
abbrev pub ones : ℕ → Bytes → Bytes
ones zero bs = 0 ∷ bs
ones (suc n) bs = 1 ∷ ones n bs

abbrev pub unary : List ℕ → Bytes
unary [] = []
unary (n ∷ ns) = ones n (unary ns)

abbrev pub numbers : ℕ → Bytes → List ℕ
numbers count [] = []
numbers count (zero ∷ bs) = count ∷ numbers 0 bs
numbers count (suc b ∷ bs) = numbers (suc count) bs

numbers-ones : (count n : ℕ) (bs : Bytes) → numbers count (ones n bs) ≡ (count + n) ∷ numbers 0 bs
numbers-ones count zero bs = ap (λ n. n ∷ numbers 0 bs) (omega arith)
numbers-ones count (suc n) bs =
    numbers-ones (suc count) n bs ∙ ap (λ n. n ∷ numbers 0 bs) (omega arith)

head_tail : {m n : ℕ} {ms ns : List ℕ} → m ≡ n → ms ≡ ns → m ∷ ms ≡ n ∷ ns
head_tail h k = cc

pub numbers-unary : (ns : List ℕ) → numbers 0 (unary ns) ≡ ns
numbers-unary [] = refl
numbers-unary (n ∷ ns) = numbers-ones 0 n (unary ns) ∙ head_tail (omega arith) (numbers-unary ns)

ones-AreBytes : (n : ℕ) (bs : Bytes) → AreBytes bs → AreBytes (ones n bs)
ones-AreBytes zero bs h = (omega arith, h)
ones-AreBytes (suc n) bs h = (omega arith, ones-AreBytes n bs h)

pub unary-AreBytes : (ns : List ℕ) → AreBytes (unary ns)
unary-AreBytes [] = tt
unary-AreBytes (n ∷ ns) = ones-AreBytes n (unary ns) (unary-AreBytes ns)

-- A text before the rest, with its length.
abbrev put_text : Text → List ℕ → List ℕ
put_text t rest = length t ∷ t ++ rest

abbrev take_units : ℕ → List ℕ → Text × List ℕ
take_units zero ns = ([], ns)
take_units (suc k) [] = ([], [])
take_units (suc k) (n ∷ ns) = let (t, rest) = take_units k ns in (n ∷ t, rest)

abbrev get_text : List ℕ → Text × List ℕ
get_text [] = ([], [])
get_text (k ∷ ns) = take_units k ns

get_text-put_text : (t : Text) (rest : List ℕ) → get_text (put_text t rest) ≡ (t, rest)
get_text-put_text [] rest = refl
get_text-put_text (c ∷ t) rest = ap (λ x. (c ∷ x.0, x.1)) (get_text-put_text t rest)

abbrev put_scalar : Json → List ℕ → List ℕ
put_scalar (string t) rest = 0 ∷ put_text t rest
put_scalar (boolean false) rest = 1 ∷ rest
put_scalar (boolean true) rest = 2 ∷ rest
put_scalar (number (whole false n)) rest = 3 ∷ n ∷ rest
put_scalar _ rest = 4 ∷ rest

abbrev get_scalar : List ℕ → Json × List ℕ
get_scalar (zero ∷ ns) = let (t, rest) = get_text ns in (string t, rest)
get_scalar (suc zero ∷ ns) = (boolean false, ns)
get_scalar (suc (suc zero) ∷ ns) = (boolean true, ns)
get_scalar (suc (suc (suc zero)) ∷ n ∷ ns) = (number (whole false n), ns)
get_scalar ns = (Json.null, ns)

get_scalar-put_scalar :
    (v : Json) (rest : List ℕ) → is_scalar v ≡ true → get_scalar (put_scalar v rest) ≡ (v, rest)
get_scalar-put_scalar Json.null rest h = cc
get_scalar-put_scalar (boolean true) rest h = refl
get_scalar-put_scalar (boolean false) rest h = refl
get_scalar-put_scalar (number (whole true n)) rest h = cc
get_scalar-put_scalar (number (whole false n)) rest h = refl
get_scalar-put_scalar (number (fraction s n)) rest h = cc
get_scalar-put_scalar (string t) rest h = ap (λ x. (string x.0, x.1)) (get_text-put_text t rest)
get_scalar-put_scalar (array es) rest h = cc
get_scalar-put_scalar (object m) rest h = cc

abbrev put_elements : Elements → List ℕ
put_elements nothing = 0 ∷ []
put_elements (element v es) = 1 ∷ put_scalar v (put_elements es)

abbrev put_members : Members → List ℕ
put_members empty = 0 ∷ []
put_members (member k v m) = 1 ∷ put_text k (put_scalar v (put_members m))

-- The fuel is the length of what is read.
abbrev get_elements : ℕ → List ℕ → Elements
get_elements (suc fuel) (suc mark ∷ ns) =
    let (v, rest) = get_scalar ns in element v (get_elements fuel rest)
get_elements _ _ = nothing

abbrev get_members : ℕ → List ℕ → Members
get_members (suc fuel) (suc mark ∷ ns) =
    let (k, values) = get_text ns in
    let (v, rest) = get_scalar values in member k v (get_members fuel rest)
get_members _ _ = empty

abbrev count_elements : Elements → ℕ
count_elements nothing = 0
count_elements (element v es) = suc (count_elements es)

abbrev count_members : Members → ℕ
count_members empty = 0
count_members (member k v m) = suc (count_members m)

get_elements-put_elements :
    (es : Elements)
    → are_scalars es ≡ true
    → get_elements (count_elements es) (put_elements es) ≡ es
get_elements-put_elements nothing h = refl
get_elements-put_elements (element v es) h =
    let (first, others) = conjuncts (is_scalar v) (are_scalars es) h in
    rw (get_scalar-put_scalar v (put_elements es) first)
      (ap (element v) (get_elements-put_elements es others))

get_members-put_members :
    (m : Members) → are_flat_members m ≡ true → get_members (count_members m) (put_members m) ≡ m
get_members-put_members empty h = refl
get_members-put_members (member k v m) h =
    let (name, h1) = conjuncts (is_name k) _ h in
    let (first, h2) = conjuncts (is_scalar v) _ h1 in
    let (fresh, others) = conjuncts (not (is_some (field k m))) (are_flat_members m) h2 in
    rw
      (
        get_text-put_text k (put_scalar v (put_members m)),
        get_scalar-put_scalar v (put_members m) first,
      )
      (ap (member k v) (get_members-put_members m others))

abbrev pub put_json : Json → List ℕ
put_json (object m) = 0 ∷ count_members m ∷ put_members m
put_json (array es) = 1 ∷ count_elements es ∷ put_elements es
put_json _ = 2 ∷ []

abbrev pub get_json : List ℕ → Option Json
get_json (zero ∷ n ∷ ns) = some (object (get_members n ns))
get_json (suc zero ∷ n ∷ ns) = some (array (get_elements n ns))
get_json _ = none

pub get_json-put_json : (j : Json) → is_flat j ≡ true → get_json (put_json j) ≡ some j
unfolding is_flat field text_dec
get_json-put_json Json.null h = cc
get_json-put_json (boolean b) h = cc
get_json-put_json (number n) h = cc
get_json-put_json (string t) h = cc
get_json-put_json (array es) h = ap (λ x. some (array x)) (get_elements-put_elements es h)
get_json-put_json (object m) h = ap (λ x. some (object x)) (get_members-put_members m h)

ones-some : (n : ℕ) (bs : Bytes) → ltb 0 (length (ones n bs)) ≡ true
ones-some zero bs = ground arith
ones-some (suc n) bs = ground arith

pub put_json-some : (j : Json) → ltb 0 (length (unary (put_json j))) ≡ true
put_json-some Json.null = refl
put_json-some (boolean b) = refl
put_json-some (number n) = refl
put_json-some (string t) = refl
put_json-some (array es) = ones-some 1 (unary (count_elements es ∷ put_elements es))
put_json-some (object m) = ones-some 0 (unary (count_members m ∷ put_members m))

abbrev pub codec : Codec
codec = record {
  encode = λ j. unary (put_json j);
  decode = λ bs. get_json (numbers 0 bs);
  decode-encode = λ j h. ap get_json (numbers-unary (put_json j)) ∙ get_json-put_json j h;
  encode-AreBytes = λ j. unary-AreBytes (put_json j);
  encode-some = put_json-some;
}

-- A tag of 16 bytes that depends on all that is sealed.
abbrev pub sum : Bytes → ℕ
sum [] = 0
sum (b ∷ bs) = b + sum bs

abbrev pub repeat : ℕ → ℕ → Bytes
repeat zero b = []
repeat (suc n) b = b ∷ repeat n b

pub length-repeat : (n b : ℕ) → length (repeat n b) ≡ n
length-repeat zero b = refl
length-repeat (suc n) b = ap suc (length-repeat n b)

pub repeat-AreBytes : (n b : ℕ) → b < 256 → AreBytes (repeat n b)
repeat-AreBytes zero b h = tt
repeat-AreBytes (suc n) b h = (h, repeat-AreBytes n b h)

abbrev pub tag_of : (key nonce aad content : Bytes) → Bytes
tag_of key nonce aad content = repeat 16 ((sum key + (sum nonce + (sum aad + sum content))) % 256)

pub length-tag_of : (key nonce aad content : Bytes) → length (tag_of key nonce aad content) ≡ 16
length-tag_of key nonce aad content =
    length-repeat 16 ((sum key + (sum nonce + (sum aad + sum content))) % 256)

pub tag_of-AreBytes : (key nonce aad content : Bytes) → AreBytes (tag_of key nonce aad content)
tag_of-AreBytes key nonce aad content =
    repeat-AreBytes 16 ((sum key + (sum nonce + (sum aad + sum content))) % 256) (omega arith)

unfoldable pub open_with : Bytes → Bytes → Bytes → Option Bytes
unfolding text_dec
open_with expected tag content = if same expected tag then some content else none

pub open_with-same : (tag content : Bytes) → open_with tag tag content ≡ some content
unfolding open_with
open_with-same tag content = rw (same_refl tag) refl

pair_eq : {a b c d : Bytes} → a ≡ b → c ≡ d → ◌≡◌ {A = Bytes × Bytes} (a, c) (b, d)
pair_eq h k = cc

pub open_with_inverse :
    (key nonce aad ciphertext tag plaintext : Bytes)
    → open_with (tag_of key nonce aad ciphertext) tag ciphertext ≡ some plaintext
    → ◌≡◌ {A = Bytes × Bytes} (plaintext, tag_of key nonce aad plaintext) (ciphertext, tag)
unfolding open_with text_dec
open_with_inverse key nonce aad ciphertext tag plaintext h =
    let (matches, e) =
      guarded (same (tag_of key nonce aad ciphertext) tag) ciphertext plaintext h in
    pair_eq (sym e)
      (ap (tag_of key nonce aad) (sym e) ∙ same_eq (tag_of key nonce aad ciphertext) tag matches)

abbrev pub cipher : Cipher
unfolding open_with
cipher = record {
  encrypt = λ key nonce aad plaintext. (plaintext, tag_of key nonce aad plaintext);
  decrypt =
      λ key nonce aad ciphertext tag. open_with (tag_of key nonce aad ciphertext) tag ciphertext;
  decrypt-encrypt = λ key nonce aad plaintext long short plain.
      open_with-same (tag_of key nonce aad plaintext) plaintext;
  decrypt_inverse = open_with_inverse;
  length-ciphertext = λ key nonce aad plaintext. refl;
  length-tag = length-tag_of;
  ciphertext-AreBytes =
      λ key nonce aad plaintext plain. (plain, repeat-AreBytes 16 _ (omega arith));
}

abbrev pub padded : ℕ → Bytes → Bytes
padded zero bs = []
padded (suc n) [] = 0 ∷ padded n []
padded (suc n) (b ∷ bs) = b % 256 ∷ padded n bs

pub length-padded : (n : ℕ) (bs : Bytes) → length (padded n bs) ≡ n
length-padded zero bs = refl
length-padded (suc n) [] = ap suc (length-padded n [])
length-padded (suc n) (b ∷ bs) = ap suc (length-padded n bs)

pub padded-AreBytes : (n : ℕ) (bs : Bytes) → AreBytes (padded n bs)
padded-AreBytes zero bs = tt
padded-AreBytes (suc n) [] = (omega arith, padded-AreBytes n [])
padded-AreBytes (suc n) (b ∷ bs) = (omega arith, padded-AreBytes n bs)

abbrev pub digest : Digest
digest = record {
  key_digest = padded 16;
  length-key_digest = length-padded 16;
  key_digest-AreBytes = padded-AreBytes 16;
}

abbrev pub dates : Dates
dates = record {
  parse_date = λ t. some (length t);
  to_iso_string = λ ms. text "2026-01-01T00:00:00.000Z";
}

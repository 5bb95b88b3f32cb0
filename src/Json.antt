-- ===== src/Json.antt =====
-- The values that `JSON.parse` gives to src/server.ts and src/state/recovery-envelope.ts, and how
-- those files look into them. A record that is read has none of the names of `Object.prototype`.
use linear_agent_bridge.Base.{
  ℕ, ◌≡◌, Bool, true, false, not, ◌&&◌, Option, none, some, List, [], ◌∷◌, Text, length, same, any,
  ltb, leb, if◌then◌else◌, is_some,
}
use linear_agent_bridge.Recovery.Base64.{Bytes, AreBytes}

-- A finite double by its sign and its whole part; `fraction` lies strictly between `n` and `n + 1`,
-- or between their negatives.
pub data Number : Type 0 where
  whole fraction : (negative : Bool) (n : ℕ) → Number

mutual
  pub data Json : Type 0 where
    null : Json
    boolean : Bool → Json
    number : Number → Json
    string : Text → Json
    array : Elements → Json
    object : Members → Json

  pub data Elements : Type 0 where
    nothing : Elements
    element : Json → Elements → Elements

  -- The own properties in insertion order.
  pub data Members : Type 0 where
    empty : Members
    member : Text → Json → Members → Members

-- `record[key]`; `none` is `undefined`.
unfoldable pub field : Text → Members → Option Json
field key empty = none
field key (member k v m) = let rest = field key m in if same k key then some v else rest

unfoldable pub keys_of : Members → List Text
keys_of empty = []
keys_of (member k v m) = k ∷ keys_of m

-- `asRecord`: an object that is no array.
unfoldable pub as_record : Json → Option Members
as_record (object m) = some m
as_record _ = none

unfoldable pub as_string : Json → Option Text
as_string (string t) = some t
as_string _ = none

unfoldable pub as_boolean : Json → Option Bool
as_boolean (boolean b) = some b
as_boolean _ = none

abbrev all_in : List Text → List Text → Bool
all_in [] allowed = true
all_in (k ∷ ks) allowed = any (same k) allowed && all_in ks allowed

abbrev all_there : List Text → Members → Bool
all_there [] m = true
all_there (k ∷ ks) m = is_some (field k m) && all_there ks m

-- `hasExactKeys`; `allowed` is the required keys and the optional ones.
unfoldable pub has_exact_keys : Members → List Text → List Text → Bool
unfolding field keys_of any
has_exact_keys m required allowed = all_there required m && all_in (keys_of m) allowed

abbrev pub is_scalar : Json → Bool
is_scalar (string t) = true
is_scalar (boolean b) = true
is_scalar (number (whole false n)) = leb n 9007199254740991
is_scalar _ = false

-- The key is no array index, which `Object.keys` would move to the front.
abbrev pub is_name : Text → Bool
is_name [] = false
is_name (c ∷ s) = leb 65 c

abbrev pub are_flat_members : Members → Bool
are_flat_members empty = true
are_flat_members (member k v m) =
    is_name k && (is_scalar v && (not (is_some (field k m)) && are_flat_members m))

abbrev pub are_scalars : Elements → Bool
are_scalars nothing = true
are_scalars (element v es) = is_scalar v && are_scalars es

-- A value that `JSON.stringify` and `JSON.parse` give back as it is: strings, booleans and safe
-- natural numbers, under distinct names or in an array.
unfoldable pub is_flat : Json → Bool
unfolding field
is_flat (object m) = are_flat_members m
is_flat (array es) = are_scalars es
is_flat _ = false

-- `Buffer.from(JSON.stringify(value), "utf8")` and `JSON.parse(buffer.toString("utf8"))`, where
-- `none` is a `SyntaxError`. (`JSON.stringify` escapes lone surrogates, so UTF-8 loses nothing.)
pub record Codec : Type 0 where
  pub encode : Json → Bytes
  pub decode : Bytes → Option Json
  pub decode-encode : (j : Json) → is_flat j ≡ true → decode (encode j) ≡ some j
  pub encode-AreBytes : (j : Json) → AreBytes (encode j)
  pub encode-some : (j : Json) → ltb 0 (length (encode j)) ≡ true

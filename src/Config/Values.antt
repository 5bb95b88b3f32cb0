-- ===== src/Config/Values.antt =====
-- src/config.ts: how the variables are read and tested, one by one.
use linear_agent_bridge.Base.{
  ℕ, zero, suc, Bool, true, false, not, ◌&&◌, ◌||◌, Option, none, some, List, [], ◌∷◌, ◌++◌, Text,
  text, length, same, any, leb, ◌==◌, if◌then◌else◌, is_some,
}
use linear_agent_bridge.Recovery.Keyring.{parse_canonical_recovery_key}

-- What the module asks of its host: the variables, `Number(value)` if it is an integer that is not
-- negative, `path.resolve`, `process.cwd()`, and the calls of the file system, where `stat` is `none`
-- when it throws and else tells a directory, and the other two tell whether they do not throw.
pub record Host : Type 0 where
  pub env : Text → Option Text
  pub natural_of : Text → Option ℕ
  pub resolve : Text → Text
  pub cwd : Text
  pub stat : Text → Option Bool
  pub mkdir : Text → Bool
  pub access : Text → Bool

-- The exceptions, with the variable that they name.
pub data ConfigError : Type 0 where
  missing invalid : (key : Text) → ConfigError

pub data Load (A : Type 0) : Type 0 where
  loaded : A → Load A
  rejected_with : ConfigError → Load A

infixl 5 ◌>>=◌ ◌>>◌
abbrev pub ◌>>=◌ : {A B : Type 0} → Load A → (A → Load B) → Load B
loaded a >>= f = f a
rejected_with e >>= f = rejected_with e

abbrev pub ◌>>◌ : {B : Type 0} → Load (Unit {0}) → Load B → Load B
m >> k = m >>= λ _. k

-- `if (!good) throw new Error(...)`
abbrev pub demand : Bool → Text → Load (Unit {0})
demand true key = loaded tt
demand false key = rejected_with (invalid key)

-- A variable that is set and not empty.
abbrev pub set_value : Option Text → Option Text
set_value none = none
set_value (some []) = none
set_value (some (c ∷ t)) = some (c ∷ t)

abbrev pub or_missing : Option Text → Text → Load Text
or_missing none key = rejected_with (missing key)
or_missing (some t) key = loaded t

-- `requireEnv`
unfoldable pub require_env : Host → Text → Load Text
require_env host key = or_missing (set_value (host.env key)) key

abbrev pub in_range : ℕ → Option ℕ → Option ℕ → Text → Load ℕ
in_range minimum maximum none key = rejected_with (invalid key)
in_range minimum none (some n) key = demand (leb minimum n) key >> loaded n
in_range minimum (some maximum) (some n) key =
    demand (leb minimum n && leb n maximum) key >> loaded n

-- `positiveInteger`
unfoldable pub positive_integer : Host → Text → Text → Load ℕ
positive_integer host value key = in_range 1 none (host.natural_of value) key

-- `integerInRange`
unfoldable pub integer_in_range : Host → Text → Text → ℕ → ℕ → Load ℕ
integer_in_range host value key minimum maximum =
    in_range minimum (some maximum) (host.natural_of value) key

-- `value.split(",")`, behind the characters of the part that is read
abbrev pub split_comma : Text → Text → List Text
split_comma part [] = part ∷ []
split_comma part (c ∷ t) =
    let closed = split_comma [] t in
    let longer = split_comma (part ++ c ∷ []) t in if c == b',' then part ∷ closed else longer

abbrev pub previous_values : Option Text → List Text
previous_values none = []
previous_values (some []) = []
previous_values (some (c ∷ t)) = split_comma [] (c ∷ t)

unfoldable pub is_recovery_key : Text → Bool
unfolding parse_canonical_recovery_key
is_recovery_key value = is_some (parse_canonical_recovery_key value)

unfoldable pub all_keys : List Text → Bool
unfolding is_recovery_key
all_keys [] = true
all_keys (v ∷ values) = is_recovery_key v && all_keys values

-- `new Set(values).size === values.length`
unfoldable pub all_distinct : List Text → Bool
unfolding any
all_distinct [] = true
all_distinct (v ∷ values) = not (any (same v) values) && all_distinct values

-- `parseRecoveryKeys`
unfoldable pub parse_recovery_keys : Text → Option Text → Load (List Text)
unfolding is_recovery_key all_keys all_distinct
parse_recovery_keys primary previous_raw = do
  demand (is_recovery_key primary) (text "INGRESS_RECOVERY_KEY")
  demand
      (leb (length (previous_values previous_raw)) 4
        && (all_keys (previous_values previous_raw)
            && all_distinct (primary ∷ previous_values previous_raw)))
      (text "INGRESS_RECOVERY_PREVIOUS_KEYS")
  loaded (previous_values previous_raw)

-- The classes of characters of the pattern, read without regard to case.
pub data CharClass : Type 0 where
  hex dash version variant : CharClass

abbrev pub between : ℕ → ℕ → ℕ → Bool
between a b c = leb a c && leb c b

abbrev pub is_in : CharClass → ℕ → Bool
is_in CharClass.hex c = between b'0' b'9' c || (between b'a' b'f' c || between b'A' b'F' c)
is_in CharClass.dash c = c == b'-'
is_in CharClass.version c = between b'1' b'5' c
is_in CharClass.variant c = c == b'8' || (c == b'9' || (between b'a' b'b' c || between b'A' b'B' c))

abbrev pub matches : List CharClass → Text → Bool
matches [] [] = true
matches [] (c ∷ t) = false
matches (k ∷ ks) [] = false
matches (k ∷ ks) (c ∷ t) = is_in k c && matches ks t

abbrev pub hexes : ℕ → List CharClass → List CharClass
hexes zero ks = ks
hexes (suc n) ks = CharClass.hex ∷ hexes n ks

abbrev pub uuid_pattern : List CharClass
uuid_pattern = hexes 8 (
    CharClass.dash
    ∷ hexes 4 (
        CharClass.dash
        ∷ CharClass.version
        ∷ hexes 3 (CharClass.dash ∷ CharClass.variant ∷ hexes 3 (CharClass.dash ∷ hexes 12 []))))

-- The length and the pattern of `optionalLinearId`.
unfoldable pub is_linear_uuid : Text → Bool
is_linear_uuid value = leb (length value) 256 && matches uuid_pattern value

unfoldable pub checked_id : Option Text → Text → Load (Option Text)
unfolding is_linear_uuid
checked_id none key = loaded none
checked_id (some t) key = demand (is_linear_uuid t) key >> loaded (some t)

-- `optionalLinearId`
unfoldable pub optional_linear_id : Option Text → Text → Load (Option Text)
unfolding checked_id
optional_linear_id value key = checked_id (set_value value) key

-- `resolveAgentOutputPath`, by what `stat` says of the resolved path
unfoldable pub output_path : Host → Text → Option Bool → Load Text
output_path host resolved none =
    demand (host.mkdir resolved) (text "AGENT_OUTPUT_PATH") >> loaded resolved
output_path host resolved (some is_directory) = do
  demand is_directory (text "AGENT_OUTPUT_PATH")
  demand (host.access resolved) (text "AGENT_OUTPUT_PATH")
  loaded resolved

unfoldable pub resolve_agent_output_path : Host → Text → Load Text
unfolding output_path
resolve_agent_output_path host value =
    let resolved = host.resolve value in output_path host resolved (host.stat resolved)

abbrev pub optional_path : Host → Option Text → Load (Option Text)
optional_path host none = loaded none
optional_path host (some t) = resolve_agent_output_path host t >>= λ p. loaded (some p)

-- `a ?? b`
abbrev pub or_default : Option Text → Text → Text
or_default none d = d
or_default (some t) d = t

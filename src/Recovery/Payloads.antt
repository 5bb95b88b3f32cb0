-- ===== src/Recovery/Payloads.antt =====
-- src/state/recovery-envelope.ts: which payloads, notices and objectives may be sealed, and the
-- JSON values in which they are sealed.
use linear_agent_bridge.Base.{
  ℕ, ◌+◌, Bool, true, false, not, ◌&&◌, ◌||◌, Option, none, some, List, [], ◌∷◌, ◌++◌, Text, text,
  length, same, ltb, leb, ◌==◌, if◌then◌else◌,
}
use linear_agent_bridge.Base.Options.{◌>>=◌, ◌>>◌, guard}
use linear_agent_bridge.Json.{
  Json, boolean, string, object, Members, empty, member, field, as_record, as_string, as_boolean,
  has_exact_keys,
}
use linear_agent_bridge.Recovery.Types.{
  IngressAction, created, prompted, Identity, Payload, created_payload, prompted_payload,
  NoticeKind, NoticeIdentity, ObjectiveIdentity,
}

-- `Date.parse`, where `none` is NaN, and `new Date(ms).toISOString()`.
pub record Dates : Type 0 where
  pub parse_date : Text → Option ℕ
  pub to_iso_string : ℕ → Text

abbrev pub max_prompt_bytes : ℕ
max_prompt_bytes = 262144

abbrev pub max_ciphertext_bytes : ℕ
max_ciphertext_bytes = 264192

abbrev pub max_signal_length : ℕ
max_signal_length = 128

abbrev pub max_issue_identifier_length : ℕ
max_issue_identifier_length = 256

abbrev is_high : ℕ → Bool
is_high c = leb 55296 c && ltb c 56320

abbrev is_low : ℕ → Bool
is_low c = leb 56320 c && ltb c 57344

-- `Buffer.byteLength(value, "utf8")` of UTF-16 code units; a lone surrogate is written as U+FFFD.
unfoldable pub byte_length : Text → ℕ
byte_length [] = 0
byte_length (c ∷ []) = if ltb c 128 then 1 else if ltb c 2048 then 2 else 3
byte_length (c ∷ d ∷ s) =
    let after = byte_length s in
    let rest = byte_length (d ∷ s) in
    if ltb c 128
    then 1 + rest
    else if ltb c 2048
    then 2 + rest
    else if is_high c && is_low d
    then 4 + after
    else 3 + rest

-- The white space and the line ends that `trim` removes.
abbrev pub is_space : ℕ → Bool
is_space c =
    leb 9 c && leb c 13
    || ((c == 32)
        || ((c == 160)
            || ((c == 5760)
                || (leb 8192 c && leb c 8202
                    || ((c == 8232)
                        || ((c == 8233)
                            || ((c == 8239)
                                || ((c == 8287) || ((c == 12288) || (c == 65279))))))))))

unfoldable pub trim_start : Text → Text
trim_start [] = []
trim_start (c ∷ s) = let rest = trim_start s in if is_space c then rest else c ∷ s

-- `c` before the trimmed rest.
abbrev pub keep : ℕ → Text → Text
keep c [] = if is_space c then [] else c ∷ []
keep c (d ∷ s) = c ∷ d ∷ s

unfoldable pub trim_end : Text → Text
trim_end [] = []
trim_end (c ∷ s) = keep c (trim_end s)

-- `value.trim()`
unfoldable pub trim : Text → Text
unfolding trim_start trim_end
trim value = trim_end (trim_start value)

abbrev lower : ℕ → ℕ
lower c = if leb 65 c && leb c 90 then c + 32 else c

abbrev lower_all : Text → Text
lower_all [] = []
lower_all (c ∷ s) = lower c ∷ lower_all s

-- `/^stop[.!]?$/i`: without the flag `u` the case folding of `s`, `t`, `o`, `p` stays in ASCII.
unfoldable pub is_stop_word : Text → Bool
is_stop_word value =
    same (lower_all value) (text "stop")
    || (same (lower_all value) (text "stop.") || same (lower_all value) (text "stop!"))

abbrev pub has_text : Option Text → Text → Bool
has_text none value = false
has_text (some t) value = same t value

-- `isStopPrompt`
unfoldable pub is_stop_prompt : Text → Option Text → Bool
unfolding is_stop_word trim
is_stop_prompt prompt signal = has_text signal (text "stop") || is_stop_word (trim prompt)

abbrev pub is_iso : Dates → Text → Option ℕ → Bool
is_iso dates value none = false
is_iso dates value (some ms) = same (dates.to_iso_string ms) value

-- `isCanonicalRecoveryTimestamp`
unfoldable pub is_canonical_recovery_timestamp : Dates → Text → Bool
is_canonical_recovery_timestamp dates value =
    (length value == 24) && is_iso dates value (dates.parse_date value)

abbrev pub action_text : IngressAction → Text
action_text created = text "created"
action_text prompted = text "prompted"

-- `JSON.stringify` leaves out what is `undefined`.
abbrev pub optional : Text → Option Text → Members → Members
optional key none m = m
optional key (some value) m = member key (string value) m

-- A payload as `recoveryPayload` of src/server.ts builds it.
unfoldable pub payload_json : Payload → Json
payload_json (created_payload prompt at issue) = object (
    member (text "action") (string (text "created")) (
      member (text "occurredAt") (string at)
        (member (text "prompt") (string prompt) (optional (text "issueIdentifier") issue empty))))
payload_json (prompted_payload prompt at signal stop) = object (
    member (text "action") (string (text "prompted")) (
      member (text "occurredAt") (string at) (
        member (text "prompt") (string prompt)
          (member (text "stop") (boolean stop) (optional (text "signal") signal empty)))))

abbrev is_text_to : ℕ → Text → Bool
is_text_to limit value = ltb 0 (length value) && leb (length value) limit

-- A field that may be missing, else a string of 1 to `limit` units.
abbrev optional_text : ℕ → Option Json → Option (Option Text)
optional_text limit none = some none
optional_text limit (some (string t)) = if is_text_to limit t then some (some t) else none
optional_text limit (some _) = none

abbrev pub same_bool : Bool → Bool → Bool
same_bool true b = b
same_bool false b = not b

abbrev pub created_keys : List Text
created_keys = text "action" ∷ text "prompt" ∷ text "occurredAt" ∷ []

abbrev prompted_keys : List Text
prompted_keys = text "action" ∷ text "prompt" ∷ text "occurredAt" ∷ text "stop" ∷ []

-- The two branches of `validateRecoveryPayload`.
unfoldable pub validate_created : Members → Text → Text → Option Payload
unfolding has_exact_keys field
validate_created m prompt at = do
  guard (has_exact_keys m created_keys (created_keys ++ text "issueIdentifier" ∷ []))
  issue ← optional_text max_issue_identifier_length (field (text "issueIdentifier") m)
  some (created_payload prompt at issue)

unfoldable pub validate_prompted : Members → Text → Text → Option Payload
unfolding has_exact_keys field as_boolean is_stop_prompt
validate_prompted m prompt at = do
  guard (has_exact_keys m prompted_keys (prompted_keys ++ text "signal" ∷ []))
  stop ← field (text "stop") m >>= as_boolean
  signal ← optional_text max_signal_length (field (text "signal") m)
  guard (same_bool stop (is_stop_prompt prompt signal))
  some (prompted_payload prompt at signal stop)

abbrev pub validate_branch : IngressAction → Members → Text → Text → Option Payload
unfolding validate_created validate_prompted
validate_branch created = validate_created
validate_branch prompted = validate_prompted

-- `validateRecoveryPayload`: the value as a payload, or `none` for the exception.
unfoldable pub validate_recovery_payload : Dates → Identity → Json → Option Payload
unfolding as_record field as_string validate_created validate_prompted byte_length
    is_canonical_recovery_timestamp
validate_recovery_payload dates identity value = do
  m ← as_record value
  action ← field (text "action") m >>= as_string
  guard (same action (action_text identity.action))
  prompt ← field (text "prompt") m >>= as_string
  guard (leb (byte_length prompt) max_prompt_bytes)
  at ← field (text "occurredAt") m >>= as_string
  guard (is_canonical_recovery_timestamp dates at)
  validate_branch identity.action m prompt at

abbrev pub kind_text : NoticeKind → Text
kind_text NoticeKind.elicitation = text "elicitation"
kind_text NoticeKind.completion = text "completion"

-- `validateAutonomousGoalNotice`; its test of the kind is the type `NoticeKind`.
unfoldable pub validate_notice : NoticeIdentity → Text → Bool
unfolding byte_length
validate_notice identity body =
    is_text_to 512 identity.linear_session_id
    && (is_text_to 128 identity.activity_key
        && (ltb 0 (length body) && leb (byte_length body) max_prompt_bytes))

-- `validateAutonomousGoalObjective`
unfoldable pub validate_objective : ObjectiveIdentity → Text → Bool
unfolding byte_length
validate_objective identity objective =
    is_text_to 512 identity.linear_session_id
    && (is_text_to 512 identity.issue_id && leb (byte_length objective) max_prompt_bytes)

-- The object `{ [key]: value }` that a notice or an objective is sealed in.
abbrev pub boxed : Text → Text → Json
boxed key value = object (member key (string value) empty)

-- How the opened object is read: exactly the one key, with a string.
unfoldable pub unboxed : Text → Json → Option Text
unfolding as_record has_exact_keys field as_string
unboxed key value = do
  m ← as_record value
  guard (has_exact_keys m (key ∷ []) (key ∷ []))
  field key m >>= as_string

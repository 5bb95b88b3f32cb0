-- ===== src/Decision.antt =====
-- src/goals/protocol.ts: how the answer of an autonomous step is read as a decision.
pub mod RoundTrip
mod Tests
use linear_agent_bridge.Base.{
  ℕ, zero, suc, ◌+◌, ◌-◌, Bool, true, false, not, ◌&&◌, ◌||◌, Option, none, some, List, [], ◌∷◌,
  Text, text, length, same, leb, if◌then◌else◌,
}
use linear_agent_bridge.Base.Options.{◌>>=◌, ◌>>◌, guard}
use linear_agent_bridge.Json.{Json, Members, field, as_record, as_string}
use linear_agent_bridge.Recovery.Payloads.{trim}

-- `AutonomousGoalDecision`
pub data Decision : Type 0 where
  continues blocked : (message : Text) → Decision
  completed : (message verification : Text) → Decision

-- `RESULT_OPEN` and `RESULT_CLOSE`
abbrev pub result_open : Text
result_open = text "<linear_autonomous_result>"

abbrev pub result_close : Text
result_close = text "</linear_autonomous_result>"

abbrev pub max_result_field_length : ℕ
max_result_field_length = 20000

-- The text without its first `n` units, and its first `n` units.
unfoldable pub drop : ℕ → Text → Text
drop zero t = t
drop (suc n) [] = []
drop (suc n) (c ∷ t) = drop n t

unfoldable pub take : ℕ → Text → Text
take zero t = []
take (suc n) [] = []
take (suc n) (c ∷ t) = c ∷ take n t

-- `t.startsWith(s)` and `t.endsWith(s)`
unfoldable pub starts_with : Text → Text → Bool
unfolding take
starts_with t s = same (take (length s) t) s

unfoldable pub ends_with : Text → Text → Bool
unfolding drop
ends_with t s = leb (length s) (length t) && same (drop (length t - length s) t) s

-- `t.slice(a, -b)` for positive `b`
unfoldable pub inner : ℕ → ℕ → Text → Text
unfolding take drop
inner a b t = take (length t - (a + b)) (drop a t)

-- A text that is not blank, and not too long.
unfoldable pub is_result_field : Text → Bool
unfolding trim
is_result_field t = not (same (trim t) []) && leb (length t) max_result_field_length

abbrev verification_of : Members → Text → Option Decision
unfolding field as_string is_result_field trim
verification_of m message = do
  verification ← field (text "verification") m >>= as_string
  guard (is_result_field verification)
  some (completed (trim message) (trim verification))

-- The decision of a status; another status is none.
unfoldable pub decide : Members → Text → Text → Option Decision
unfolding field as_string is_result_field trim
decide m status message =
    if same status (text "completed")
    then verification_of m message
    else if same status (text "continue")
    then some (continues (trim message))
    else if same status (text "blocked")
    then some (blocked (trim message))
    else none

-- The tests of the parsed JSON.
unfoldable pub decision_of : Json → Option Decision
unfolding as_record field as_string is_result_field decide
decision_of value = do
  m ← as_record value
  status ← field (text "status") m >>= as_string
  message ← field (text "message") m >>= as_string
  guard (is_result_field message)
  decide m status message

-- `parseAutonomousGoalDecision`, where `parse` is `JSON.parse`, and `none` its exception.
unfoldable pub parse_autonomous_goal_decision : (Text → Option Json) → Text → Option Decision
unfolding trim starts_with ends_with inner decision_of
parse_autonomous_goal_decision parse response = do
  guard (starts_with (trim response) result_open && ends_with (trim response) result_close)
  value ← parse (trim (inner (length result_open) (length result_close) (trim response)))
  decision_of value

-- ===== src/Linear/Tokens.antt =====
-- src/linear/oauth.ts: the token pair of LinearOAuthTokenManager, how it is read from its file and
-- from an answer of Linear, and how a caller waits for a shared promise.
use linear_agent_bridge.Base.{
  Bool, true, false, not, ◌&&◌, Option, none, some, List, [], ◌∷◌, Text, text, ltb, if◌then◌else◌,
}
use linear_agent_bridge.Base.Options.{◌>>=◌, ◌>>◌, guard}
use linear_agent_bridge.Json.{Json, Number, whole, fraction, number, string, object, member, empty}
use linear_agent_bridge.Linear.Client.{member_of}
use linear_agent_bridge.Linear.Shapes.{string_of}

-- `StoredOAuthTokens`
pub record StoredTokens : Type 0 where
  pub access_token : Text
  pub refresh_token : Text
  pub expires_at : Text

-- The fields of `LinearOAuthTokenManager`, without the promise of the refresh.
pub record Manager : Type 0 where
  pub access_token : Text
  pub refresh_token : Option Text
  pub expires_at : Option Text
  pub loaded : Bool

-- The constructor, with `options.initialAccessToken`.
unfoldable pub create_manager : Text → Manager
create_manager initial = record {
  access_token = initial;
  refresh_token = none;
  expires_at = none;
  loaded = false;
}

-- What `readFile` gives: ENOENT, another error, or a file whose text `JSON.parse` takes or not.
pub data StoreFile : Type 0 where
  missing unreadable no_json : StoreFile
  holds : Json → StoreFile

-- `JSON.stringify(tokens, null, 2)`, parsed again
unfoldable pub stored_json : StoredTokens → Json
stored_json t = object (
    member (text "accessToken") (string t.access_token) (
      member (text "refreshToken") (string t.refresh_token)
        (member (text "expiresAt") (string t.expires_at) empty)))

-- The tests of `load`.
unfoldable pub parse_stored : Json → Option StoredTokens
unfolding string_of
parse_stored j = do
  access_token ← string_of (text "accessToken") (some j)
  refresh_token ← string_of (text "refreshToken") (some j)
  expires_at ← string_of (text "expiresAt") (some j)
  some
      record { access_token = access_token; refresh_token = refresh_token; expires_at = expires_at }

-- The three assignments of `load` and of `install`.
unfoldable pub take_tokens : StoredTokens → Manager → Manager
take_tokens t m = record m {
  access_token = t.access_token;
  refresh_token = some t.refresh_token;
  expires_at = some t.expires_at;
}

unfoldable pub load_from : StoreFile → Manager → Option Manager
unfolding parse_stored take_tokens
load_from StoreFile.missing m = some (record m { loaded = true })
load_from StoreFile.unreadable m = none
load_from StoreFile.no_json m = none
load_from (StoreFile.holds j) m = do
  t ← parse_stored j
  some (record (take_tokens t m) { loaded = true })

-- `load`; `none` is an exception, after which the manager is as it was.
unfoldable pub load : StoreFile → Manager → Option Manager
unfolding load_from
load file m = if m.loaded then some m else load_from file m

abbrev pub full_text : Option Text → Option Text
full_text none = none
full_text (some []) = none
full_text (some (c ∷ t)) = some (c ∷ t)

-- A number that is not below zero; every number of the model is finite.
abbrev pub is_duration : Number → Bool
is_duration (whole negative n) = not (negative && ltb 0 n)
is_duration (fraction negative n) = not negative

abbrev pub as_number : Json → Option Number
as_number (number n) = some n
as_number _ = none

-- `parseTokenResponse`, where `expiry` is `new Date(Date.now() + expires_in * 1000).toISOString()`,
-- which throws for a time that is out of range; `none` is an exception.
unfoldable pub parse_token_response : (Number → Option Text) → Json → Option StoredTokens
unfolding string_of member_of
parse_token_response expiry response = do
  access_token ← full_text (string_of (text "access_token") (some response))
  refresh_token ← full_text (string_of (text "refresh_token") (some response))
  expires_in ← member_of (text "expires_in") (some response) >>= as_number
  guard (is_duration expires_in)
  expires_at ← expiry expires_in
  some
      record { access_token = access_token; refresh_token = refresh_token; expires_at = expires_at }

-- What happens to a caller that waits for a promise: its signal aborts, or the promise is settled.
pub data Wait : Type 0 where
  aborts fulfils rejects : Wait

abbrev pub is_abort : Wait → Bool
is_abort Wait.aborts = true
is_abort _ = false

-- `waitForPromise`: the first event that `finish` sees, if there is one. Without a signal, aborts
-- are not seen; a signal that is aborted already comes first.
unfoldable pub wait_for_promise : (has_signal is_aborted : Bool) → List Wait → Option Wait
wait_for_promise true true events = some Wait.aborts
wait_for_promise has_signal is_aborted [] = none
wait_for_promise true false (e ∷ events) = some e
wait_for_promise false is_aborted (e ∷ events) =
    let rest = wait_for_promise false is_aborted events in if is_abort e then rest else some e

-- ===== src/Linear/Refreshing.antt =====
-- src/linear/oauth.ts: refreshAfterUnauthorized, refresh, install and persist of a manager that is
-- loaded, as the steps between their awaits, in any order of the callers and of the answers.
use linear_agent_bridge.Base.{
  ℕ, zero, suc, Bool, true, false, Option, none, some, List, [], ◌∷◌, Text, same, if◌then◌else◌,
}
use linear_agent_bridge.Base.Options
use linear_agent_bridge.Json.{Json, Number}
use linear_agent_bridge.Linear.Calls.{Response, is_ok}
use linear_agent_bridge.Linear.Tokens.{
  StoredTokens, Manager, StoreFile, holds, stored_json, take_tokens, parse_token_response,
}

-- Where the shared refresh stands: its request waits for the answer, or its pair is being write_at.
pub data Flight : Type 0 where
  asking : (refresh_token : Text) → Flight
  saving : StoredTokens → Flight

-- A manager with `refreshPromise`, its file, the pairs of authorizations that are being write_at,
-- the refresh tokens that were sent, the last first, those of them that were answered with a new
-- pair, and what the refreshes gave their callers, where `none` is an exception.
pub record Service : Type 0 where
  pub manager : Manager
  pub refreshing : Option Flight
  pub file : StoreFile
  pub authorizing : List StoredTokens
  pub sent : List Text
  pub replaced : List Text
  pub settled : List (Option Text)

-- What a caller of `refreshAfterUnauthorized` gets at once.
pub data Answer : Type 0 where
  current : Text → Answer
  waits refused : Answer

unfoldable pub start_refresh : Service → Option Text → Answer × Service
start_refresh s none = (Answer.refused, s)
start_refresh s (some t) =
    (Answer.waits, record s { refreshing = some (asking t); sent = t ∷ s.sent })

-- `this.refreshPromise ??= this.refresh()`
unfoldable pub join_refresh : Service → Option Flight → Answer × Service
unfolding start_refresh
join_refresh s none = start_refresh s s.manager.refresh_token
join_refresh s (some f) = (Answer.waits, s)

-- `refreshAfterUnauthorized`, up to the await of the shared promise
unfoldable pub refresh_after_unauthorized : Text → Service → Answer × Service
unfolding join_refresh
refresh_after_unauthorized failed s =
    if same failed s.manager.access_token
    then join_refresh s s.refreshing
    else (Answer.current s.manager.access_token, s)

-- How the write of a pair ends: it is in the file, the file is as it was, or the clean-up fails.
pub data SaveEnd : Type 0 where
  saved lost saved_with_error : SaveEnd

abbrev pub file_after : SaveEnd → StoredTokens → StoreFile → StoreFile
file_after SaveEnd.lost t file = file
file_after _ t file = holds (stored_json t)

abbrev pub is_saved : SaveEnd → Bool
is_saved SaveEnd.saved = true
is_saved _ = false

-- The refresh ends, and `finally` clears the promise.
unfoldable pub settle_refresh : Option Text → Service → Service
settle_refresh result s = record s { refreshing = none; settled = result ∷ s.settled }

unfoldable pub installed_by : Text → Option StoredTokens → Service → Service
unfolding settle_refresh take_tokens
installed_by used none s = settle_refresh none s
installed_by used (some t) s = record s {
  manager = take_tokens t s.manager;
  refreshing = some (saving t);
  replaced = used ∷ s.replaced;
}

abbrev pub ok_json : Response → Option Json
ok_json r = if is_ok r then r.json else none

abbrev pub json_of : Option Response → Option Json
json_of none = none
json_of (some r) = ok_json r

-- The pair in the answer to the request, if it has one.
unfoldable pub pair_of : (Number → Option Text) → Option Response → Option StoredTokens
unfolding parse_token_response
pair_of expiry o = Options.◌>>=◌ (json_of o) (parse_token_response expiry)

-- `refresh` and `install` from the answer to the request up to the write of the pair
unfoldable pub on_answer :
    (Number → Option Text) → Option Response → Service → Option Flight → Service
unfolding pair_of installed_by
on_answer expiry r s (some (asking used)) = installed_by used (pair_of expiry r) s
on_answer expiry r s (some (saving t)) = s
on_answer expiry r s none = s

-- The end of `persist` in a refresh, whose callers then get the access token of the manager.
unfoldable pub on_saved : SaveEnd → Service → Option Flight → Service
unfolding settle_refresh
on_saved e s (some (saving t)) =
    settle_refresh (if is_saved e then some s.manager.access_token else none)
      (record s { file = file_after e t s.file })
on_saved e s (some (asking used)) = s
on_saved e s none = s

unfoldable pub install_pair : Option StoredTokens → Service → Service
unfolding take_tokens
install_pair none s = s
install_pair (some t) s = record s {
  manager = take_tokens t s.manager;
  authorizing = t ∷ s.authorizing;
}

-- `install` of the answer to an authorization, up to the write of the pair
unfoldable pub install : (Number → Option Text) → Json → Service → Service
unfolding parse_token_response install_pair
install expiry response s = install_pair (parse_token_response expiry response) s

-- The write of a pair, the first of which has number 0, and the writes that are left.
abbrev pub write_at : ℕ → List StoredTokens → Option StoredTokens
write_at n [] = none
write_at zero (t ∷ rest) = some t
write_at (suc n) (t ∷ rest) = write_at n rest

abbrev pub writes_left : ℕ → List StoredTokens → List StoredTokens
writes_left n [] = []
writes_left zero (t ∷ rest) = rest
writes_left (suc n) (t ∷ rest) = t ∷ writes_left n rest

abbrev pub file_with : SaveEnd → Option StoredTokens → StoreFile → StoreFile
file_with e none file = file
file_with e (some t) file = file_after e t file

-- The end of the write of one of the pairs of authorizations, in any order.
unfoldable pub on_authorized : SaveEnd → ℕ → Service → Service
on_authorized e n s = record s {
  file = file_with e (write_at n s.authorizing) s.file;
  authorizing = writes_left n s.authorizing;
}

pub data TokenStep : Type 0 where
  unauthorized : (failed_access_token : Text) → TokenStep
  answer_arrives : Option Response → TokenStep
  saved_refresh : SaveEnd → TokenStep
  authorized : (response : Json) → TokenStep
  saved_authorized : SaveEnd → ℕ → TokenStep

module _ (expiry : Number → Option Text) where
  unfoldable pub token_step : TokenStep → Service → Service
  unfolding refresh_after_unauthorized on_answer on_saved install on_authorized
  token_step (unauthorized failed) s = (refresh_after_unauthorized failed s).1
  token_step (answer_arrives r) s = on_answer expiry r s s.refreshing
  token_step (saved_refresh e) s = on_saved e s s.refreshing
  token_step (authorized response) s = install expiry response s
  token_step (saved_authorized e n) s = on_authorized e n s

  unfoldable pub token_run : List TokenStep → Service → Service
  unfolding token_step
  token_run [] s = s
  token_run (e ∷ events) s = token_run events (token_step e s)

-- A manager that is loaded, before the first request.
unfoldable pub opened : Manager → StoreFile → Service
opened m file = record {
  manager = m;
  refreshing = none;
  file = file;
  authorizing = [];
  sent = [];
  replaced = [];
  settled = [];
}

-- ===== src/Linear/Calls.antt =====
-- src/linear/client.ts: what a call of the client sends and gets. An operation is a function of the
-- calls that were made before it, the latest first, so that the network may answer each of them in
-- any way, a refusal, a lost connection and an abort included.
use linear_agent_bridge.Base.{
  ℕ, Bool, true, false, ◌&&◌, Option, none, some, List, ◌∷◌, Text, leb, ◌==◌,
}
use linear_agent_bridge.Json.{Json}

-- The GraphQL documents with their variables; `first` is 50 in the two that have pages.
pub data Query : Type 0 where
  recent_agent_sessions : (after : Option Text) → Query
  agent_session_activities :
      (session_id : Text) (after : Option Text) (lookback_after : Text) → Query
  autonomous_goal_issue : (issue_id : Text) → Query
  complete_issue : (issue_id state_id : Text) → Query

-- The `input` of `agentActivityCreate`.
pub record Input : Type 0 where
  pub activity_id : Option Text
  pub agent_session_id : Text
  pub content : Json
  pub ephemeral : Option Bool

pub data Body : Type 0 where
  create_input : Input → Body
  query : Query → Body

-- A request of `fetch`: the bearer token and the body.
pub record Post : Type 0 where
  pub access_token : Text
  pub body : Body

-- `json` is `none` when `response.json()` rejects.
pub record Response : Type 0 where
  pub status : ℕ
  pub json : Option Json

pub data Call : Type 0 where
  checked_abort asked_token : Call
  asked_refresh : (failed_access_token : Text) → Call
  posted : Post → Call

-- The world outside the client: `fetch`, the token manager and the caller's signal, each asked with
-- the calls that went before. `none` is a rejected promise. `is_positive` is `value > 0` for a value
-- that is no number.
pub record Net : Type 0 where
  pub fetch : List Call → Post → Option Response
  pub get_access_token : List Call → Option Text
  pub renewed_access_token : List Call → Text → Option Text
  pub is_aborted : List Call → Bool
  pub is_positive : Json → Bool

-- `string | LinearOAuthTokenManager`
pub data TokenSource : Type 0 where
  fixed : Text → TokenSource
  manager : TokenSource

pub data QueryFailure : Type 0 where
  http graphql shape : QueryFailure

-- What an operation throws: what a promise outside the client rejects with, a `LinearActivityError`,
-- a `LinearQueryError`, or an `Error` for a bad argument.
pub data Failure : Type 0 where
  rejected : Failure
  activity_http activity_graphql activity_refused : Failure
  query_failed : QueryFailure → Failure
  bad_argument : Failure

-- `unfinished` is a loop that goes on.
pub data Result (A : Type 0) : Type 0 where
  done : A → Result A
  failed : Failure → Result A
  unfinished : Result A

abbrev pub Calls : Type 0 → Type 0
Calls A = List Call → Result A × List Call

abbrev pub continue : {A B : Type 0} → Result A → List Call → (A → Calls B) → Result B × List Call
continue (done a) log f = f a log
continue (failed e) log f = (failed e, log)
continue unfinished log f = (unfinished, log)

infixl 5 ◌>>=◌ ◌>>◌
abbrev pub ◌>>=◌ : {A B : Type 0} → Calls A → (A → Calls B) → Calls B
m >>= f = λ log. continue (m log).0 (m log).1 f

abbrev pub ◌>>◌ : {B : Type 0} → Calls (Unit {0}) → Calls B → Calls B
m >> k = m >>= λ _. k

abbrev pub give : {A : Type 0} → Result A → Calls A
give r = λ log. (r, log)

abbrev pub or_fail : {A : Type 0} → Failure → Option A → Result A
or_fail e none = failed e
or_fail e (some a) = done a

-- `if (bad) throw e;`
abbrev pub fail_if : Bool → Failure → Calls (Unit {0})
fail_if true e = give (failed e)
fail_if false e = give (done tt)

-- `response.ok`
abbrev pub is_ok : Response → Bool
is_ok r = leb 200 r.status && leb r.status 299

abbrev pub ended_by : Bool → Text → Result Text
ended_by true token = failed rejected
ended_by false token = done token

-- `LinearAgentClient.getAccessToken`
unfoldable pub access_token_of : Net → TokenSource → Calls Text
access_token_of net (fixed token) =
    λ log. (ended_by (net.is_aborted log) token, checked_abort ∷ log)
access_token_of net manager =
    λ log. (or_fail rejected (net.get_access_token log), asked_token ∷ log)

abbrev pub refresh : Net → Text → Calls Text
refresh net token =
    λ log. (or_fail rejected (net.renewed_access_token log token), asked_refresh token ∷ log)

-- `this.fetchFn(LINEAR_GRAPHQL_URL, { ... })`, as `postQuery` and `postActivity` call it
unfoldable pub post : Net → Body → Text → Calls Response
post net body token =
    let p : Post = record { access_token = token; body = body } in
    λ log. (or_fail rejected (net.fetch log p), posted p ∷ log)

-- `response.status === 401 && typeof this.tokenSource !== "string"`
abbrev pub may_refresh : TokenSource → Response → Bool
may_refresh (fixed token) r = false
may_refresh manager r = r.status == 401

unfoldable pub posted_again : Net → Body → Text → Bool → Response → Calls Response
unfolding post
posted_again net body token true r = refresh net token >>= post net body
posted_again net body token false r = give (done r)

-- The request that `createActivity` and `queryGraphQL` make, with a second try after a refresh.
unfoldable pub authorized_post : Net → TokenSource → Body → Calls Response
unfolding access_token_of post posted_again
authorized_post net source body = do
  token ← access_token_of net source
  r ← post net body token
  posted_again net body token (may_refresh source r) r

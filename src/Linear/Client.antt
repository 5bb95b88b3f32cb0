-- ===== src/Linear/Client.antt =====
-- src/linear/client.ts: LinearAgentClient.createActivity and queryGraphQL.
use linear_agent_bridge.Base.{
  ltb, Bool, true, false, not, Option, none, some, Text, text, length, if◌then◌else◌,
}
use linear_agent_bridge.Base.Options
use linear_agent_bridge.Json.{
  whole, fraction, Number, Json, null, boolean, number, string, array, object, element, field,
  as_record,
}
use linear_agent_bridge.Linear.Calls.{
  Query, Input, create_input, query, Response, Net, TokenSource, http, graphql, rejected,
  activity_http, activity_graphql, activity_refused, query_failed, Result, done, failed, Calls,
  ◌>>=◌, give, is_ok, authorized_post,
}

-- `asRecord(value)?.key`
unfoldable pub member_of : Text → Option Json → Option Json
unfolding field as_record
member_of key value = Options.◌>>=◌ (Options.◌>>=◌ value as_record) (field key)

abbrev is_number_positive : Number → Bool
is_number_positive (whole negative n) = if negative then false else ltb 0 n
is_number_positive (fraction negative n) = not negative

abbrev is_above_zero : Net → Option Json → Bool
is_above_zero net none = false
is_above_zero net (some (number n)) = is_number_positive n
is_above_zero net (some j) = net.is_positive j

-- `json.errors && json.errors.length > 0`
unfoldable pub has_errors : Net → Option Json → Bool
unfolding field
has_errors net (some (array (element j es))) = true
has_errors net (some (string t)) = ltb 0 (length t)
has_errors net (some (object m)) = is_above_zero net (field (text "length") m)
has_errors net _ = false

abbrev is_true : Option Json → Bool
is_true (some (boolean b)) = b
is_true _ = false

-- `json.data?.agentActivityCreate?.success === true`
unfoldable pub has_created : Json → Bool
unfolding member_of
has_created j = is_true (
    member_of (text "success")
      (member_of (text "agentActivityCreate") (member_of (text "data") (some j))))

-- A property of `null` is a TypeError.
unfoldable pub created_result : Net → Json → Result (Unit {0})
unfolding has_errors has_created member_of
created_result net null = failed rejected
created_result net j =
    if has_errors net (member_of (text "errors") (some j))
    then failed activity_graphql
    else if has_created j
    then done tt
    else failed activity_refused

unfoldable pub activity_result : Net → Response → Option Json → Result (Unit {0})
unfolding created_result
activity_result net r none = if is_ok r then failed rejected else failed activity_http
activity_result net r (some j) = if is_ok r then created_result net j else failed activity_http

-- `LinearAgentClient.createActivity`
unfoldable pub create_activity : Net → TokenSource → Input → Calls (Unit {0})
unfolding authorized_post activity_result
create_activity net source input = do
  r ← authorized_post net source (create_input input)
  give (activity_result net r r.json)

-- `Array.isArray(errors) && errors.length > 0`
abbrev pub has_error_list : Option Json → Bool
has_error_list (some (array (element j es))) = true
has_error_list _ = false

unfoldable pub query_result : Response → Option Json → Result Json
unfolding member_of
query_result r none = if is_ok r then failed rejected else failed (query_failed http)
query_result r (some j) =
    if is_ok r
    then if has_error_list (member_of (text "errors") (some j))
      then failed (query_failed graphql)
      else done j
    else failed (query_failed http)

-- `LinearAgentClient.queryGraphQL`
unfoldable pub query_graphql : Net → TokenSource → Query → Calls Json
unfolding authorized_post query_result
query_graphql net source q = do
  r ← authorized_post net source (query q)
  give (query_result r r.json)

-- ===== src/Linear/Tests.antt =====
-- Answers of a network to the client of src/linear/client.ts, and what the theorems say of them.
mod Tokens
use linear_agent_bridge.Base.{
  ◌≡◌, refl, sym, ap, ◌∙◌, Bool, true, false, none, some, List, [], ◌∷◌, Text, text, text_dec, same,
  any, arith, inl, if◌then◌else◌,
}
use linear_agent_bridge.Json.{
  Json, whole, null, boolean, number, string, array, object, nothing, element, empty, member, field,
  as_record, as_string, as_boolean,
}
use linear_agent_bridge.Recovery.Base64.{some_eq}
use linear_agent_bridge.Recovery.Payloads.{Dates}
use linear_agent_bridge.Linear.Calls.{
  Input, create_input, Post, Response, Net, fixed, manager, done, post, access_token_of,
  posted_again, authorized_post,
}
use linear_agent_bridge.Linear.Client.{
  member_of, has_errors, has_created, created_result, activity_result, create_activity,
}
use linear_agent_bridge.Linear.Sending.{Sends, IfDone, EndsWith}
use linear_agent_bridge.Linear.Delivery.{Accepts, create_activity-Accepts}
use linear_agent_bridge.Linear.Pages.{parse_page_info, as_list}
use linear_agent_bridge.Linear.Shapes.{
  string_of, SessionsPage, sessions_page, ActivitiesPage, activities_page,
}
use linear_agent_bridge.Linear.Sessions.{RecentOptions, list_recent_app_owned_sessions}
use linear_agent_bridge.Linear.Queries.{OnFinished, IsAnswer}
use linear_agent_bridge.Linear.Recent.{AreRecent, IsPaged, list_recent_app_owned_sessions-AreRecent}
use linear_agent_bridge.Linear.Activities.{ActivitiesOptions, list_agent_session_activities}
use linear_agent_bridge.Linear.Listed.{
  HasCursors, chosen_activities, list_agent_session_activities-ends,
}
use linear_agent_bridge.Linear.Tokens.{
  Manager, StoredTokens, StoreFile, stored_json, parse_stored, load, load_from, take_tokens,
  create_manager, parse_token_response, Wait, wait_for_promise,
}
use linear_agent_bridge.Linear.Refreshing.{
  TokenStep, unauthorized, answer_arrives, saved_refresh, SaveEnd, token_run, token_step, opened,
  refresh_after_unauthorized, join_refresh, start_refresh, on_answer, pair_of, installed_by,
}
use linear_agent_bridge.Linear.Spent.{
  Asks, AllRotate, Rotates, IsNew, is_among, refresh_after_unauthorized-Asks,
}

abbrev input : Input
input = record {
  activity_id = none;
  agent_session_id = text "session";
  content = null;
  ephemeral = none;
}

abbrev accepted : Json
accepted = object (
    member (text "data")
      (object (
        member (text "agentActivityCreate") (object (member (text "success") (boolean true) empty))
          empty))
      empty)

-- The token "old" is refused and "new" is accepted.
abbrev by_token : Post → Response
by_token p =
    if same p.access_token (text "old")
    then record { status = 401; json = none }
    else record { status = 200; json = some accepted }

abbrev net : Net
net = record {
  fetch = λ log p. some (by_token p);
  get_access_token = λ log. some (text "old");
  renewed_access_token = λ log failed. some (text "new");
  is_aborted = λ log. false;
  is_positive = λ j. false;
}

refreshed_once : (create_activity net manager input []).0 ≡ done tt
unfolding create_activity authorized_post access_token_of post posted_again activity_result
    created_result has_errors has_created member_of field as_record text_dec
refreshed_once = refl

create_activity-Accepts_example :
    Sends net manager (create_input input) [] (create_activity net manager input []).1
    × IfDone
        (λ _. EndsWith net (create_input input) (Accepts net))
        (create_activity net manager input [])
create_activity-Accepts_example = create_activity-Accepts net manager input []

-- Every text is the same date.
abbrev dates : Dates
dates = record { parse_date = λ t. some 0; to_iso_string = λ n. [] }

abbrev page_info : Json
page_info = object (
    member (text "hasNextPage") (boolean false)
      (member (text "endCursor") (string (text "c")) empty))

abbrev named : Text → Json
named t = object (member (text "id") (string t) empty)

abbrev session_node : Json
session_node = object (
    member (text "id") (string (text "session")) (
      member (text "updatedAt") (string (text "noon"))
        (member (text "appUser") (named (text "app")) empty)))

abbrev sessions_answer : Json
sessions_answer = object (
    member (text "data")
      (object (
        member (text "viewer") (named (text "app")) (
          member (text "agentSessions")
            (object (
              member (text "nodes") (array (element session_node nothing))
                (member (text "pageInfo") page_info empty)))
            empty)))
      empty)

-- A network that always gives this body.
abbrev giving : Json → Net
giving j = record net { fetch = λ log p. some (record { status = 200; json = some j }) }

giving-IsAnswer : (j k : Json) → IsAnswer (giving j) k → j ≡ k
giving-IsAnswer j k (log, p, r, fetched, json) = some_eq (ap (λ x. x.json) (some_eq fetched) ∙ json)

abbrev the_page : SessionsPage
the_page = record {
  viewer_id = text "app";
  nodes = session_node ∷ [];
  page_info = record { has_next_page = false; end_cursor = some (text "c") };
}

the_page_parsed : sessions_page sessions_answer ≡ some the_page
unfolding sessions_page parse_page_info string_of as_list member_of field as_record as_string
    as_boolean text_dec
the_page_parsed = refl

sessions-IsPaged : IsPaged (giving sessions_answer) (text "app") (text "c" ∷ [])
unfolding IsPaged
sessions-IsPaged j page answer parsed =
    let same_page : the_page ≡ page = some_eq (
      sym the_page_parsed
      ∙ (ap sessions_page (giving-IsAnswer sessions_answer j answer) ∙ parsed)) in
    (
      sym (ap (λ x. x.viewer_id) same_page),
      λ c e. inl (some_eq (ap (λ x. x.page_info.end_cursor) same_page ∙ e)),
    )

abbrev recent_options : RecentOptions
recent_options = record { updated_after = text "dawn"; max_sessions = 3 }

list_recent_app_owned_sessions-AreRecent_example :
    OnFinished (AreRecent dates recent_options (text "app")) (
      list_recent_app_owned_sessions
        (giving sessions_answer)
        (fixed (text "t"))
        dates
        recent_options
        2
        [])
list_recent_app_owned_sessions-AreRecent_example =
    list_recent_app_owned_sessions-AreRecent (giving sessions_answer) (fixed (text "t")) dates
      recent_options (text "app") (text "c" ∷ []) sessions-IsPaged 2 [] (omega arith)

abbrev thought : Json
thought = object (
    member (text "id") (string (text "activity")) (
      member (text "createdAt") (string (text "noon")) (
        member (text "content")
          (object (member (text "__typename") (string (text "AgentActivityThoughtContent")) empty))
          empty)))

abbrev activities_answer : Json
activities_answer = object (
    member (text "data")
      (object (
        member (text "agentSession")
          (object (
            member (text "id") (string (text "session")) (
              member (text "createdAt") (string (text "dawn")) (
                member (text "appUser") (named (text "app")) (
                  member (text "activities")
                    (object (
                      member (text "nodes") (array (element thought nothing))
                        (member (text "pageInfo") page_info empty)))
                    empty)))))
          empty))
      empty)

abbrev activities_read : ActivitiesPage
activities_read = record {
  session = record {
    id = text "session";
    created_at = text "dawn";
    app_user_id = text "app";
    issue_identifier = none;
  };
  nodes = thought ∷ [];
  page_info = record { has_next_page = false; end_cursor = some (text "c") };
}

activities_parsed : activities_page dates activities_answer ≡ some activities_read
unfolding activities_page parse_page_info string_of as_list member_of field as_record as_string
    as_boolean text_dec
activities_parsed = refl

activities_cursors : HasCursors (giving activities_answer) dates (text "c" ∷ [])
unfolding HasCursors
activities_cursors j page c answer parsed e =
    let same_page : activities_read ≡ page = some_eq (
      sym activities_parsed
      ∙ (ap (activities_page dates) (giving-IsAnswer activities_answer j answer) ∙ parsed)) in
    inl (some_eq (ap (λ x. x.page_info.end_cursor) same_page ∙ e))

abbrev activities_options : ActivitiesOptions
activities_options = record {
  session_id = text "session";
  lookback_after = text "dawn";
  processed_through = none;
}

-- Of two texts neither comes after the other.
abbrev at_most : Text → Text → Bool
at_most a b = true

list_agent_session_activities-ends_example :
    (list_agent_session_activities
        (giving activities_answer)
        manager
        dates
        at_most
        activities_options
        2
        []
      ≡ chosen_activities (giving activities_answer) manager dates at_most activities_options 2 [])
    × OnFinished
        (λ _. Unit {0})
        (list_agent_session_activities
          (giving activities_answer)
          manager
          dates
          at_most
          activities_options
          2
          [])
list_agent_session_activities-ends_example =
    list_agent_session_activities-ends (giving activities_answer) manager dates at_most
      activities_options (text "c" ∷ []) activities_cursors 2 [] (omega arith)

-- ===== src/Linear/Shapes.antt =====
-- src/linear/client.ts: what the operations take from the bodies of Linear's answers, with the tests
-- of their shape; `none` is the exception for the shape.
use linear_agent_bridge.Base.{
  Bool, Option, none, some, List, [], ◌∷◌, Text, text, same, any, sort_by,
}
use linear_agent_bridge.Base.Options.{◌>>=◌, ◌>>◌, guard}
use linear_agent_bridge.Json.{Json, Number, number, as_string}
use linear_agent_bridge.Recovery.Payloads.{Dates}
use linear_agent_bridge.Linear.Client.{member_of}
use linear_agent_bridge.Linear.Pages.{
  PageInfo, parse_page_info, as_list, is_date, ListedActivity, parse_agent_activity,
}

-- `asRecord(value)?.key`, if it is a string
unfoldable pub string_of : Text → Option Json → Option Text
unfolding member_of as_string
string_of key value = member_of key value >>= as_string

-- A page of sessions: `viewer.id`, the nodes and the page info.
pub record SessionsPage : Type 0 where
  pub viewer_id : Text
  pub nodes : List Json
  pub page_info : PageInfo

abbrev pub data_of : Json → Option Json
data_of j = member_of (text "data") (some j)

unfoldable pub sessions_page : Json → Option SessionsPage
unfolding member_of string_of as_list parse_page_info
sessions_page j = do
  page_info ←
      parse_page_info (member_of (text "pageInfo") (member_of (text "agentSessions") (data_of j)))
  viewer_id ← string_of (text "id") (member_of (text "viewer") (data_of j))
  nodes ← member_of (text "nodes") (member_of (text "agentSessions") (data_of j)) >>= as_list
  some record { viewer_id = viewer_id; nodes = nodes; page_info = page_info }

-- `LinearAgentSessionSummary`
pub record SessionSummary : Type 0 where
  pub id : Text
  pub updated_at : Text
  pub app_user_id : Text
  pub issue_identifier : Option Text

-- A node of a page of sessions.
unfoldable pub parse_session_node : Dates → Json → Option SessionSummary
unfolding member_of string_of
parse_session_node dates node = do
  id ← string_of (text "id") (some node)
  updated_at ← string_of (text "updatedAt") (some node)
  guard (is_date dates updated_at)
  app_user_id ← string_of (text "id") (member_of (text "appUser") (some node))
  some record {
    id = id;
    updated_at = updated_at;
    app_user_id = app_user_id;
    issue_identifier = string_of (text "identifier") (member_of (text "issue") (some node));
  }

-- `LinearAgentSessionActivities`, with the activities apart.
pub record SessionHead : Type 0 where
  pub id : Text
  pub created_at : Text
  pub app_user_id : Text
  pub issue_identifier : Option Text

pub record ActivitiesPage : Type 0 where
  pub session : SessionHead
  pub nodes : List Json
  pub page_info : PageInfo

abbrev pub session_of : Json → Option Json
session_of j = member_of (text "agentSession") (data_of j)

unfoldable pub activities_page : Dates → Json → Option ActivitiesPage
unfolding member_of string_of as_list parse_page_info
activities_page dates j = do
  page_info ←
      parse_page_info (member_of (text "pageInfo") (member_of (text "activities") (session_of j)))
  id ← string_of (text "id") (session_of j)
  created_at ← string_of (text "createdAt") (session_of j)
  guard (is_date dates created_at)
  app_user_id ← string_of (text "id") (member_of (text "appUser") (session_of j))
  nodes ← member_of (text "nodes") (member_of (text "activities") (session_of j)) >>= as_list
  some record {
    session = record {
      id = id;
      created_at = created_at;
      app_user_id = app_user_id;
      issue_identifier = string_of (text "identifier") (member_of (text "issue") (session_of j));
    };
    nodes = nodes;
    page_info = page_info;
  }

-- The nodes of a page of activities, of which each must have its shape.
unfoldable pub parse_activities : Dates → List Json → Option (List ListedActivity)
unfolding parse_agent_activity
parse_activities dates [] = some []
parse_activities dates (node ∷ nodes) = do
  a ← parse_agent_activity dates node
  rest ← parse_activities dates nodes
  some (a ∷ rest)

-- `AutonomousGoalIssueContext`
pub record IssueContext : Type 0 where
  pub issue_id : Text
  pub issue_identifier : Text
  pub authorized : Bool
  pub already_completed : Bool
  pub current_state_id : Text
  pub completed_state_id : Option Text

abbrev label_id : Json → Option Text
unfolding string_of
label_id label = string_of (text "id") (some label)

-- `labels.map(...)`, where every id must be a string
unfoldable pub label_ids : List Json → Option (List Text)
unfolding label_id
label_ids [] = some []
label_ids (label ∷ labels) = do id ← label_id label; rest ← label_ids labels; some (id ∷ rest)

-- A workflow state that completes an issue: its id and its position.
pub record CompletedState : Type 0 where
  pub id : Text
  pub position : Number

abbrev as_position : Json → Option Number
as_position (number n) = some n
as_position _ = none

abbrev completed_state : Json → Option CompletedState
unfolding string_of member_of
completed_state state = do
  id ← string_of (text "id") (some state)
  kind ← string_of (text "type") (some state)
  guard (same kind (text "completed"))
  position ← member_of (text "position") (some state) >>= as_position
  some record { id = id; position = position }

abbrev and_more : {A : Type 0} → Option A → List A → List A
and_more none xs = xs
and_more (some x) xs = x ∷ xs

-- `states.map(asRecord).filter(...)`
unfoldable pub completed_states : List Json → List CompletedState
unfolding completed_state
completed_states [] = []
completed_states (state ∷ states) = and_more (completed_state state) (completed_states states)

abbrev pub first_id : List CompletedState → Option Text
first_id [] = none
first_id (s ∷ states) = some s.id

-- The answer to the goal issue query, where `at_most a b` is `a - b <= 0` on doubles.
unfoldable pub issue_context : (Number → Number → Bool) → Text → Json → Option IssueContext
unfolding member_of string_of as_list label_ids completed_states sort_by any
issue_context at_most label_id j = do
  let issue = member_of (text "issue") (data_of j)
  id ← string_of (text "id") issue
  identifier ← string_of (text "identifier") issue
  labels ← member_of (text "nodes") (member_of (text "labels") issue) >>= as_list
  state_id ← string_of (text "id") (member_of (text "state") issue)
  state_type ← string_of (text "type") (member_of (text "state") issue)
  states ←
      member_of (text "nodes") (member_of (text "states") (member_of (text "team") issue))
      >>= as_list
  ids ← label_ids labels
  some record {
    issue_id = id;
    issue_identifier = identifier;
    authorized = any (same label_id) ids;
    already_completed = same state_type (text "completed");
    current_state_id = state_id;
    completed_state_id =
        first_id (sort_by (λ a b. at_most a.position b.position) (completed_states states));
  }

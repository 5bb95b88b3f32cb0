-- ===== src/Linear/Issues.antt =====
-- src/linear/client.ts: getAutonomousGoalIssueContext and completeIssue.
use linear_agent_bridge.Base.{
  Bool, false, not, ◌&&◌, ◌||◌, Option, none, some, Text, text, length, same, ◌==◌,
}
use linear_agent_bridge.Json.{Json, Number, boolean}
use linear_agent_bridge.Linear.Calls.{
  autonomous_goal_issue, complete_issue, Net, TokenSource, shape, query_failed, bad_argument, Calls,
  ◌>>=◌, ◌>>◌, give, or_fail, fail_if,
}
use linear_agent_bridge.Linear.Client.{member_of, query_graphql}
use linear_agent_bridge.Linear.Shapes.{string_of, data_of, IssueContext, issue_context}

-- `getAutonomousGoalIssueContext`; `at_most a b` is `a - b <= 0` on doubles.
unfoldable pub get_autonomous_goal_issue_context :
    Net → TokenSource → (Number → Number → Bool) → Text → Text → Calls IssueContext
unfolding query_graphql issue_context
get_autonomous_goal_issue_context net source at_most issue_id label_id = do
  fail_if (length issue_id == 0 || length label_id == 0) bad_argument
  json ← query_graphql net source (autonomous_goal_issue issue_id)
  give (or_fail (query_failed shape) (issue_context at_most label_id json))

abbrev pub says : Option Text → Text → Bool
says none t = false
says (some s) t = same s t

abbrev pub is_success : Option Json → Bool
is_success (some (boolean b)) = b
is_success _ = false

-- The tests of the answer to the mutation.
unfoldable pub has_completed : Text → Text → Json → Bool
unfolding member_of string_of
has_completed issue_id state_id json =
    let payload = member_of (text "issueUpdate") (data_of json) in
    let issue = member_of (text "issue") payload in
    is_success (member_of (text "success") payload)
    && (says (string_of (text "id") issue) issue_id
        && (says (string_of (text "id") (member_of (text "state") issue)) state_id
            && says (string_of (text "type") (member_of (text "state") issue)) (text "completed")))

-- `completeIssue`
unfoldable pub complete_goal_issue : Net → TokenSource → Text → Text → Calls (Unit {0})
unfolding query_graphql has_completed
complete_goal_issue net source issue_id state_id = do
  fail_if (length issue_id == 0 || length state_id == 0) bad_argument
  json ← query_graphql net source (complete_issue issue_id state_id)
  fail_if (not (has_completed issue_id state_id json)) (query_failed shape)

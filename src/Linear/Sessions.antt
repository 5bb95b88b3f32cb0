-- ===== src/Linear/Sessions.antt =====
-- src/linear/client.ts: listRecentAppOwnedSessions, which reads pages until the lookback, the end or
-- the number that the caller asks for.
use linear_agent_bridge.Base.{
  ℕ, zero, suc, Bool, true, false, not, ◌&&◌, ◌||◌, Option, none, some, List, [], ◌∷◌, ◌++◌, Text,
  length, same, ltb, leb, if◌then◌else◌,
}
use linear_agent_bridge.Json.{Json}
use linear_agent_bridge.Recovery.Payloads.{Dates}
use linear_agent_bridge.Linear.Calls.{
  recent_agent_sessions, Net, TokenSource, shape, query_failed, bad_argument, done, unfinished,
  Calls, ◌>>=◌, ◌>>◌, give, or_fail, fail_if,
}
use linear_agent_bridge.Linear.Client.{query_graphql}
use linear_agent_bridge.Linear.Pages.{is_date, is_earlier, next_page_cursor}
use linear_agent_bridge.Linear.Shapes.{
  SessionsPage, sessions_page, SessionSummary, parse_session_node,
}

-- `options`
pub record RecentOptions : Type 0 where
  pub updated_after : Text
  pub max_sessions : ℕ

-- `sessions` and `pageReachedLookback`
pub record Scan : Type 0 where
  pub sessions : List SessionSummary
  pub reached_lookback : Bool

-- One node: it is too old, of another app, or listed.
unfoldable pub take_node : Dates → RecentOptions → Text → SessionSummary → Scan → Scan
take_node dates options viewer_id s scan =
    if is_earlier dates s.updated_at options.updated_after
    then record scan { reached_lookback = true }
    else if same s.app_user_id viewer_id
    then record scan { sessions = scan.sessions ++ s ∷ [] }
    else scan

-- `rest` is the loop over the nodes that follow, unless the list has become long enough.
unfoldable pub take_parsed :
    Dates → RecentOptions → Text → Option SessionSummary → Scan → (Scan → Option Scan) → Option Scan
unfolding take_node
take_parsed dates options viewer_id none scan rest = none
take_parsed dates options viewer_id (some s) scan rest =
    let taken = take_node dates options viewer_id s scan in
    if ltb (length scan.sessions) (length taken.sessions)
      && leb options.max_sessions (length taken.sessions)
    then some taken
    else rest taken

-- The loop over the nodes; `none` is the exception for the shape.
unfoldable pub take_nodes : Dates → RecentOptions → Text → List Json → Scan → Option Scan
unfolding take_parsed parse_session_node
take_nodes dates options viewer_id [] scan = some scan
take_nodes dates options viewer_id (node ∷ nodes) scan =
    take_parsed dates options viewer_id (parse_session_node dates node) scan
      (λ taken. take_nodes dates options viewer_id nodes taken)

-- The end of a round: the list is complete, or the loop goes on behind the cursor of the page.
unfoldable pub after_nodes :
    SessionsPage
    → List Text
    → Scan
    → (Text → List SessionSummary → Calls (List SessionSummary))
    → Calls (List SessionSummary)
unfolding next_page_cursor
after_nodes page seen scan more =
    if not page.page_info.has_next_page || scan.reached_lookback
    then give (done scan.sessions)
    else give
        (or_fail (query_failed shape) (next_page_cursor page.page_info seen (length page.nodes)))
      >>= (λ cursor. more cursor scan.sessions)

module _ (net : Net) (source : TokenSource) (dates : Dates) (options : RecentOptions) where
  unfoldable pub read_sessions_page :
      List Text
      → List SessionSummary
      → (Text → List SessionSummary → Calls (List SessionSummary))
      → Json
      → Calls (List SessionSummary)
  unfolding sessions_page take_nodes after_nodes
  read_sessions_page seen sessions more json = do
    page ← give (or_fail (query_failed shape) (sessions_page json))
    scan ← give (
        or_fail (query_failed shape) (
          take_nodes dates options page.viewer_id page.nodes
            (record { sessions = sessions; reached_lookback = false })))
    after_nodes page seen scan more

  -- The `while` loop; the fuel is the number of pages that it may ask for.
  unfoldable pub recent_pages :
      ℕ → Option Text → List Text → List SessionSummary → Calls (List SessionSummary)
  unfolding query_graphql read_sessions_page
  recent_pages zero after seen sessions = give unfinished
  recent_pages (suc fuel) after seen sessions =
      let more : Text → List SessionSummary → Calls (List SessionSummary) =
        λ cursor longer. recent_pages fuel (some cursor) (cursor ∷ seen) longer in
      if ltb (length sessions) options.max_sessions
      then query_graphql net source (recent_agent_sessions after)
        >>= read_sessions_page seen sessions more
      else give (done sessions)

  -- `listRecentAppOwnedSessions`
  unfoldable pub list_recent_app_owned_sessions : ℕ → Calls (List SessionSummary)
  unfolding recent_pages
  list_recent_app_owned_sessions fuel = do
    fail_if (not (is_date dates options.updated_after)) bad_argument
    fail_if (not (ltb 0 options.max_sessions && leb options.max_sessions 250)) bad_argument
    recent_pages fuel none [] []

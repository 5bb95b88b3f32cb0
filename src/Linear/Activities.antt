-- ===== src/Linear/Activities.antt =====
-- src/linear/client.ts: listAgentSessionActivities, which reads the activities of a session back to
-- the watermark of what was reconciled before.
use linear_agent_bridge.Base.{
  ℕ, zero, suc, Bool, true, false, not, ◌&&◌, ◌||◌, Option, none, some, List, [], ◌∷◌, ◌++◌, Text,
  length, same, if◌then◌else◌, sort_by, ◌==◌,
}
use linear_agent_bridge.Json.{Json}
use linear_agent_bridge.Recovery.Payloads.{Dates}
use linear_agent_bridge.State.Types.{Cursor}
use linear_agent_bridge.Linear.Calls.{
  agent_session_activities, Net, TokenSource, shape, query_failed, bad_argument, done, unfinished,
  Calls, ◌>>=◌, ◌>>◌, give, or_fail, fail_if,
}
use linear_agent_bridge.Linear.Client.{query_graphql}
use linear_agent_bridge.Linear.Pages.{
  is_date, is_earlier, is_same_time, next_page_cursor, ListedActivity, parse_agent_activity,
}
use linear_agent_bridge.Linear.Shapes.{SessionHead, ActivitiesPage, activities_page}

-- The session and `options`.
pub record ActivitiesOptions : Type 0 where
  pub session_id : Text
  pub lookback_after : Text
  pub processed_through : Option Cursor

-- `activities` and `reachedWatermark`
pub record Reading : Type 0 where
  pub activities : List ListedActivity
  pub reached_watermark : Bool

unfoldable pub is_before_watermark : Dates → Option Cursor → ListedActivity → Bool
is_before_watermark dates none a = false
is_before_watermark dates (some w) a = is_earlier dates a.created_at w.created_at

unfoldable pub is_watermark : Dates → Option Cursor → ListedActivity → Bool
is_watermark dates none a = false
is_watermark dates (some w) a = is_same_time dates a.created_at w.created_at && same a.id w.id

-- One activity: it lies before the watermark, is the watermark, is too old, or is listed.
unfoldable pub take_activity : Dates → ActivitiesOptions → ListedActivity → Reading → Reading
unfolding is_before_watermark is_watermark
take_activity dates options a reading =
    if is_before_watermark dates options.processed_through a
    then record reading { reached_watermark = true }
    else if is_watermark dates options.processed_through a
    then reading
    else if is_earlier dates a.created_at options.lookback_after
    then reading
    else record reading { activities = reading.activities ++ a ∷ [] }

unfoldable pub take_if_parsed :
    Dates
    → ActivitiesOptions
    → Option ListedActivity
    → Reading
    → (Reading → Option Reading)
    → Option Reading
unfolding take_activity
take_if_parsed dates options none reading rest = none
take_if_parsed dates options (some a) reading rest = rest (take_activity dates options a reading)

-- The loop over the nodes; `none` is the exception for the shape.
unfoldable pub take_activities : Dates → ActivitiesOptions → List Json → Reading → Option Reading
unfolding take_if_parsed parse_agent_activity
take_activities dates options [] reading = some reading
take_activities dates options (node ∷ nodes) reading =
    take_if_parsed dates options (parse_agent_activity dates node) reading
      (λ taken. take_activities dates options nodes taken)

-- The end of a round: the list is complete, or the loop goes on behind the cursor of the page.
unfoldable pub after_activities :
    ActivitiesPage
    → List Text
    → Reading
    → (Text → List ListedActivity → Calls (SessionHead × List ListedActivity))
    → Calls (SessionHead × List ListedActivity)
unfolding next_page_cursor
after_activities page seen reading more =
    if not page.page_info.has_next_page || reading.reached_watermark
    then give (done (page.session, reading.activities))
    else give
        (or_fail (query_failed shape) (next_page_cursor page.page_info seen (length page.nodes)))
      >>= (λ cursor. more cursor reading.activities)

-- `compareActivityCursor(left, right) <= 0`, for activities that have dates
unfoldable pub compare_activity_cursor :
    Dates → (Text → Text → Bool) → ListedActivity → ListedActivity → Bool
compare_activity_cursor dates locale_at_most left right =
    if is_same_time dates left.created_at right.created_at
    then locale_at_most left.id right.id
    else is_earlier dates left.created_at right.created_at

-- `locale_at_most left right` is `left.localeCompare(right) <= 0`.
module _ (net : Net) (source : TokenSource) (dates : Dates) (locale_at_most : Text → Text → Bool)
    (options : ActivitiesOptions) where
  unfoldable pub read_activities_page :
      List Text
      → List ListedActivity
      → (Text → List ListedActivity → Calls (SessionHead × List ListedActivity))
      → Json
      → Calls (SessionHead × List ListedActivity)
  unfolding activities_page take_activities after_activities
  read_activities_page seen activities more json = do
    page ← give (or_fail (query_failed shape) (activities_page dates json))
    reading ← give (
        or_fail (query_failed shape) (
          take_activities dates options page.nodes
            (record { activities = activities; reached_watermark = false })))
    after_activities page seen reading more

  -- The `while` loop; the fuel is the number of pages that it may ask for.
  unfoldable pub activity_pages :
      ℕ → Option Text → List Text → List ListedActivity → Calls (SessionHead × List ListedActivity)
  unfolding query_graphql read_activities_page
  activity_pages zero after seen activities = give unfinished
  activity_pages (suc fuel) after seen activities =
      query_graphql net source
        (agent_session_activities options.session_id after options.lookback_after)
      >>= read_activities_page seen activities
          (λ cursor longer. activity_pages fuel (some cursor) (cursor ∷ seen) longer)

  -- `listAgentSessionActivities`
  unfoldable pub list_agent_session_activities : ℕ → Calls (SessionHead × List ListedActivity)
  unfolding activity_pages compare_activity_cursor sort_by
  list_agent_session_activities fuel = do
    fail_if (length options.session_id == 0) bad_argument
    fail_if (not (is_date dates options.lookback_after)) bad_argument
    found ← activity_pages fuel none [] []
    give (done (found.0, sort_by (compare_activity_cursor dates locale_at_most) found.1))

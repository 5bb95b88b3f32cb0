-- ===== src/Linear/Pages.antt =====
-- src/linear/client.ts: what the pages of Linear's answers hold (parsePageInfo, nextPageCursor,
-- parseAgentActivity), and how the times in them compare.
use linear_agent_bridge.Base.{
  ℕ, Bool, true, false, not, ◌&&◌, Option, none, some, List, [], ◌∷◌, Text, text, same, any, ltb,
  ◌==◌, if◌then◌else◌, is_some,
}
use linear_agent_bridge.Base.Options.{◌>>=◌, ◌>>◌, guard}
use linear_agent_bridge.Json.{
  Json, null, string, array, Elements, nothing, element, as_record, as_string, as_boolean, field,
}
use linear_agent_bridge.Recovery.Payloads.{Dates}
use linear_agent_bridge.State.Types.{Cursor}
use linear_agent_bridge.Linear.Client.{member_of}

-- `PageInfo`
pub record PageInfo : Type 0 where
  pub has_next_page : Bool
  pub end_cursor : Option Text

-- A cursor that is `null` or a string.
abbrev pub nullable : Json → Option (Option Text)
nullable null = some none
nullable (string t) = some (some t)
nullable _ = none

-- `parsePageInfo`; `none` is the exception for the shape.
unfoldable pub parse_page_info : Option Json → Option PageInfo
unfolding as_record as_boolean field
parse_page_info value = do
  m ← value >>= as_record
  has_next_page ← field (text "hasNextPage") m >>= as_boolean
  end_cursor ← field (text "endCursor") m >>= nullable
  some record { has_next_page = has_next_page; end_cursor = end_cursor }

abbrev is_empty : Text → Bool
is_empty [] = true
is_empty (c ∷ t) = false

unfoldable pub is_new_cursor : PageInfo → List Text → ℕ → Text → Bool
unfolding any
is_new_cursor page seen count cursor =
    page.has_next_page
    && (not (is_empty cursor) && (not (count == 0) && not (any (same cursor) seen)))

-- `nextPageCursor`; the caller adds the cursor to the cursors seen.
unfoldable pub next_page_cursor : PageInfo → List Text → ℕ → Option Text
unfolding is_new_cursor
next_page_cursor page seen count = do
  cursor ← page.end_cursor
  guard (is_new_cursor page seen count cursor)
  some cursor

abbrev pub items : Elements → List Json
items nothing = []
items (element j es) = j ∷ items es

-- A value that is an array.
unfoldable pub as_list : Json → Option (List Json)
as_list (array es) = some (items es)
as_list _ = none

pub data ActivityType : Type 0 where
  action elicitation error prompt response thought : ActivityType

-- `ACTIVITY_TYPENAMES[name]`, for a name that `Object.prototype` does not have
unfoldable pub activity_type : Text → Option ActivityType
activity_type name =
    if same name (text "AgentActivityActionContent")
    then some action
    else if same name (text "AgentActivityElicitationContent")
    then some elicitation
    else if same name (text "AgentActivityErrorContent")
    then some error
    else if same name (text "AgentActivityPromptContent")
    then some prompt
    else if same name (text "AgentActivityResponseContent")
    then some response
    else if same name (text "AgentActivityThoughtContent")
    then some thought
    else none

-- `ReconciledAgentActivity`
pub record ListedActivity : Type 0 where
  pub id : Text
  pub created_at : Text
  pub user_id : Option Text
  pub kind : ActivityType
  pub signal : Option Text
  pub body : Option Text

abbrev pub cursor_of : ListedActivity → Cursor
cursor_of a = record { created_at = a.created_at; id = a.id }

-- `Number.isFinite(Date.parse(value))`
abbrev pub is_date : Dates → Text → Bool
is_date dates value = is_some (dates.parse_date value)

-- The body of a prompt, which it must have together with a user; other activities have none.
abbrev pub prompt_body : ActivityType → Option Text → Option Text → Option (Option Text)
prompt_body prompt user body = do guard (is_some user); b ← body; some (some b)
prompt_body kind user body = some none

-- `parseAgentActivity`; `none` is the exception for the shape.
unfoldable pub parse_agent_activity : Dates → Json → Option ListedActivity
unfolding as_record as_string member_of activity_type
parse_agent_activity dates value = do
  name ← member_of (text "__typename") (member_of (text "content") (some value)) >>= as_string
  kind ← activity_type name
  id ← member_of (text "id") (some value) >>= as_string
  created_at ← member_of (text "createdAt") (some value) >>= as_string
  guard (is_date dates created_at)
  body ←
      prompt_body kind (member_of (text "id") (member_of (text "user") (some value)) >>= as_string)
        (member_of (text "body") (member_of (text "content") (some value)) >>= as_string)
  some record {
    id = id;
    created_at = created_at;
    user_id = member_of (text "id") (member_of (text "user") (some value)) >>= as_string;
    kind = kind;
    signal = member_of (text "signal") (some value) >>= as_string;
    body = body;
  }

abbrev below : Option ℕ → Option ℕ → Bool
below (some a) (some b) = ltb a b
below _ _ = false

-- `Date.parse(a) < Date.parse(b)`, which is false if one of them is no date
abbrev pub is_earlier : Dates → Text → Text → Bool
is_earlier dates a b = below (dates.parse_date a) (dates.parse_date b)

abbrev equal : Option ℕ → Option ℕ → Bool
equal (some a) (some b) = a == b
equal _ _ = false

-- `Date.parse(a) === Date.parse(b)`
abbrev pub is_same_time : Dates → Text → Text → Bool
is_same_time dates a b = equal (dates.parse_date a) (dates.parse_date b)

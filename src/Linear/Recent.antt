-- ===== src/Linear/Recent.antt =====
-- src/linear/client.ts: what listRecentAppOwnedSessions lists, and that it ends.
use linear_agent_bridge.Base.{
  ℕ, zero, suc, ◌≤◌, ◌<◌, ◌≡◌, ◌≢◌, refl, ap, subst, Bool, false, not, ◌&&◌, ◌||◌, Option, none,
  some, List, [], ◌∷◌, ◌++◌, Text, length, same, any, ltb, leb, arith, Bool-cases, inl, inr, ltb→lt,
}
use linear_agent_bridge.Base.Lists.{All, Has}
use linear_agent_bridge.Json.{Json}
use linear_agent_bridge.Recovery.Base64.{same_eq, some_eq}
use linear_agent_bridge.Recovery.Payloads.{Dates}
use linear_agent_bridge.Linear.Calls.{
  recent_agent_sessions, Call, Net, TokenSource, shape, query_failed, bad_argument, Result, Calls,
  ◌>>=◌, or_fail, fail_if,
}
use linear_agent_bridge.Linear.Client.{query_graphql}
use linear_agent_bridge.Linear.Pages.{is_date, is_earlier, next_page_cursor}
use linear_agent_bridge.Linear.Shapes.{
  SessionsPage, sessions_page, SessionSummary, parse_session_node,
}
use linear_agent_bridge.Linear.Sessions.{
  RecentOptions, Scan, take_node, take_parsed, take_nodes, after_nodes, read_sessions_page,
  recent_pages, list_recent_app_owned_sessions,
}
use linear_agent_bridge.Linear.Queries.{
  OnFinished, OnFinished-continue, OnFinished-or_fail, OnFinished-fail_if, IsAnswer,
  query_graphql-IsAnswer,
}
use linear_agent_bridge.Linear.Cursors.{left, left-cons, left-nil, next_page_cursor-new}

-- The session is of this app, and was not updated before the time asked for.
abbrev pub IsRecent : Dates → RecentOptions → Text → SessionSummary → Type 0
IsRecent dates options app s =
    (is_earlier dates s.updated_at options.updated_after ≡ false) × (s.app_user_id ≡ app)

abbrev pub AreRecent : Dates → RecentOptions → Text → List SessionSummary → Type 0
AreRecent dates options app sessions =
    (length sessions ≤ options.max_sessions) × All (IsRecent dates options app) sessions

-- The answers of the network are to the user `app`, and their cursors are among these.
unfoldable pub IsPaged : Net → Text → List Text → Type 0
unfolding sessions_page
IsPaged net app cursors =
    (j : Json) (page : SessionsPage)
    → IsAnswer net j
    → sessions_page j ≡ some page
    → (page.viewer_id ≡ app) × ((c : Text) → page.page_info.end_cursor ≡ some c → Has cursors c)

none_ne : (scan : Scan) → ◌≢◌ {A = Option Scan} none (some scan)
none_ne scan e = cc

module _ (dates : Dates) (options : RecentOptions) (app : Text) where
  pushed-All :
      (sessions : List SessionSummary) (s : SessionSummary)
      → All (IsRecent dates options app) sessions
      → IsRecent dates options app s
      → All (IsRecent dates options app) (sessions ++ s ∷ [])
  pushed-All [] s h k = (k, tt)
  pushed-All (x ∷ sessions) s h k = (h.0, pushed-All sessions s h.1 k)

  length-pushed :
      (sessions : List SessionSummary) (s : SessionSummary)
      → length (sessions ++ s ∷ []) ≡ suc (length sessions)
  length-pushed [] s = refl
  length-pushed (x ∷ sessions) s = ap suc (length-pushed sessions s)

  take_node-All :
      (s : SessionSummary) (scan : Scan)
      → All (IsRecent dates options app) scan.sessions
      → All (IsRecent dates options app) (take_node dates options app s scan).sessions
  unfolding take_node
  take_node-All s scan h = elim (Bool-cases (is_earlier dates s.updated_at options.updated_after)) [
    | inl e ↦ rw e h
    | inr e ↦ elim (Bool-cases (same s.app_user_id app)) [
      | inl own ↦ rw (e, own) (pushed-All scan.sessions s h (e, same_eq s.app_user_id app own))
      | inr other ↦ rw (e, other) h
    ]
  ]

  take_node-length :
      (s : SessionSummary) (scan : Scan)
      → length (take_node dates options app s scan).sessions ≤ suc (length scan.sessions)
  unfolding take_node
  take_node-length s scan = ground (arith, length-pushed scan.sessions s)

  -- The list has grown and is long enough.
  abbrev is_full : Scan → Scan → Bool
  is_full scan taken =
      ltb (length scan.sessions) (length taken.sessions)
      && leb options.max_sessions (length taken.sessions)

  grown :
      (scan taken : Scan)
      → is_full scan taken ≡ false
      → length scan.sessions < options.max_sessions
      → length taken.sessions ≤ suc (length scan.sessions)
      → length taken.sessions < options.max_sessions
  grown scan taken e room more = ground (arith, e)

  take_parsed-AreRecent :
      (o : Option SessionSummary) (scan end : Scan) (rest : Scan → Option Scan)
      → length scan.sessions < options.max_sessions
      → All (IsRecent dates options app) scan.sessions
      → ((next : Scan)
          → length next.sessions < options.max_sessions
          → All (IsRecent dates options app) next.sessions
          → rest next ≡ some end
          → AreRecent dates options app end.sessions)
      → take_parsed dates options app o scan rest ≡ some end
      → AreRecent dates options app end.sessions
  unfolding take_parsed
  take_parsed-AreRecent none scan end rest room h k taken = absurd (none_ne end taken)
  take_parsed-AreRecent (some s) scan end rest room h k taken =
      let next = take_node dates options app s scan in
      let kept = take_node-All s scan h in
      let more = take_node-length s scan in
      elim (Bool-cases (is_full scan next)) [
        | inl e ↦
            subst (λ x. AreRecent dates options app x.sessions) (some_eq (rw e at taken))
              (omega arith, kept)
        | inr e ↦ k next (grown scan next e room more) kept (rw e at taken)
      ]

  take_nodes-AreRecent :
      (nodes : List Json) (scan end : Scan)
      → length scan.sessions < options.max_sessions
      → All (IsRecent dates options app) scan.sessions
      → take_nodes dates options app nodes scan ≡ some end
      → AreRecent dates options app end.sessions
  unfolding take_nodes
  take_nodes-AreRecent [] scan end room h taken =
      subst (λ x. AreRecent dates options app x.sessions) (some_eq taken) (omega arith, h)
  take_nodes-AreRecent (node ∷ nodes) scan end room h taken =
      take_parsed-AreRecent (parse_session_node dates node) scan end _ room h
        (λ next. take_nodes-AreRecent nodes next end) taken

module _ (net : Net) (source : TokenSource) (dates : Dates) (options : RecentOptions) (app : Text)
    (cursors : List Text) (paged : IsPaged net app cursors) where
  abbrev Fine : Result (List SessionSummary) × List Call → Type 0
  Fine = OnFinished (AreRecent dates options app)

  -- The loop goes on well behind every cursor that is named by this page and was not seen.
  abbrev GoesOn :
      SessionsPage → List Text → (Text → List SessionSummary → Calls (List SessionSummary)) → Type 0
  unfolding any
  GoesOn page seen more =
      (c : Text) (sessions : List SessionSummary) (log : List Call)
      → page.page_info.end_cursor ≡ some c
      → any (same c) seen ≡ false
      → AreRecent dates options app sessions
      → Fine (more c sessions log)

  after_nodes-Fine :
      (page : SessionsPage) (seen : List Text) (scan : Scan)
      (more : Text → List SessionSummary → Calls (List SessionSummary)) (log : List Call)
      → AreRecent dates options app scan.sessions
      → GoesOn page seen more
      → Fine (after_nodes page seen scan more log)
  unfolding after_nodes GoesOn
  after_nodes-Fine page seen scan more log h k =
      elim (Bool-cases (not page.page_info.has_next_page || scan.reached_lookback)) [
        | inl e ↦ rw e h
        | inr e ↦
            let next = next_page_cursor page.page_info seen (length page.nodes) in
            rw e (
              OnFinished-continue (λ c. next ≡ some c) (AreRecent dates options app)
                (or_fail (query_failed shape) next) log (λ c. more c scan.sessions)
                (OnFinished-or_fail (λ c. next ≡ some c) (query_failed shape) next log (λ c e. e))
                (λ c later found.
                  let (named, new) =
                    next_page_cursor-new page.page_info seen (length page.nodes) c found in
                  k c scan.sessions later named new h))
      ]

  read_sessions_page-Fine :
      (seen : List Text) (sessions : List SessionSummary)
      (more : Text → List SessionSummary → Calls (List SessionSummary)) (j : Json) (log : List Call)
      → IsAnswer net j
      → length sessions < options.max_sessions
      → All (IsRecent dates options app) sessions
      → ((page : SessionsPage) → sessions_page j ≡ some page → GoesOn page seen more)
      → Fine (read_sessions_page net source dates options seen sessions more j log)
  unfolding read_sessions_page IsPaged
  read_sessions_page-Fine seen sessions more j log answer room h k =
      OnFinished-continue (λ page. sessions_page j ≡ some page) (AreRecent dates options app)
        (or_fail (query_failed shape) (sessions_page j)) log _
        (OnFinished-or_fail (λ page. sessions_page j ≡ some page) (query_failed shape)
          (sessions_page j) log (λ page e. e))
        (λ page later parsed.
          let start : Scan = record { sessions = sessions; reached_lookback = false } in
          let taken = take_nodes dates options page.viewer_id page.nodes start in
          let own = (paged j page answer parsed).0 in
          OnFinished-continue (λ scan. taken ≡ some scan) (AreRecent dates options app)
            (or_fail (query_failed shape) taken) later _
            (OnFinished-or_fail (λ scan. taken ≡ some scan) (query_failed shape) taken later
              (λ scan e. e))
            (λ scan last found.
              after_nodes-Fine page seen scan more last
                (take_nodes-AreRecent dates options app page.nodes start scan room h
                  (subst (λ v. take_nodes dates options v page.nodes start ≡ some scan) own found))
                (k page parsed)))

  recent_pages-Fine :
      (fuel : ℕ) (after : Option Text) (seen : List Text) (sessions : List SessionSummary)
      (log : List Call)
      → left cursors seen < fuel
      → AreRecent dates options app sessions
      → Fine (recent_pages net source dates options fuel after seen sessions log)
  unfolding recent_pages GoesOn IsPaged
  recent_pages-Fine zero after seen sessions log enough h = absurd (omega arith)
  recent_pages-Fine (suc fuel) after seen sessions log enough h =
      elim (Bool-cases (ltb (length sessions) options.max_sessions)) [
        | inr e ↦ rw e h
        | inl e ↦
            let asked = query_graphql net source (recent_agent_sessions after) log in
            rw e (
              OnFinished-continue (IsAnswer net) (AreRecent dates options app) asked.0 asked.1 _
                (query_graphql-IsAnswer net source (recent_agent_sessions after) log)
                (λ j later answer.
                  read_sessions_page-Fine seen sessions _ j later answer
                    (ltb→lt (length sessions) options.max_sessions e) h.1
                    (λ page parsed c longer last named new kept.
                      let known = (paged j page answer parsed).1 c named in
                      let fewer = left-cons cursors seen c known new in
                      recent_pages-Fine fuel (some c) (c ∷ seen) longer last (omega arith) kept)))
      ]

  -- If every answer is to the app and names one of finitely many cursors, listRecentAppOwnedSessions
  -- asks for at most one page more than there are cursors and ends; what it returns are at most as
  -- many sessions as were asked for, all of the app and none updated before the time asked for.
  pub list_recent_app_owned_sessions-AreRecent :
      (fuel : ℕ) (log : List Call)
      → length cursors < fuel
      → OnFinished
          (AreRecent dates options app)
          (list_recent_app_owned_sessions net source dates options fuel log)
  unfolding list_recent_app_owned_sessions
  list_recent_app_owned_sessions-AreRecent fuel log enough =
      let Good = AreRecent dates options app in
      let pages = recent_pages net source dates options fuel none [] [] in
      let dated = not (is_date dates options.updated_after) in
      let bounded = not (ltb 0 options.max_sessions && leb options.max_sessions 250) in
      let all = left-nil cursors in
      OnFinished-fail_if Good dated bad_argument (fail_if bounded bad_argument >>= λ _. pages) log
        (λ _.
          OnFinished-fail_if Good bounded bad_argument pages log
            (λ _. recent_pages-Fine fuel none [] [] log (omega arith) (omega arith, tt)))

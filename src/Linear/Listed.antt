-- ===== src/Linear/Listed.antt =====
-- src/linear/client.ts: that listAgentSessionActivities reads, chooses and sorts as its description
-- does, and that it ends.
use linear_agent_bridge.Base.{
  ℕ, zero, suc, ◌<◌, ◌≡◌, refl, sym, ap, subst, ◌∙◌, Bool, true, false, not, ◌||◌, Option, none,
  some, List, [], ◌∷◌, Text, length, same, any, select, sort_by, arith, Bool-cases, inl, inr, ◌==◌,
}
use linear_agent_bridge.Json.{Json}
use linear_agent_bridge.Recovery.Payloads.{Dates}
use linear_agent_bridge.Linear.Calls.{
  agent_session_activities, Call, Net, TokenSource, shape, query_failed, bad_argument, done,
  unfinished, Calls, ◌>>=◌, ◌>>◌, continue, give, or_fail, fail_if,
}
use linear_agent_bridge.Linear.Client.{query_graphql}
use linear_agent_bridge.Linear.Pages.{is_date, next_page_cursor, ListedActivity}
use linear_agent_bridge.Linear.Shapes.{ActivitiesPage, activities_page, parse_activities}
use linear_agent_bridge.Linear.Activities.{
  ActivitiesOptions, is_before_watermark, compare_activity_cursor, read_activities_page,
  activity_pages, list_agent_session_activities,
}
use linear_agent_bridge.Linear.Queries.{
  OnFinished, OnFinished-continue, OnFinished-or_fail, OnFinished-fail_if, IsAnswer,
  query_graphql-IsAnswer,
}
use linear_agent_bridge.Linear.Cursors.{left, left-nil, left-cons, next_page_cursor-new}
use linear_agent_bridge.Base.Lists.{Has}
use linear_agent_bridge.Linear.Calls.{Failure}
use linear_agent_bridge.Linear.Listing.{
  Listed, continue_assoc, continue_cong, is_wanted, after_page, read_page, kept, chosen, Agree,
  page-agrees,
}

module _ (net : Net) (source : TokenSource) (dates : Dates) (locale_at_most : Text → Text → Bool)
    (options : ActivitiesOptions) where
  -- Reads every page, until the last or one that reaches behind the watermark, and keeps all its
  -- activities; the fuel is the number of pages that it may ask for.
  unfoldable pub all_pages : ℕ → Option Text → List Text → Calls Listed
  unfolding query_graphql read_page
  all_pages zero after seen = give unfinished
  all_pages (suc fuel) after seen =
      query_graphql net source
        (agent_session_activities options.session_id after options.lookback_after)
      >>= read_page dates options seen (λ cursor. all_pages fuel (some cursor) (cursor ∷ seen))

  activity_pages-agrees :
      (fuel : ℕ) (after : Option Text) (seen : List Text) (listed : List ListedActivity)
      (log : List Call)
      → activity_pages net source dates locale_at_most options fuel after seen listed log
        ≡ kept dates options listed (all_pages fuel after seen log)
  unfolding kept activity_pages all_pages read_activities_page read_page Agree
  activity_pages-agrees zero after seen listed log = refl
  activity_pages-agrees (suc fuel) after seen listed log =
      let asked =
        query_graphql net source
          (agent_session_activities options.session_id after options.lookback_after) log in
      continue_cong asked.0 asked.1 _ _ (λ j later.
        page-agrees dates options (activities_page dates j) seen listed later _ _
          (λ c longer last. activity_pages-agrees fuel (some c) (c ∷ seen) longer last))
      ∙ sym (continue_assoc asked.0 asked.1 _ _)

  -- The pages, of which the activities that are wanted are chosen and sorted.
  unfoldable pub chosen_activities : ℕ → Calls Listed
  unfolding all_pages is_wanted compare_activity_cursor select sort_by
  chosen_activities fuel = do
    fail_if (length options.session_id == 0) bad_argument
    fail_if (not (is_date dates options.lookback_after)) bad_argument
    r ← all_pages fuel none []
    give (
        done (
          r.0,
          sort_by (compare_activity_cursor dates locale_at_most)
              (select (is_wanted dates options) r.1),
        ))

fail_if_cong :
    {A : Type 0} (b : Bool) (e : Failure) (k l : Calls A) (log : List Call)
    → k log ≡ l log
    → (fail_if b e >>= λ _. k) log ≡ (fail_if b e >>= λ _. l) log
fail_if_cong true e k l log h = refl
fail_if_cong false e k l log h = h

-- The cursors in the answers of the network are among these.
unfoldable pub HasCursors : Net → Dates → List Text → Type 0
unfolding activities_page
HasCursors net dates cursors =
    (j : Json) (page : ActivitiesPage) (c : Text)
    → IsAnswer net j
    → activities_page dates j ≡ some page
    → page.page_info.end_cursor ≡ some c
    → Has cursors c

abbrev Any : Listed → Type 0
Any r = Unit {0}

module _ (net : Net) (source : TokenSource) (dates : Dates) (locale_at_most : Text → Text → Bool)
    (options : ActivitiesOptions) where
  list_agent_session_activities-chosen :
      (fuel : ℕ) (log : List Call)
      → list_agent_session_activities net source dates locale_at_most options fuel log
        ≡ chosen_activities net source dates locale_at_most options fuel log
  unfolding list_agent_session_activities chosen_activities kept chosen
  list_agent_session_activities-chosen fuel log =
      let sorted : Listed → Calls Listed = λ found.
        give (done (found.0, sort_by (compare_activity_cursor dates locale_at_most) found.1)) in
      let pages = activity_pages net source dates locale_at_most options fuel none [] [] in
      let described = all_pages net source dates locale_at_most options fuel none [] in
      let reading : Calls Listed = pages >>= sorted in
      let describing : Calls Listed = described >>= (λ r. give (
        done (
          r.0,
          sort_by (compare_activity_cursor dates locale_at_most)
              (select (is_wanted dates options) r.1),
        ))) in
      let undated = not (is_date dates options.lookback_after) in
      fail_if_cong (length options.session_id == 0) bad_argument
        (fail_if undated bad_argument >>= λ _. reading)
        (fail_if undated bad_argument >>= λ _. describing) log
        (fail_if_cong undated bad_argument reading describing log (
          ap (λ out. continue out.0 out.1 sorted)
            (activity_pages-agrees net source dates locale_at_most options fuel none [] [] log)
          ∙ continue_assoc (described log).0 (described log).1 _ sorted))

  module _ (cursors : List Text) (known : HasCursors net dates cursors) where
    after_page-Any :
        (page : ActivitiesPage) (seen : List Text) (activities : List ListedActivity)
        (more : Text → Calls Listed) (log : List Call)
        → ((c : Text) (later : List Call)
            → page.page_info.end_cursor ≡ some c
            → any (same c) seen ≡ false
            → OnFinished Any (more c later))
        → OnFinished Any (after_page dates options page seen activities more log)
    unfolding after_page any
    after_page-Any page seen activities more log h =
        elim (Bool-cases (
          not page.page_info.has_next_page
          || any (is_before_watermark dates options.processed_through) activities)) [
            | inl e ↦ rw e tt
            | inr e ↦
                let next = next_page_cursor page.page_info seen (length page.nodes) in
                rw e (
                  OnFinished-continue (λ c. next ≡ some c) Any (or_fail (query_failed shape) next)
                    log _
                    (OnFinished-or_fail (λ c. next ≡ some c) (query_failed shape) next log
                      (λ c e. e))
                    (λ c later found.
                      let (named, new) =
                        next_page_cursor-new page.page_info seen (length page.nodes) c found in
                      OnFinished-continue Any Any (more c later).0 (more c later).1 _
                        (h c later named new) (λ r last k. tt)))
          ]

    read_page-Any :
        (seen : List Text) (more : Text → Calls Listed) (j : Json) (log : List Call)
        → ((page : ActivitiesPage) (c : Text) (later : List Call)
            → activities_page dates j ≡ some page
            → page.page_info.end_cursor ≡ some c
            → any (same c) seen ≡ false
            → OnFinished Any (more c later))
        → OnFinished Any (read_page dates options seen more j log)
    unfolding read_page any
    read_page-Any seen more j log h =
        OnFinished-continue (λ page. activities_page dates j ≡ some page) Any
          (or_fail (query_failed shape) (activities_page dates j)) log _
          (OnFinished-or_fail (λ page. activities_page dates j ≡ some page) (query_failed shape)
            (activities_page dates j) log (λ page e. e))
          (λ page later parsed.
            let read = parse_activities dates page.nodes in
            OnFinished-continue (λ activities. read ≡ some activities) Any
              (or_fail (query_failed shape) read) later _
              (OnFinished-or_fail (λ activities. read ≡ some activities) (query_failed shape) read
                later (λ activities e. e))
              (λ activities last e.
                after_page-Any page seen activities more last (λ c end. h page c end parsed)))

    all_pages-Any :
        (fuel : ℕ) (after : Option Text) (seen : List Text) (log : List Call)
        → left cursors seen < fuel
        → OnFinished Any (all_pages net source dates locale_at_most options fuel after seen log)
    unfolding all_pages HasCursors
    all_pages-Any zero after seen log enough = absurd (omega arith)
    all_pages-Any (suc fuel) after seen log enough =
        let q = agent_session_activities options.session_id after options.lookback_after in
        let asked = query_graphql net source q log in
        OnFinished-continue (IsAnswer net) Any asked.0 asked.1 _
          (query_graphql-IsAnswer net source q log)
          (λ j later answer. read_page-Any seen _ j later (λ page c last parsed named new.
            let fewer = left-cons cursors seen c (known j page c answer parsed named) new in
            all_pages-Any fuel (some c) (c ∷ seen) last (omega arith)))

    chosen_activities-Any :
        (fuel : ℕ) (log : List Call)
        → length cursors < fuel
        → OnFinished Any (chosen_activities net source dates locale_at_most options fuel log)
    unfolding chosen_activities
    chosen_activities-Any fuel log enough =
        let all = left-nil cursors in
        let described = all_pages net source dates locale_at_most options fuel none [] in
        let sorted : Listed → Calls Listed = λ r. give (
          done (
            r.0,
            sort_by (compare_activity_cursor dates locale_at_most)
                (select (is_wanted dates options) r.1),
          )) in
        let undated = not (is_date dates options.lookback_after) in
        OnFinished-fail_if Any (length options.session_id == 0) bad_argument
          (fail_if undated bad_argument >>= λ _. described >>= sorted) log
          (λ _. OnFinished-fail_if Any undated bad_argument (described >>= sorted) log (λ _.
            OnFinished-continue Any Any (described log).0 (described log).1 sorted
              (all_pages-Any fuel none [] log (omega arith)) (λ r last k. tt)))

    -- listAgentSessionActivities gives, fails and calls as the description in two phases does, which
    -- reads all activities of every page up to the one that reaches behind the watermark, chooses
    -- those that lie neither before the watermark nor before the lookback and are not the watermark
    -- itself, and sorts them. If the answers name one of finitely many cursors, it ends after at
    -- most one page more than there are cursors.
    pub list_agent_session_activities-ends :
        (fuel : ℕ) (log : List Call)
        → length cursors < fuel
        → (list_agent_session_activities net source dates locale_at_most options fuel log
            ≡ chosen_activities net source dates locale_at_most options fuel log)
          × OnFinished Any
              (list_agent_session_activities net source dates locale_at_most options fuel log)
    list_agent_session_activities-ends fuel log enough =
        let agrees = list_agent_session_activities-chosen fuel log in
        (agrees, subst (OnFinished Any) (sym agrees) (chosen_activities-Any fuel log enough))

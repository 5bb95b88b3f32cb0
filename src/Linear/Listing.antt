-- ===== src/Linear/Listing.antt =====
-- src/linear/client.ts: listAgentSessionActivities against a description in two phases: read every
-- page up to the watermark, then choose and sort.
use linear_agent_bridge.Base.{
  ◌≡◌, refl, sym, ap, ◌∙◌, Bool, true, false, not, ◌&&◌, ◌||◌, Option, none, some, List, [], ◌∷◌,
  ◌++◌, Text, length, any, select, if◌then◌else◌, Bool-cases, inl, inr,
}
use linear_agent_bridge.Base.Options
use linear_agent_bridge.Json.{Json}
use linear_agent_bridge.Recovery.Payloads.{Dates}
use linear_agent_bridge.Linear.Calls.{
  Call, shape, query_failed, Result, done, failed, unfinished, Calls, ◌>>=◌, continue, give,
  or_fail,
}
use linear_agent_bridge.Linear.Pages.{
  is_earlier, next_page_cursor, ListedActivity, parse_agent_activity,
}
use linear_agent_bridge.Linear.Shapes.{
  SessionHead, ActivitiesPage, activities_page, parse_activities,
}
use linear_agent_bridge.Linear.Activities.{
  ActivitiesOptions, Reading, is_before_watermark, is_watermark, take_activity, take_if_parsed,
  take_activities, after_activities,
}

abbrev pub Listed : Type 0
Listed = SessionHead × List ListedActivity

pub continue_assoc :
    {A B C : Type 0} (o : Result A) (log : List Call) (f : A → Calls B) (g : B → Calls C)
    → continue (continue o log f).0 (continue o log f).1 g
      ≡ continue o log (λ a later. continue (f a later).0 (f a later).1 g)
continue_assoc (done a) log f g = refl
continue_assoc (failed e) log f g = refl
continue_assoc unfinished log f g = refl

pub continue_cong :
    {A B : Type 0} (o : Result A) (log : List Call) (f g : A → Calls B)
    → ((a : A) (later : List Call) → f a later ≡ g a later)
    → continue o log f ≡ continue o log g
continue_cong (done a) log f g h = h a log
continue_cong (failed e) log f g h = refl
continue_cong unfinished log f g h = refl

append_assoc : {A : Type 0} (xs ys zs : List A) → (xs ++ ys) ++ zs ≡ xs ++ (ys ++ zs)
append_assoc [] ys zs = refl
append_assoc (x ∷ xs) ys zs = ap (λ r. x ∷ r) (append_assoc xs ys zs)

select-append :
    {A : Type 0} (p : A → Bool) (xs ys : List A) → select p (xs ++ ys) ≡ select p xs ++ select p ys
unfolding select
select-append p [] ys = refl
select-append p (x ∷ xs) ys = elim (Bool-cases (p x)) [
  | inl e ↦ rw e (ap (λ r. x ∷ r) (select-append p xs ys))
  | inr e ↦ rw e (select-append p xs ys)
]

append_nil : {A : Type 0} (xs : List A) → xs ++ [] ≡ xs
append_nil [] = refl
append_nil (x ∷ xs) = ap (λ r. x ∷ r) (append_nil xs)

abbrev extended : Reading → List ListedActivity → Bool → Reading
extended reading more reached = record {
  activities = reading.activities ++ more;
  reached_watermark = reading.reached_watermark || reached;
}

or_false : (b : Bool) → (b || false) ≡ b
or_false true = refl
or_false false = refl

or_true : (b : Bool) → (b || true) ≡ true
or_true true = refl
or_true false = refl

extended-nil : (reading : Reading) → extended reading [] false ≡ reading
extended-nil reading = rw (append_nil reading.activities, or_false reading.reached_watermark) refl

abbrev mapped : {A B : Type 0} → (A → B) → Option A → Option B
mapped f none = none
mapped f (some a) = some (f a)

-- One round of the loop, by its three tests.
extended-round :
    (before watermark old reached : Bool) (reading : Reading) (a : ListedActivity)
    (chosen : List ListedActivity)
    → extended
        (if before
          then record reading { reached_watermark = true }
          else if watermark
          then reading
          else if old
          then reading
          else record reading { activities = reading.activities ++ a ∷ [] })
        chosen
        reached
      ≡ extended reading
          (if not before && (not watermark && not old) then a ∷ chosen else chosen)
          (if before then true else reached)
extended-round true watermark old reached reading a chosen =
    rw (or_true reading.reached_watermark) refl
extended-round false true old reached reading a chosen = refl
extended-round false false true reached reading a chosen = refl
extended-round false false false reached reading a chosen =
    rw (append_assoc reading.activities (a ∷ []) chosen) refl

module _ (dates : Dates) (options : ActivitiesOptions) where
  -- Not before the watermark nor the watermark itself, and not before the lookback.
  unfoldable pub is_wanted : ListedActivity → Bool
  unfolding is_before_watermark is_watermark
  is_wanted a =
      not (is_before_watermark dates options.processed_through a)
      && (not (is_watermark dates options.processed_through a)
          && not (is_earlier dates a.created_at options.lookback_after))

  -- What is read of a page: its activities, of which one before the watermark ends the reading.
  unfoldable pub after_page :
      ActivitiesPage → List Text → List ListedActivity → (Text → Calls Listed) → Calls Listed
  unfolding next_page_cursor is_before_watermark any
  after_page page seen activities more =
      if not page.page_info.has_next_page
        || any (is_before_watermark dates options.processed_through) activities
      then give (done (page.session, activities))
      else give
          (or_fail (query_failed shape) (next_page_cursor page.page_info seen (length page.nodes)))
        >>= (λ cursor. more cursor >>= (λ r. give (done (r.0, activities ++ r.1))))

  unfoldable pub read_page : List Text → (Text → Calls Listed) → Json → Calls Listed
  unfolding activities_page parse_activities after_page
  read_page seen more json = do
    page ← give (or_fail (query_failed shape) (activities_page dates json))
    activities ← give (or_fail (query_failed shape) (parse_activities dates page.nodes))
    after_page page seen activities more

  taken_as : Reading → List ListedActivity → Reading
  unfolding is_wanted is_before_watermark any select
  taken_as reading activities =
      extended reading (select is_wanted activities)
        (any (is_before_watermark dates options.processed_through) activities)

  taken_as-cons :
      (reading : Reading) (a : ListedActivity) (activities : List ListedActivity)
      → taken_as (take_activity dates options a reading) activities
        ≡ taken_as reading (a ∷ activities)
  unfolding taken_as select any take_activity is_wanted
  taken_as-cons reading a activities =
      extended-round (is_before_watermark dates options.processed_through a)
        (is_watermark dates options.processed_through a)
        (is_earlier dates a.created_at options.lookback_after)
        (any (is_before_watermark dates options.processed_through) activities) reading a
        (select is_wanted activities)

  rest-taken_as :
      (a : ListedActivity) (o : Option (List ListedActivity)) (reading : Reading)
      → mapped (taken_as (take_activity dates options a reading)) o
        ≡ mapped (taken_as reading) (Options.◌>>=◌ o (λ rest. some (a ∷ rest)))
  rest-taken_as a none reading = refl
  rest-taken_as a (some rest) reading = ap some (taken_as-cons reading a rest)

  by_activity :
      (nodes : List Json) (o : Option ListedActivity) (reading : Reading)
      → ((next : Reading)
          → take_activities dates options nodes next
            ≡ mapped (taken_as next) (parse_activities dates nodes))
      → take_if_parsed dates options o reading (take_activities dates options nodes)
        ≡ mapped (taken_as reading) (
            Options.◌>>=◌ o
              (λ a. Options.◌>>=◌ (parse_activities dates nodes) (λ rest. some (a ∷ rest))))
  unfolding take_if_parsed
  by_activity nodes none reading h = refl
  by_activity nodes (some a) reading h =
      h (take_activity dates options a reading)
      ∙ rest-taken_as a (parse_activities dates nodes) reading

  take_activities-taken_as :
      (nodes : List Json) (reading : Reading)
      → take_activities dates options nodes reading
        ≡ mapped (taken_as reading) (parse_activities dates nodes)
  unfolding take_activities parse_activities taken_as select any
  take_activities-taken_as [] reading = ap some (sym (extended-nil reading))
  take_activities-taken_as (node ∷ nodes) reading =
      by_activity nodes (parse_agent_activity dates node) reading
        (λ next. take_activities-taken_as nodes next)

  -- What a description of the pages lists, behind the activities that were listed before.
  unfoldable pub chosen : List ListedActivity → Listed → Listed
  unfolding is_wanted select
  chosen activities r = (r.0, activities ++ select is_wanted r.1)

  unfoldable pub kept : List ListedActivity → Result Listed × List Call → Result Listed × List Call
  unfolding chosen
  kept activities out = continue out.0 out.1 (λ r. give (done (chosen activities r)))

  prefixed :
      (o : Result Listed) (log : List Call) (listed page : List ListedActivity)
      → kept (listed ++ select is_wanted page) (o, log)
        ≡ kept listed (continue o log (λ r. give (done (r.0, page ++ r.1))))
  unfolding kept chosen
  prefixed (done r) log listed page =
      rw
        (
          append_assoc listed (select is_wanted page) (select is_wanted r.1),
          select-append is_wanted page r.1,
        )
        refl
  prefixed (failed e) log listed page = refl
  prefixed unfinished log listed page = refl

  -- The loop and its description agree behind a cursor.
  unfoldable pub Agree :
      (Text → List ListedActivity → Calls Listed) → (Text → Calls Listed) → Type 0
  unfolding kept
  Agree more described =
      (c : Text) (listed : List ListedActivity) (log : List Call)
      → more c listed log ≡ kept listed (described c log)

  next-agrees :
      (o : Option Text) (log : List Call) (listed page : List ListedActivity)
      (more : Text → List ListedActivity → Calls Listed) (described : Text → Calls Listed)
      → Agree more described
      → continue
          (or_fail (query_failed shape) o)
          log
          (λ c. more c (listed ++ select is_wanted page))
        ≡ kept listed (
            continue
              (or_fail (query_failed shape) o)
              log
              (λ c. described c >>= (λ r. give (done (r.0, page ++ r.1)))))
  unfolding kept Agree
  next-agrees none log listed page more described h = refl
  next-agrees (some c) log listed page more described h =
      h c (listed ++ select is_wanted page) log
      ∙ prefixed (described c log).0 (described c log).1 listed page

  after_page-agrees :
      (page : ActivitiesPage) (seen : List Text) (listed activities : List ListedActivity)
      (log : List Call) (more : Text → List ListedActivity → Calls Listed)
      (described : Text → Calls Listed)
      → Agree more described
      → after_activities page seen
          (taken_as (record { activities = listed; reached_watermark = false }) activities)
          more
          log
        ≡ kept listed (after_page page seen activities described log)
  unfolding kept taken_as after_activities after_page any
  after_page-agrees page seen listed activities log more described h =
      elim (Bool-cases (
        not page.page_info.has_next_page
        || any (is_before_watermark dates options.processed_through) activities)) [
          | inl e ↦ rw e refl
          | inr e ↦ rw e (
              next-agrees (next_page_cursor page.page_info seen (length page.nodes)) log listed
                activities more described h)
        ]

  parsed-agrees :
      (page : ActivitiesPage) (seen : List Text) (listed : List ListedActivity)
      (o : Option (List ListedActivity)) (log : List Call)
      (more : Text → List ListedActivity → Calls Listed) (described : Text → Calls Listed)
      → Agree more described
      → continue
          (or_fail
            (query_failed shape)
            (mapped (taken_as (record { activities = listed; reached_watermark = false })) o))
          log
          (λ reading. after_activities page seen reading more)
        ≡ kept listed (
            continue
              (or_fail (query_failed shape) o)
              log
              (λ activities. after_page page seen activities described))
  unfolding kept
  parsed-agrees page seen listed none log more described h = refl
  parsed-agrees page seen listed (some activities) log more described h =
      after_page-agrees page seen listed activities log more described h

  pub page-agrees :
      (o : Option ActivitiesPage) (seen : List Text) (listed : List ListedActivity)
      (log : List Call) (more : Text → List ListedActivity → Calls Listed)
      (described : Text → Calls Listed)
      → Agree more described
      → continue (or_fail (query_failed shape) o) log (λ page later.
        continue
          (or_fail (query_failed shape) (
            take_activities dates options page.nodes
              (record { activities = listed; reached_watermark = false })))
          later
          (λ reading. after_activities page seen reading more))
        ≡ kept listed (
            continue (or_fail (query_failed shape) o) log (λ page later.
              continue
                (or_fail (query_failed shape) (parse_activities dates page.nodes))
                later
                (λ activities. after_page page seen activities described)))
  unfolding kept
  page-agrees none seen listed log more described h = refl
  page-agrees (some page) seen listed log more described h =
      let start : Reading = record { activities = listed; reached_watermark = false } in
      rw (take_activities-taken_as page.nodes start)
        (parsed-agrees page seen listed (parse_activities dates page.nodes) log more described h)

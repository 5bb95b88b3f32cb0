-- ===== src/Linear/Delivery.antt =====
-- src/linear/client.ts: what createActivity has sent when it returns.
use linear_agent_bridge.Base.{
  ◌≡◌, refl, sym, subst, inl, inr, Bool, true, false, Option, none, some, List, [], ◌∷◌, text,
  Bool-cases, if◌then◌else◌,
}
use linear_agent_bridge.Json.{Json}
use linear_agent_bridge.Linear.Calls.{
  Input, Body, create_input, Response, Call, checked_abort, asked_token, asked_refresh, posted, Net,
  TokenSource, Failure, Result, done, failed, unfinished, continue, give, is_ok, authorized_post,
}
use linear_agent_bridge.Linear.Client.{
  member_of, has_errors, has_created, activity_result, created_result, create_activity,
}
use linear_agent_bridge.Linear.Sending.{EndsWith, IfDone, Sends, authorized_post-Sent}

-- The body of an answer takes the activity: without errors, and its `success` is true.
unfoldable pub AcceptsJson : Net → Json → Type 0
unfolding has_errors has_created member_of
AcceptsJson net j =
    (has_errors net (member_of (text "errors") (some j)) ≡ false) × (has_created j ≡ true)

-- The answer takes the activity: an HTTP success with such a body.
unfoldable pub Accepts : Net → Option Response → Type 0
unfolding AcceptsJson
Accepts net none = ⊥
Accepts net (some r) = (is_ok r ≡ true) × ((j : Json) × (r.json ≡ some j) × AcceptsJson net j)

EndsWith-map :
    (net : Net) (body : Body) (P Q : Option Response → Type 0) (log : List Call)
    → ((o : Option Response) → P o → Q o)
    → EndsWith net body P log
    → EndsWith net body Q log
EndsWith-map net body P Q [] f h = h
EndsWith-map net body P Q (posted p ∷ log) f h = (h.0, f (net.fetch log p) h.1)
EndsWith-map net body P Q (checked_abort ∷ log) f h = h
EndsWith-map net body P Q (asked_token ∷ log) f h = h
EndsWith-map net body P Q (asked_refresh t ∷ log) f h = h

abbrev IsDone : Result (Unit {0}) → Type 0
IsDone (done a) = Unit
IsDone (failed e) = ⊥
IsDone unfinished = ⊥

tests : Bool → Bool → Result (Unit {0})
tests e s =
    if e
    then failed Failure.activity_graphql
    else if s
    then done tt
    else failed Failure.activity_refused

tests-passed : (e s : Bool) → IsDone (tests e s) → (e ≡ false) × (s ≡ true)
unfolding tests
tests-passed true s h = absurd h
tests-passed false true h = (refl, refl)
tests-passed false false h = absurd h

tested :
    (net : Net) (j : Json)
    → IsDone (tests (has_errors net (member_of (text "errors") (some j))) (has_created j))
    → AcceptsJson net j
unfolding AcceptsJson
tested net j h =
    tests-passed (has_errors net (member_of (text "errors") (some j))) (has_created j) h

created_result-AcceptsJson :
    (net : Net) (j : Json) → IsDone (created_result net j) → AcceptsJson net j
unfolding created_result tests
created_result-AcceptsJson net Json.null h = absurd h
created_result-AcceptsJson net (Json.boolean x) h = tested net (Json.boolean x) h
created_result-AcceptsJson net (Json.number x) h = tested net (Json.number x) h
created_result-AcceptsJson net (Json.string x) h = tested net (Json.string x) h
created_result-AcceptsJson net (Json.array x) h = tested net (Json.array x) h
created_result-AcceptsJson net (Json.object x) h = tested net (Json.object x) h

activity_result-Accepts :
    (net : Net) (r : Response) (o : Option Json)
    → r.json ≡ o
    → IsDone (activity_result net r o)
    → Accepts net (some r)
unfolding activity_result Accepts
activity_result-Accepts net r none e h = elim (Bool-cases (is_ok r)) [
  | inl ok ↦ absurd (rw ok at h)
  | inr bad ↦ absurd (rw bad at h)
]
activity_result-Accepts net r (some j) e h = elim (Bool-cases (is_ok r)) [
  | inl ok ↦ (ok, (j, e, created_result-AcceptsJson net j (rw ok at h)))
  | inr bad ↦ absurd (rw bad at h)
]

result-IfDone :
    (net : Net) (body : Body) (after : List Call) (res : Result (Unit {0}))
    → (IsDone res → EndsWith net body (Accepts net) after)
    → IfDone (λ _. EndsWith net body (Accepts net)) (res, after)
result-IfDone net body after (done a) h = h tt
result-IfDone net body after (failed e) h = tt
result-IfDone net body after unfinished h = tt

accepted-IfDone :
    (net : Net) (body : Body) (after : List Call) (res : Result Response)
    → IfDone (λ r. EndsWith net body (λ o. o ≡ some r)) (res, after)
    → IfDone
        (λ _. EndsWith net body (Accepts net))
        (continue res after (λ r. give (activity_result net r r.json)))
accepted-IfDone net body after (done r) h =
    result-IfDone net body after (activity_result net r r.json) (λ is_done.
      EndsWith-map net body (λ o. o ≡ some r) (Accepts net) after
        (λ o e. subst (Accepts net) (sym e) (activity_result-Accepts net r r.json refl is_done)) h)
accepted-IfDone net body after (failed e) h = tt
accepted-IfDone net body after unfinished h = tt

kept_after :
    (net : Net) (source : TokenSource) (body : Body) (log after : List Call) (res : Result Response)
    → Sends net source body log after
    → Sends net source body log (continue res after (λ r. give (activity_result net r r.json))).1
kept_after net source body log after (done r) h = h
kept_after net source body log after (failed e) h = h
kept_after net source body log after unfinished h = h

-- Whatever the network, the token manager and the signal do, createActivity sends no request, one,
-- or two; each carries the activity, and a second one is sent only with a token manager, after the
-- first was answered with 401 and its token was handed in for a refresh. It returns only if its last
-- request was answered with an HTTP success that takes the activity.
pub create_activity-Accepts :
    (net : Net) (source : TokenSource) (input : Input) (log : List Call)
    → Sends net source (create_input input) log (create_activity net source input log).1
      × IfDone
          (λ _. EndsWith net (create_input input) (Accepts net))
          (create_activity net source input log)
unfolding create_activity
create_activity-Accepts net source input log =
    let sent = authorized_post-Sent net source (create_input input) log in
    let out = authorized_post net source (create_input input) log in
    (
      kept_after net source (create_input input) log out.1 out.0 sent.0,
      accepted-IfDone net (create_input input) out.1 out.0 sent.1,
    )

-- ===== src/Linear/Queries.antt =====
-- src/linear/client.ts: that a query ends, and whose answer it returns.
use linear_agent_bridge.Base.{
  ◌≡◌, refl, Bool, true, false, Option, none, some, List, [], ◌∷◌, Text, text, Bool-cases, inl, inr,
  if◌then◌else◌,
}
use linear_agent_bridge.Json.{Json}
use linear_agent_bridge.Linear.Calls.{
  Query, query, Body, Post, Response, Call, checked_abort, asked_token, asked_refresh, posted, Net,
  TokenSource, fixed, manager, Failure, rejected, Result, done, failed, unfinished, Calls, ◌>>=◌,
  continue, give, or_fail, fail_if, access_token_of, post, posted_again, may_refresh,
  authorized_post, is_ok,
}
use linear_agent_bridge.Linear.Client.{member_of, query_result, query_graphql, has_error_list}
use linear_agent_bridge.Linear.Sending.{IfDone, EndsWith, authorized_post-Sent}

-- An operation ends, and `P` holds of what it returns.
abbrev pub OnFinished : {A : Type 0} → (A → Type 0) → Result A × List Call → Type 0
OnFinished P (done a, log) = P a
OnFinished P (failed e, log) = Unit
OnFinished P (unfinished, log) = ⊥

module _ {A B : Type 0} (Q : A → Type 0) (P : B → Type 0) where
  pub OnFinished-continue :
      (o : Result A) (log : List Call) (f : A → Calls B)
      → OnFinished Q (o, log)
      → ((a : A) (later : List Call) → Q a → OnFinished P (f a later))
      → OnFinished P (continue o log f)
  OnFinished-continue (done a) log f h k = k a log h
  OnFinished-continue (failed e) log f h k = tt
  OnFinished-continue unfinished log f h k = absurd h

pub OnFinished-or_fail :
    {A : Type 0} (P : A → Type 0) (e : Failure) (o : Option A) (log : List Call)
    → ((a : A) → o ≡ some a → P a)
    → OnFinished P (or_fail e o, log)
OnFinished-or_fail P e none log h = tt
OnFinished-or_fail P e (some a) log h = h a refl

pub OnFinished-fail_if :
    {B : Type 0} (P : B → Type 0) (b : Bool) (e : Failure) (k : Calls B) (log : List Call)
    → (b ≡ false → OnFinished P (k log))
    → OnFinished P ((fail_if b e >>= λ _. k) log)
OnFinished-fail_if P true e k log h = tt
OnFinished-fail_if P false e k log h = h refl

abbrev Any : {A : Type 0} → A → Type 0
Any a = Unit {0}

access_token_of-OnFinished :
    (net : Net) (source : TokenSource) (log : List Call)
    → OnFinished Any (access_token_of net source log)
unfolding access_token_of
access_token_of-OnFinished net (fixed t) log = elim (Bool-cases (net.is_aborted log)) [
  | inl e ↦ rw e tt
  | inr e ↦ rw e tt
]
access_token_of-OnFinished net manager log =
    OnFinished-or_fail Any rejected (net.get_access_token log) (asked_token ∷ log) (λ a e. tt)

post-OnFinished :
    (net : Net) (body : Body) (token : Text) (log : List Call)
    → OnFinished Any (post net body token log)
unfolding post
post-OnFinished net body token log =
    let p : Post = record { access_token = token; body = body } in
    OnFinished-or_fail Any rejected (net.fetch log p) (posted p ∷ log) (λ a e. tt)

posted_again-OnFinished :
    (net : Net) (body : Body) (token : Text) (again : Bool) (r : Response) (log : List Call)
    → OnFinished Any (posted_again net body token again r log)
unfolding posted_again
posted_again-OnFinished net body token true r log =
    OnFinished-continue Any Any (or_fail rejected (net.renewed_access_token log token))
      (asked_refresh token ∷ log) (post net body)
      (OnFinished-or_fail Any rejected (net.renewed_access_token log token)
        (asked_refresh token ∷ log) (λ a e. tt))
      (λ t later h. post-OnFinished net body t later)
posted_again-OnFinished net body token false r log = tt

authorized_post-OnFinished :
    (net : Net) (source : TokenSource) (body : Body) (log : List Call)
    → OnFinished Any (authorized_post net source body log)
unfolding authorized_post
authorized_post-OnFinished net source body log =
    OnFinished-continue Any Any (access_token_of net source log).0
      (access_token_of net source log).1 _ (access_token_of-OnFinished net source log)
      (λ token later h.
        OnFinished-continue Any Any (post net body token later).0 (post net body token later).1 _
          (post-OnFinished net body token later)
          (λ r end k. posted_again-OnFinished net body token (may_refresh source r) r end))

-- An answer of the network has this body.
abbrev pub IsAnswer : Net → Json → Type 0
IsAnswer net j =
    (log : List Call) × (p : Post) × (r : Response) × (net.fetch log p ≡ some r) × (r.json ≡ some j)

ends-IsAnswer :
    (net : Net) (body : Body) (r : Response) (j : Json) (log : List Call)
    → EndsWith net body (λ o. o ≡ some r) log
    → r.json ≡ some j
    → IsAnswer net j
ends-IsAnswer net body r j [] h e = absurd h
ends-IsAnswer net body r j (posted p ∷ log) h e = (log, p, r, h.1, e)
ends-IsAnswer net body r j (checked_abort ∷ log) h e = absurd h
ends-IsAnswer net body r j (asked_token ∷ log) h e = absurd h
ends-IsAnswer net body r j (asked_refresh t ∷ log) h e = absurd h

tested-OnFinished :
    (P : Json → Type 0) (a b : Bool) (e f : Failure) (j : Json) (log : List Call)
    → P j
    → OnFinished P (if a then if b then failed e else done j else failed f, log)
tested-OnFinished P true true e f j log h = tt
tested-OnFinished P true false e f j log h = h
tested-OnFinished P false b e f j log h = tt

query_result-OnFinished :
    (P : Json → Type 0) (r : Response) (o : Option Json) (log : List Call)
    → ((j : Json) → o ≡ some j → P j)
    → OnFinished P (query_result r o, log)
unfolding query_result
query_result-OnFinished P r none log h = elim (Bool-cases (is_ok r)) [
  | inl e ↦ rw e tt
  | inr e ↦ rw e tt
]
query_result-OnFinished P r (some j) log h =
    tested-OnFinished P (is_ok r) (has_error_list (member_of (text "errors") (some j))) _ _ j log
      (h j refl)

answered-OnFinished :
    (net : Net) (body : Body) (o : Result Response) (log : List Call)
    → OnFinished Any (o, log)
    → IfDone (λ r. EndsWith net body (λ x. x ≡ some r)) (o, log)
    → OnFinished (IsAnswer net) (continue o log (λ r. give (query_result r r.json)))
answered-OnFinished net body (done r) log f h =
    query_result-OnFinished (IsAnswer net) r r.json log (λ j e. ends-IsAnswer net body r j log h e)
answered-OnFinished net body (failed e) log f h = tt
answered-OnFinished net body unfinished log f h = absurd f

-- A query ends, and what it returns is the body of an answer.
pub query_graphql-IsAnswer :
    (net : Net) (source : TokenSource) (q : Query) (log : List Call)
    → OnFinished (IsAnswer net) (query_graphql net source q log)
unfolding query_graphql
query_graphql-IsAnswer net source q log =
    let out = authorized_post net source (query q) log in
    answered-OnFinished net (query q) out.0 out.1
      (authorized_post-OnFinished net source (query q) log)
      (authorized_post-Sent net source (query q) log).1

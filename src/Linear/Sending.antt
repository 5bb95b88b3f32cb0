-- ===== src/Linear/Sending.antt =====
-- src/linear/client.ts: the requests that a call makes, with its second try after a 401.
use linear_agent_bridge.Base.{
  ◌≡◌, refl, sym, ap, subst, ◌⊎◌, inl, inr, false, Option, none, some, List, [], ◌∷◌, Text, ◌==◌,
  Bool-cases,
}
use linear_agent_bridge.Recovery.Base64.{eqb→eq}
use linear_agent_bridge.Linear.Calls.{
  Body, Post, Response, Call, checked_abort, asked_token, asked_refresh, posted, Net, TokenSource,
  fixed, manager, rejected, Result, done, failed, unfinished, ◌>>=◌, continue, or_fail,
  access_token_of, post, posted_again, may_refresh, authorized_post, ended_by,
}

-- The requests among the calls, the latest first.
abbrev pub posts : List Call → List Post
posts [] = []
posts (posted p ∷ log) = p ∷ posts log
posts (checked_abort ∷ log) = posts log
posts (asked_token ∷ log) = posts log
posts (asked_refresh t ∷ log) = posts log

-- The last call is a request with this body, and its answer satisfies `P`.
abbrev pub EndsWith : Net → Body → (Option Response → Type 0) → List Call → Type 0
EndsWith net body P [] = ⊥
EndsWith net body P (posted p ∷ log) = (p.body ≡ body) × P (net.fetch log p)
EndsWith net body P (checked_abort ∷ log) = ⊥
EndsWith net body P (asked_token ∷ log) = ⊥
EndsWith net body P (asked_refresh t ∷ log) = ⊥

-- What holds of an operation that returns.
abbrev pub IfDone : {A : Type 0} → (A → List Call → Type 0) → Result A × List Call → Type 0
IfDone P (done a, log) = P a log
IfDone P (failed e, log) = Unit
IfDone P (unfinished, log) = Unit

abbrev pub WasUnauthorized : Option Response → Type 0
WasUnauthorized none = ⊥
WasUnauthorized (some r) = r.status ≡ 401

-- What a caller may have sent since `log`: nothing, one request, or two of which the first was
-- answered with 401 and the token of which was then handed in for a refresh.
abbrev pub Sends : Net → TokenSource → Body → List Call → List Call → Type 0
Sends net source body log after =
    (posts after ≡ posts log)
    ⊎ ((p : Post) × (p.body ≡ body) × (posts after ≡ p ∷ posts log))
    ⊎ ((p : Post) × (q : Post) × (before : List Call) × (source ≡ manager)
        × (p.body ≡ body)
        × (q.body ≡ body)
        × WasUnauthorized (net.fetch before p)
        × (after ≡ posted q ∷ asked_refresh p.access_token ∷ posted p ∷ before)
        × (posts before ≡ posts log))

-- The request of an operation, and that its answer is what the last request got.
abbrev Sent : Net → TokenSource → Body → List Call → Result Response × List Call → Type 0
Sent net source body log out =
    Sends net source body log out.1 × IfDone (λ r. EndsWith net body (λ o. o ≡ some r)) out

abbrev request : Text → Body → Post
request token body = record { access_token = token; body = body }

answered-IfDone :
    (net : Net) (body : Body) (token : Text) (before : List Call) (o : Option Response)
    → net.fetch before (request token body) ≡ o
    → IfDone
        (λ r. EndsWith net body (λ x. x ≡ some r))
        (or_fail rejected o, posted (request token body) ∷ before)
answered-IfDone net body token before none h = tt
answered-IfDone net body token before (some r) h = (refl, h)

refreshed-Sent :
    (net : Net) (body : Body) (token : Text) (log before : List Call) (r : Response)
    (o : Option Text)
    → posts before ≡ posts log
    → net.fetch before (request token body) ≡ some r
    → r.status ≡ 401
    → Sent net manager body log (
        continue
          (or_fail rejected o)
          (asked_refresh token ∷ posted (request token body) ∷ before)
          (post net body))
unfolding post posted_again
refreshed-Sent net body token log before r none h answered status =
    (inr (inl (request token body, refl, ap (λ x. request token body ∷ x) h)), tt)
refreshed-Sent net body token log before r (some t) h answered status = (
  inr (
      inr (
        request token body,
        request t body,
        before,
        refl,
        refl,
        refl,
        subst WasUnauthorized (sym answered) status,
        refl,
        h,
      )),
  answered-IfDone net body t (asked_refresh token ∷ posted (request token body) ∷ before)
      (net.fetch (asked_refresh token ∷ posted (request token body) ∷ before) (request t body))
      refl,
)

once-Sent :
    (net : Net) (source : TokenSource) (body : Body) (token : Text) (log before : List Call)
    (r : Response)
    → posts before ≡ posts log
    → net.fetch before (request token body) ≡ some r
    → Sent net source body log
        (posted_again net body token false r (posted (request token body) ∷ before))
unfolding post posted_again
once-Sent net source body token log before r h answered =
    (inr (inl (request token body, refl, ap (λ x. request token body ∷ x) h)), (refl, answered))

posted_again-Sent :
    (net : Net) (source : TokenSource) (body : Body) (token : Text) (log before : List Call)
    (r : Response)
    → posts before ≡ posts log
    → net.fetch before (request token body) ≡ some r
    → Sent net source body log (
        posted_again net body token (may_refresh source r) r (posted (request token body) ∷ before))
unfolding post posted_again
posted_again-Sent net (fixed t) body token log before r h answered =
    once-Sent net (fixed t) body token log before r h answered
posted_again-Sent net manager body token log before r h answered =
    elim (Bool-cases (r.status == 401)) [
      | inl e ↦ rw e (
          refreshed-Sent net body token log before r
            (net.renewed_access_token (posted (request token body) ∷ before) token) h answered
            (eqb→eq r.status 401 e))
      | inr e ↦ rw e (once-Sent net manager body token log before r h answered)
    ]

first-Sent :
    (net : Net) (source : TokenSource) (body : Body) (token : Text) (log before : List Call)
    (o : Option Response)
    → posts before ≡ posts log
    → net.fetch before (request token body) ≡ o
    → Sent net source body log (
        continue
          (or_fail rejected o)
          (posted (request token body) ∷ before)
          (λ r. posted_again net body token (may_refresh source r) r))
first-Sent net source body token log before none h answered =
    (inr (inl (request token body, refl, ap (λ x. request token body ∷ x) h)), tt)
first-Sent net source body token log before (some r) h answered =
    posted_again-Sent net source body token log before r h answered

token-Sent :
    (net : Net) (source : TokenSource) (body : Body) (log before : List Call) (o : Result Text)
    → posts before ≡ posts log
    → Sent net source body log (
        continue o before (λ token.
          post net body token >>= λ r. posted_again net body token (may_refresh source r) r))
unfolding post posted_again
token-Sent net source body log before (done token) h =
    first-Sent net source body token log before (net.fetch before (request token body)) h refl
token-Sent net source body log before (failed e) h = (inl h, tt)
token-Sent net source body log before unfinished h = (inl h, tt)

pub authorized_post-Sent :
    (net : Net) (source : TokenSource) (body : Body) (log : List Call)
    → Sent net source body log (authorized_post net source body log)
unfolding authorized_post access_token_of
authorized_post-Sent net (fixed t) body log =
    token-Sent net (fixed t) body log (checked_abort ∷ log) (ended_by (net.is_aborted log) t) refl
authorized_post-Sent net manager body log =
    token-Sent net manager body log (asked_token ∷ log)
      (or_fail rejected (net.get_access_token log)) refl

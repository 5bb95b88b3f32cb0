-- ===== src/Linear/Spent.antt =====
-- src/linear/oauth.ts: which refresh tokens are sent, in every order of callers and answers.
use linear_agent_bridge.Base.{
  ℕ, ◌≡◌, refl, subst, ◌⊎◌, inl, inr, Bool, true, false, Option, none, some, List, [], ◌∷◌, Text,
  same, any, Bool-cases, arith,
}
use linear_agent_bridge.Base.Lists.{All, All-map}
use linear_agent_bridge.Json.{Number}
use linear_agent_bridge.Recovery.Base64.{same_eq, same_refl}
use linear_agent_bridge.Linear.Calls.{Response}
use linear_agent_bridge.Linear.Tokens.{
  StoredTokens, Manager, StoreFile, take_tokens, parse_token_response,
}
use linear_agent_bridge.Linear.Refreshing.{
  Flight, asking, saving, Service, Answer, start_refresh, join_refresh, refresh_after_unauthorized,
  SaveEnd, settle_refresh, installed_by, pair_of, on_answer, on_saved, install_pair, install,
  on_authorized, TokenStep, unauthorized, answer_arrives, saved_refresh, authorized,
  saved_authorized, token_step, token_run, opened,
}

unfoldable pub is_among : List Text → Text → Bool
unfolding any
is_among ts t = any (same t) ts

unfoldable IsUnspent : List Text → Option Text → Type 0
unfolding is_among
IsUnspent replaced none = Unit
IsUnspent replaced (some t) = is_among replaced t ≡ false

unfoldable WasSent : List Text → Option Flight → Type 0
unfolding is_among
WasSent sent none = Unit
WasSent sent (some (asking t)) = is_among sent t ≡ true
WasSent sent (some (saving t)) = Unit

record Inv (s : Service) : Type 0 where
  were_sent : All (λ t. is_among s.sent t ≡ true) s.replaced
  is_unspent : IsUnspent s.replaced s.manager.refresh_token
  was_sent : WasSent s.sent s.refreshing

none_true : (b : Bool) → b ≡ true → b ≡ false → ⊥
none_true b h k = ground arith

not_among :
    (sent replaced : List Text) (t : Text)
    → All (λ x. is_among sent x ≡ true) replaced
    → is_among sent t ≡ false
    → is_among replaced t ≡ false
unfolding is_among any
not_among sent [] t h new = refl
not_among sent (x ∷ replaced) t h new = elim (Bool-cases (same t x)) [
  | inl e ↦
      absurd
        (none_true (is_among sent x) h.0 (subst (λ y. is_among sent y ≡ false) (same_eq t x e) new))
  | inr e ↦ rw e (not_among sent replaced t h.1 new)
]

more_among : (sent : List Text) (x t : Text) → is_among sent t ≡ true → is_among (x ∷ sent) t ≡ true
unfolding is_among any
more_among sent x t h = ground (arith, h)

head_among : (sent : List Text) (t : Text) → is_among (t ∷ sent) t ≡ true
unfolding is_among any
head_among sent t = rw (same_refl t) refl

start_refresh-Inv : (s : Service) (o : Option Text) → Inv s → Inv (start_refresh s o).1
unfolding start_refresh WasSent
start_refresh-Inv s none h = h
start_refresh-Inv s (some t) h = record {
  were_sent =
      All-map (λ x. is_among s.sent x ≡ true) (λ x. is_among (t ∷ s.sent) x ≡ true) s.replaced
        (λ x. more_among s.sent t x) h.were_sent;
  is_unspent = h.is_unspent;
  was_sent = head_among s.sent t;
}

join_refresh-Inv : (s : Service) (o : Option Flight) → Inv s → Inv (join_refresh s o).1
unfolding join_refresh
join_refresh-Inv s none h = start_refresh-Inv s s.manager.refresh_token h
join_refresh-Inv s (some f) h = h

refresh_after_unauthorized-Inv :
    (failed : Text) (s : Service) → Inv s → Inv (refresh_after_unauthorized failed s).1
unfolding refresh_after_unauthorized
refresh_after_unauthorized-Inv failed s h = elim (Bool-cases (same failed s.manager.access_token)) [
  | inl e ↦ rw e (join_refresh-Inv s s.refreshing h)
  | inr e ↦ rw e h
]

settle_refresh-Inv : (result : Option Text) (s : Service) → Inv s → Inv (settle_refresh result s)
unfolding settle_refresh WasSent
settle_refresh-Inv result s h = record {
  were_sent = h.were_sent;
  is_unspent = h.is_unspent;
  was_sent = tt;
}

-- A pair whose refresh token was not sent before.
unfoldable pub IsNew : List Text → Option StoredTokens → Type 0
unfolding is_among
IsNew sent none = Unit
IsNew sent (some t) = is_among sent t.refresh_token ≡ false

installed_by-Inv :
    (used : Text) (o : Option StoredTokens) (s : Service)
    → is_among s.sent used ≡ true
    → IsNew s.sent o
    → Inv s
    → Inv (installed_by used o s)
unfolding installed_by take_tokens IsNew IsUnspent WasSent
installed_by-Inv used none s sent new h = settle_refresh-Inv none s h
installed_by-Inv used (some t) s sent new h = record {
  were_sent = (sent, h.were_sent);
  is_unspent = not_among s.sent (used ∷ s.replaced) t.refresh_token (sent, h.were_sent) new;
  was_sent = tt;
}

on_answer-Inv :
    (expiry : Number → Option Text) (r : Option Response) (s : Service) (o : Option Flight)
    → WasSent s.sent o
    → IsNew s.sent (pair_of expiry r)
    → Inv s
    → Inv (on_answer expiry r s o)
unfolding on_answer WasSent
on_answer-Inv expiry r s (some (asking used)) sent new h =
    installed_by-Inv used (pair_of expiry r) s sent new h
on_answer-Inv expiry r s (some (saving t)) sent new h = h
on_answer-Inv expiry r s none sent new h = h

on_saved-Inv : (e : SaveEnd) (s : Service) (o : Option Flight) → Inv s → Inv (on_saved e s o)
unfolding on_saved settle_refresh WasSent
on_saved-Inv e s (some (asking used)) h = h
on_saved-Inv e s (some (saving t)) h = record {
  were_sent = h.were_sent;
  is_unspent = h.is_unspent;
  was_sent = tt;
}
on_saved-Inv e s none h = h

install_pair-Inv :
    (o : Option StoredTokens) (s : Service) → IsNew s.sent o → Inv s → Inv (install_pair o s)
unfolding install_pair take_tokens IsNew IsUnspent
install_pair-Inv none s new h = h
install_pair-Inv (some t) s new h = record {
  were_sent = h.were_sent;
  is_unspent = not_among s.sent s.replaced t.refresh_token h.were_sent new;
  was_sent = h.was_sent;
}

on_authorized-Inv : (e : SaveEnd) (n : ℕ) (s : Service) → Inv s → Inv (on_authorized e n s)
unfolding on_authorized
on_authorized-Inv e n s h = record {
  were_sent = h.were_sent;
  is_unspent = h.is_unspent;
  was_sent = h.was_sent;
}

module _ (expiry : Number → Option Text) where
  -- Linear rotates: a pair that it hands out has a refresh token that was not sent before.
  unfoldable pub Rotates : TokenStep → Service → Type 0
  unfolding IsNew pair_of parse_token_response
  Rotates (unauthorized failed) s = Unit
  Rotates (answer_arrives r) s = IsNew s.sent (pair_of expiry r)
  Rotates (saved_refresh e) s = Unit
  Rotates (authorized response) s = IsNew s.sent (parse_token_response expiry response)
  Rotates (saved_authorized e n) s = Unit

  unfoldable pub AllRotate : List TokenStep → Service → Type 0
  unfolding Rotates token_step
  AllRotate [] s = Unit
  AllRotate (e ∷ events) s = Rotates e s × AllRotate events (token_step expiry e s)

  token_step-Inv : (e : TokenStep) (s : Service) → Rotates e s → Inv s → Inv (token_step expiry e s)
  unfolding token_step Rotates install
  token_step-Inv (unauthorized failed) s new h = refresh_after_unauthorized-Inv failed s h
  token_step-Inv (answer_arrives r) s new h = on_answer-Inv expiry r s s.refreshing h.was_sent new h
  token_step-Inv (saved_refresh e) s new h = on_saved-Inv e s s.refreshing h
  token_step-Inv (authorized response) s new h =
      install_pair-Inv (parse_token_response expiry response) s new h
  token_step-Inv (saved_authorized e n) s new h = on_authorized-Inv e n s h

  token_run-Inv :
      (events : List TokenStep) (s : Service)
      → AllRotate events s
      → Inv s
      → Inv (token_run expiry events s)
  unfolding token_run AllRotate
  token_run-Inv [] s new h = h
  token_run-Inv (e ∷ events) s new h =
      token_run-Inv events (token_step expiry e s) new.1 (token_step-Inv e s new.0 h)

nothing_spent : (o : Option Text) → IsUnspent [] o
unfolding IsUnspent is_among any
nothing_spent none = tt
nothing_spent (some t) = refl

opened-Inv : (m : Manager) (file : StoreFile) → Inv (opened m file)
unfolding opened WasSent
opened-Inv m file = record {
  were_sent = tt;
  is_unspent = nothing_spent m.refresh_token;
  was_sent = tt;
}

-- What a caller whose request was refused with the token `failed` brings about: it gets the token of
-- the manager, which is another one; or it waits for the refresh that runs, or is refused; or it
-- starts the only refresh, with a token for which no new pair has been received.
unfoldable pub Asks : Text → Service → Answer × Service → Type 0
unfolding is_among
Asks failed s (Answer.current t, after) =
    (after ≡ s) × (t ≡ s.manager.access_token) × (same failed t ≡ false)
Asks failed s (Answer.refused, after) =
    (after ≡ s) × (s.refreshing ≡ none) × (s.manager.refresh_token ≡ none)
Asks failed s (Answer.waits, after) =
    ((after ≡ s) × ((f : Flight) × (s.refreshing ≡ some f)))
    ⊎ ((t : Text) × (s.refreshing ≡ none)
        × (after.refreshing ≡ some (asking t))
        × (after.sent ≡ t ∷ s.sent)
        × (is_among s.replaced t ≡ false))

start_refresh-Asks :
    (failed : Text) (s : Service) (o : Option Text)
    → s.manager.refresh_token ≡ o
    → IsUnspent s.replaced o
    → s.refreshing ≡ none
    → Asks failed s (start_refresh s o)
unfolding start_refresh Asks IsUnspent
start_refresh-Asks failed s none e h free = (refl, free, e)
start_refresh-Asks failed s (some t) e h free = inr (t, free, refl, refl, h)

join_refresh-Asks :
    (failed : Text) (s : Service) (o : Option Flight)
    → s.refreshing ≡ o
    → Inv s
    → Asks failed s (join_refresh s o)
unfolding join_refresh Asks
join_refresh-Asks failed s none e h =
    start_refresh-Asks failed s s.manager.refresh_token refl h.is_unspent e
join_refresh-Asks failed s (some f) e h = inl (refl, (f, e))

refresh_after_unauthorized-Inv-Asks :
    (failed : Text) (s : Service) → Inv s → Asks failed s (refresh_after_unauthorized failed s)
unfolding refresh_after_unauthorized Asks
refresh_after_unauthorized-Inv-Asks failed s h =
    elim (Bool-cases (same failed s.manager.access_token)) [
      | inl e ↦ rw e (join_refresh-Asks failed s s.refreshing refl h)
      | inr e ↦ rw e (refl, refl, e)
    ]

-- Linear rotates its refresh tokens, and from a loaded manager any callers, answers and ends of
-- writes have come in any order. Then a caller of refreshAfterUnauthorized gets the manager's token
-- at once only if it is another one than the refused token; it joins a refresh that runs; without a
-- refresh token it is refused; and else it starts a refresh, while no other runs, with a refresh
-- token for which no answer with a new pair has been received. (After an answer that was lost or
-- malformed, the same refresh token is sent again.)
pub refresh_after_unauthorized-Asks :
    (expiry : Number → Option Text) (m : Manager) (file : StoreFile) (events : List TokenStep)
    (failed : Text)
    → AllRotate expiry events (opened m file)
    → Asks failed
        (token_run expiry events (opened m file))
        (refresh_after_unauthorized failed (token_run expiry events (opened m file)))
refresh_after_unauthorized-Asks expiry m file events failed new =
    refresh_after_unauthorized-Inv-Asks failed (token_run expiry events (opened m file))
      (token_run-Inv expiry events (opened m file) new (opened-Inv m file))

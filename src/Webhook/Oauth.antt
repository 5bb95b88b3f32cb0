-- ===== src/Webhook/Oauth.antt =====
-- `OAuthStateStore` of src/server.ts: the states of authorizations that were begun, each of which is
-- accepted once, for ten minutes.
use linear_agent_bridge.Base.{
  ℕ, ◌+◌, ◌≤◌, ◌≡◌, ◌≢◌, refl, ap, ◌∙◌, Bool, false, Option, none, some, List, [], ◌∷◌, Text, ltb,
  leb, if◌then◌else◌, Dict, lookup, put, remove, arith,
}
use linear_agent_bridge.Base.Dicts.{lookup-put_self, lookup-put_ne, lookup-remove}

-- `OAUTH_STATE_TTL_MS`
abbrev pub oauth_state_ttl_ms : ℕ
oauth_state_ttl_ms = 600000

-- `removeExpired`
unfoldable pub remove_expired_states : ℕ → Dict ℕ → Dict ℕ
remove_expired_states now [] = []
remove_expired_states now ((state, expires_at) ∷ states) =
    let rest = remove_expired_states now states in
    if ltb expires_at now then rest else (state, expires_at) ∷ rest

-- `issue`, with the state that `randomBytes` gave.
unfoldable pub issue : Text → ℕ → Dict ℕ → Dict ℕ
unfolding remove_expired_states put
issue state now states = put state (now + oauth_state_ttl_ms) (remove_expired_states now states)

abbrev is_live : ℕ → Option ℕ → Bool
is_live now none = false
is_live now (some expires_at) = leb now expires_at

-- `consume`
unfoldable pub consume : Text → ℕ → Dict ℕ → Bool × Dict ℕ
unfolding lookup remove
consume state now states = (is_live now (lookup state states), remove state states)

-- A call with the time that it reads.
pub data Call : Type 0 where
  issues consumes : (state : Text) (now : ℕ) → Call

unfoldable pub apply : Call → Dict ℕ → Dict ℕ
unfolding issue consume
apply (issues state now) states = issue state now states
apply (consumes state now) states = (consume state now states).1

unfoldable pub apply_all : List Call → Dict ℕ → Dict ℕ
unfolding apply
apply_all [] states = states
apply_all (c ∷ calls) states = apply_all calls (apply c states)

-- No call issues the state again; no call consumes it either, and none comes after `limit`.
abbrev pub NeverIssues : Text → List Call → Type 0
NeverIssues state [] = Unit {0}
NeverIssues state (issues other now ∷ calls) = (other ≢ state) × NeverIssues state calls
NeverIssues state (consumes other now ∷ calls) = NeverIssues state calls

abbrev pub Spares : Text → ℕ → List Call → Type 0
Spares state limit [] = Unit {0}
Spares state limit (issues other now ∷ calls) =
    (other ≢ state) × (now ≤ limit) × Spares state limit calls
Spares state limit (consumes other now ∷ calls) = (other ≢ state) × Spares state limit calls

remove_expired_states-missing :
    (state : Text) (now : ℕ) (states : Dict ℕ)
    → lookup state states ≡ none
    → lookup state (remove_expired_states now states) ≡ none
unfolding remove_expired_states lookup
remove_expired_states-missing state now [] h = refl
remove_expired_states-missing state now ((other, e) ∷ states) h =
    ground (arith, h, remove_expired_states-missing state now states)

remove_expired_states-kept :
    (state : Text) (now limit : ℕ) (states : Dict ℕ)
    → now ≤ limit
    → lookup state states ≡ some limit
    → lookup state (remove_expired_states now states) ≡ some limit
unfolding remove_expired_states lookup
remove_expired_states-kept state now limit [] t h = h
remove_expired_states-kept state now limit ((other, e) ∷ states) t h =
    ground (arith, t, h, remove_expired_states-kept state now limit states t)

apply_all-missing :
    (state : Text) (calls : List Call) (states : Dict ℕ)
    → NeverIssues state calls
    → lookup state states ≡ none
    → lookup state (apply_all calls states) ≡ none
unfolding apply_all apply issue consume
apply_all-missing state [] states h m = m
apply_all-missing state (issues other now ∷ calls) states h m =
    apply_all-missing state calls (issue other now states) h.1 (
      lookup-put_ne state other (now + oauth_state_ttl_ms) (remove_expired_states now states) h.0
      ∙ remove_expired_states-missing state now states m)
apply_all-missing state (consumes other now ∷ calls) states h m =
    apply_all-missing state calls (remove other states) h
      (ground (arith, m, lookup-remove state other states))

apply_all-kept :
    (state : Text) (limit : ℕ) (calls : List Call) (states : Dict ℕ)
    → Spares state limit calls
    → lookup state states ≡ some limit
    → lookup state (apply_all calls states) ≡ some limit
unfolding apply_all apply issue consume
apply_all-kept state limit [] states h m = m
apply_all-kept state limit (issues other now ∷ calls) states h m =
    apply_all-kept state limit calls (issue other now states) h.2 (
      lookup-put_ne state other (now + oauth_state_ttl_ms) (remove_expired_states now states) h.0
      ∙ remove_expired_states-kept state now limit states h.1 m)
apply_all-kept state limit (consumes other now ∷ calls) states h m =
    apply_all-kept state limit calls (remove other states) h.1
      (ground (arith, m, h.0, lookup-remove state other states))

lookup-remove_self : (state : Text) (states : Dict ℕ) → lookup state (remove state states) ≡ none
lookup-remove_self state states = ground (arith, lookup-remove state state states)

-- A state is accepted once: after any `consume` of it, and any calls that do not issue it again,
-- `consume` refuses it.
pub consume-once :
    (state : Text) (now later : ℕ) (states : Dict ℕ) (calls : List Call)
    → NeverIssues state calls
    → (consume state later (apply_all calls (consume state now states).1)).0 ≡ false
unfolding consume
consume-once state now later states calls h =
    ap (is_live later)
      (apply_all-missing state calls (remove state states) h (lookup-remove_self state states))

-- A state is accepted for ten minutes: after it was issued, and after any calls on other states, none
-- of which issues one later than that, `consume` accepts it exactly up to ten minutes later.
pub consume-issue :
    (state : Text) (now later : ℕ) (states : Dict ℕ) (calls : List Call)
    → Spares state (now + oauth_state_ttl_ms) calls
    → (consume state later (apply_all calls (issue state now states))).0
      ≡ leb later (now + oauth_state_ttl_ms)
unfolding consume issue
consume-issue state now later states calls h = ap (is_live later) (
    apply_all-kept state (now + oauth_state_ttl_ms) calls (issue state now states) h
      (lookup-put_self state (now + oauth_state_ttl_ms) (remove_expired_states now states)))

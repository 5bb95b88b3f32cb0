-- ===== src/Linear/Cursors.antt =====
-- src/linear/client.ts: how many cursors a loop over pages can still meet.
use linear_agent_bridge.Base.{
  ℕ, suc, ◌≤◌, ◌<◌, ◌≡◌, refl, ap, sym, subst, inl, inr, Bool, false, not, some, List, [], ◌∷◌,
  Text, length, same, any, select, arith,
}
use linear_agent_bridge.Base.Lists.{Has}
use linear_agent_bridge.Base.Options.{bind_inv, guard_inv}
use linear_agent_bridge.Recovery.Base64.{same_refl, some_eq}
use linear_agent_bridge.Linear.Pages.{PageInfo, next_page_cursor, is_new_cursor}

abbrev is_left : List Text → Text → Bool
unfolding any
is_left seen c = not (any (same c) seen)

-- The number of these cursors that a loop has not seen.
unfoldable pub left : List Text → List Text → ℕ
unfolding select is_left
left cursors seen = length (select (is_left seen) cursors)

pub left-nil : (cursors : List Text) → left cursors [] ≡ length cursors
unfolding left select is_left any
left-nil [] = refl
left-nil (c ∷ cursors) = ap suc (left-nil cursors)

left-cons-le : (cursors seen : List Text) (c : Text) → left cursors (c ∷ seen) ≤ left cursors seen
unfolding left select is_left any
left-cons-le [] seen c = ground arith
left-cons-le (d ∷ cursors) seen c = ground (arith, left-cons-le cursors seen c)

left-cons_head :
    (cursors seen : List Text) (c : Text)
    → any (same c) seen ≡ false
    → left (c ∷ cursors) (c ∷ seen) < left (c ∷ cursors) seen
unfolding left select is_left any
left-cons_head cursors seen c new =
    let more = left-cons-le cursors seen c in rw (same_refl c, new) (omega (arith, more))

pub left-cons :
    (cursors seen : List Text) (c : Text)
    → Has cursors c
    → any (same c) seen ≡ false
    → left cursors (c ∷ seen) < left cursors seen
unfolding left select is_left any
left-cons [] seen c h new = absurd h
left-cons (d ∷ cursors) seen c (inl e) new =
    subst (λ x. left (x ∷ cursors) (c ∷ seen) < left (x ∷ cursors) seen) (sym e)
      (left-cons_head cursors seen c new)
left-cons (d ∷ cursors) seen c (inr h) new = ground (arith, left-cons cursors seen c h new)

-- The cursor that a page leads to is one that it names, and was not seen before.
pub next_page_cursor-new :
    (page : PageInfo) (seen : List Text) (count : ℕ) (c : Text)
    → next_page_cursor page seen count ≡ some c
    → (page.end_cursor ≡ some c) × (any (same c) seen ≡ false)
unfolding next_page_cursor is_new_cursor any
next_page_cursor-new page seen count c h =
    let (d, named, more) = bind_inv page.end_cursor _ c h in
    let (test, end) = guard_inv (is_new_cursor page seen count d) _ c more in
    let e = some_eq end in
    subst (λ x. (page.end_cursor ≡ some x) × (any (same x) seen ≡ false)) e
      (named, ground (arith, test))

-- ===== src/Decision/RoundTrip.antt =====
-- src/goals/protocol.ts: responses in the form that the prompt asks for.
use linear_agent_bridge.Base.{
  ℕ, ◌+◌, ◌-◌, ◌≡◌, refl, sym, ap, ◌∙◌, Bool, true, false, ◌&&◌, Option, some, [], ◌∷◌, ◌++◌, Text,
  text, text_dec, length, same, leb, arith,
}
use linear_agent_bridge.Json.{Json, string, object, empty, member, field, as_record, as_string}
use linear_agent_bridge.Recovery.Base64.{same_refl, both, conjuncts}
use linear_agent_bridge.Recovery.Payloads.{trim, trim_start, trim_end, keep, is_space}
use linear_agent_bridge.Decision.{
  Decision, continues, blocked, completed, result_open, result_close, drop, take, starts_with,
  ends_with, inner, is_result_field, decide, decision_of, parse_autonomous_goal_decision,
}

append_assoc : (s t u : Text) → (s ++ t) ++ u ≡ s ++ (t ++ u)
append_assoc [] t u = refl
append_assoc (c ∷ s) t u = ap (λ x. c ∷ x) (append_assoc s t u)

length-append : (s t : Text) → length (s ++ t) ≡ length s + length t
length-append [] t = omega arith
length-append (c ∷ s) t = omega (arith, length-append s t)

take-append : (s t : Text) → take (length s) (s ++ t) ≡ s
unfolding take
take-append [] t = refl
take-append (c ∷ s) t = ap (λ x. c ∷ x) (take-append s t)

drop-append : (s t : Text) → drop (length s) (s ++ t) ≡ t
unfolding drop
drop-append [] t = refl
drop-append (c ∷ s) t = drop-append s t

-- A text that ends in a unit that is no space is kept at its end.
keep-append : (c : ℕ) (s : Text) (d : ℕ) → keep c (s ++ d ∷ []) ≡ c ∷ (s ++ d ∷ [])
keep-append c [] d = refl
keep-append c (e ∷ s) d = refl

trim_end-append : (s : Text) (d : ℕ) → is_space d ≡ false → trim_end (s ++ d ∷ []) ≡ s ++ d ∷ []
unfolding trim_end
trim_end-append [] d h = rw h refl
trim_end-append (c ∷ s) d h = ap (keep c) (trim_end-append s d h) ∙ keep-append c s d

abbrev close_start : Text
close_start = text "</linear_autonomous_result"

-- The response with `body` between the two marks.
abbrev pub stated : Text → Text
stated body = result_open ++ (body ++ result_close)

close_at_end : (body : Text) → stated body ≡ (result_open ++ (body ++ close_start)) ++ text ">"
close_at_end body =
    ap (λ x. result_open ++ x) (sym (append_assoc body close_start (text ">")))
    ∙ sym (append_assoc result_open (body ++ close_start) (text ">"))

trim-stated : (body : Text) → trim (stated body) ≡ stated body
unfolding trim trim_start
trim-stated body =
    ap trim_end (close_at_end body)
    ∙ (trim_end-append (result_open ++ (body ++ close_start)) 62 refl ∙ sym (close_at_end body))

length-stated : (body : Text) → length (stated body) ≡ 26 + (length body + 27)
length-stated body =
    length-append result_open (body ++ result_close)
    ∙ ap (λ n. 26 + n) (length-append body result_close)

stated-starts_with : (body : Text) → starts_with (stated body) result_open ≡ true
unfolding starts_with take
stated-starts_with body = same_refl result_open

close_is_dropped_to : (body : Text) → drop (length (stated body) - 27) (stated body) ≡ result_close
close_is_dropped_to body =
    let count : length (stated body) - 27 ≡ length (result_open ++ body) =
      omega (arith, length-stated body, length-append result_open body) in
    ap (λ n. drop n (stated body)) count
    ∙ (ap (drop (length (result_open ++ body))) (sym (append_assoc result_open body result_close))
        ∙ drop-append (result_open ++ body) result_close)

stated-ends_with : (body : Text) → ends_with (stated body) result_close ≡ true
unfolding ends_with
stated-ends_with body =
    both (leb 27 (length (stated body)))
      (same (drop (length (stated body) - 27) (stated body)) result_close)
      (ground (arith, length-stated body))
      (ap (λ t. same t result_close) (close_is_dropped_to body) ∙ same_refl result_close)

inner-stated : (body : Text) → inner 26 27 (stated body) ≡ body
unfolding inner drop
inner-stated body =
    let count : length (stated body) - 53 ≡ length body = omega (arith, length-stated body) in
    ap (λ n. take n (body ++ result_close)) count ∙ take-append body result_close

-- The JSON of a decision.
unfoldable pub decision_json : Decision → Json
decision_json (continues message) = object (
    member (text "status") (string (text "continue"))
      (member (text "message") (string message) empty))
decision_json (blocked message) = object (
    member (text "status") (string (text "blocked"))
      (member (text "message") (string message) empty))
decision_json (completed message verification) = object (
    member (text "status") (string (text "completed")) (
      member (text "message") (string message)
        (member (text "verification") (string verification) empty)))

-- The texts of a decision, without the spaces round them.
unfoldable pub trimmed : Decision → Decision
unfolding trim
trimmed (continues message) = continues (trim message)
trimmed (blocked message) = blocked (trim message)
trimmed (completed message verification) = completed (trim message) (trim verification)

-- No text of the decision is blank or too long.
unfoldable pub is_statable : Decision → Bool
unfolding is_result_field
is_statable (continues message) = is_result_field message
is_statable (blocked message) = is_result_field message
is_statable (completed message verification) =
    is_result_field message && is_result_field verification

decision_of-decision_json :
    (d : Decision) → is_statable d ≡ true → decision_of (decision_json d) ≡ some (trimmed d)
unfolding decision_of decision_json trimmed is_statable decide as_record field as_string text_dec
decision_of-decision_json (continues message) h = rw h refl
decision_of-decision_json (blocked message) h = rw h refl
decision_of-decision_json (completed message verification) h =
    let (first, second) = conjuncts (is_result_field message) (is_result_field verification) h in
    rw (first, second) refl

-- A response that has, between the two marks, a text whose trimmed form parses as the JSON of a
-- decision is read as this decision with its texts trimmed, when none of them is blank or has more
-- than 20000 units.
pub parse_autonomous_goal_decision-stated :
    (parse : Text → Option Json) (body : Text) (d : Decision)
    → parse (trim body) ≡ some (decision_json d)
    → is_statable d ≡ true
    → parse_autonomous_goal_decision parse (stated body) ≡ some (trimmed d)
unfolding parse_autonomous_goal_decision
parse_autonomous_goal_decision-stated parse body d h k =
    rw (trim-stated body, stated-starts_with body, stated-ends_with body, inner-stated body, h)
      (decision_of-decision_json d k)

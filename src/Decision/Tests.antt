-- ===== src/Decision/Tests.antt =====
-- src/goals/protocol.ts: a final decision, and what the theorem says of it.
use linear_agent_bridge.Base.{◌≡◌, refl, Option, some, Text, text, text_dec}
use linear_agent_bridge.Json.{Json}
use linear_agent_bridge.Recovery.Payloads.{trim, trim_start, trim_end}
use linear_agent_bridge.Decision.{
  Decision, completed, is_result_field, parse_autonomous_goal_decision,
}
use linear_agent_bridge.Decision.RoundTrip.{
  stated, decision_json, trimmed, is_statable, parse_autonomous_goal_decision-stated,
}

abbrev decision : Decision
decision = completed (text " Done. ") (text "Tests pass.")

-- A parser that reads every text as this decision.
abbrev parse : Text → Option Json
unfolding decision_json
parse t = some (decision_json decision)

test_trimmed : trimmed decision ≡ completed (text "Done.") (text "Tests pass.")
unfolding trimmed trim trim_start trim_end
test_trimmed = refl

parse_autonomous_goal_decision-stated_example :
    parse_autonomous_goal_decision parse (stated (text "\n{}\n")) ≡ some (trimmed decision)
unfolding is_statable is_result_field trim trim_start trim_end text_dec parse
parse_autonomous_goal_decision-stated_example =
    parse_autonomous_goal_decision-stated parse (text "\n{}\n") decision refl refl

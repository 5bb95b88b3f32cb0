-- ===== src/Linear/Tests/Tokens.antt =====
-- Steps of the token manager of src/linear/oauth.ts, and what the theorem says of them.
use linear_agent_bridge.Base.{◌≡◌, refl, true, false, some, List, [], ◌∷◌, text, text_dec, any}
use linear_agent_bridge.Json.{
  Json, whole, number, string, object, empty, member, field, as_record, as_string,
}
use linear_agent_bridge.Linear.Client.{member_of}
use linear_agent_bridge.Linear.Shapes.{string_of}
use linear_agent_bridge.Linear.Tokens.{
  Manager, StoredTokens, StoreFile, stored_json, parse_stored, load, load_from, take_tokens,
  create_manager, parse_token_response, Wait, wait_for_promise,
}
use linear_agent_bridge.Linear.Refreshing.{
  TokenStep, unauthorized, answer_arrives, saved_refresh, SaveEnd, token_run, token_step, opened,
  refresh_after_unauthorized, join_refresh, start_refresh, on_answer, pair_of, installed_by,
}
use linear_agent_bridge.Linear.Spent.{
  Asks, AllRotate, Rotates, IsNew, is_among, refresh_after_unauthorized-Asks,
}

abbrev old_pair : StoredTokens
old_pair = record {
  access_token = text "old";
  refresh_token = text "first";
  expires_at = text "noon";
}

stored_and_parsed : parse_stored (stored_json old_pair) ≡ some old_pair
unfolding parse_stored stored_json string_of member_of field as_record as_string text_dec
stored_and_parsed = refl

abbrev opened_manager : Manager
opened_manager = record {
  access_token = text "old";
  refresh_token = some (text "first");
  expires_at = some (text "noon");
  loaded = true;
}

loaded_manager :
    load (StoreFile.holds (stored_json old_pair)) (create_manager (text "t")) ≡ some opened_manager
unfolding load load_from create_manager take_tokens parse_stored stored_json string_of member_of
    field as_record as_string text_dec
loaded_manager = refl

abort_first : wait_for_promise true false (Wait.aborts ∷ Wait.fulfils ∷ []) ≡ some Wait.aborts
unfolding wait_for_promise
abort_first = refl

no_signal : wait_for_promise false false (Wait.aborts ∷ Wait.fulfils ∷ []) ≡ some Wait.fulfils
unfolding wait_for_promise
no_signal = refl

abbrev token_answer : Json
token_answer = object (
    member (text "access_token") (string (text "new")) (
      member (text "refresh_token") (string (text "second"))
        (member (text "expires_in") (number (whole false 60)) empty)))

-- Two callers are refused, the refresh is answered with a new pair, and the pair is write_at.
abbrev token_steps : List TokenStep
token_steps =
    unauthorized (text "old")
    ∷ unauthorized (text "old")
    ∷ answer_arrives (some record { status = 200; json = some token_answer })
    ∷ saved_refresh SaveEnd.saved
    ∷ []

token_steps_rotate :
    AllRotate (λ n. some (text "noon")) token_steps (opened opened_manager StoreFile.missing)
unfolding AllRotate Rotates IsNew is_among any token_step opened refresh_after_unauthorized
    join_refresh start_refresh on_answer pair_of installed_by parse_token_response string_of
    member_of field as_record as_string text_dec take_tokens
token_steps_rotate = (tt, (tt, (refl, (tt, tt))))

refresh_after_unauthorized-Asks_example :
    Asks
      (text "new")
      (token_run (λ n. some (text "noon")) token_steps (opened opened_manager StoreFile.missing))
      (refresh_after_unauthorized
        (text "new")
        (token_run (λ n. some (text "noon")) token_steps (opened opened_manager StoreFile.missing)))
refresh_after_unauthorized-Asks_example =
    refresh_after_unauthorized-Asks (λ n. some (text "noon")) opened_manager StoreFile.missing
      token_steps (text "new") token_steps_rotate

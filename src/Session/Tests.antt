-- ===== src/Session/Tests.antt =====
-- src/sessions/store.ts: puts of which some fail to read or to write.
use linear_agent_bridge.Base.{
  ◌≡◌, ◌≢◌, refl, Bool, text_dec, true, false, none, List, [], ◌∷◌, ◌++◌, Text, text, lookup, put,
  arith,
}
use linear_agent_bridge.Session.{SessionRecord, Put, get, put_all, after_put, get-put_all}

abbrev stored : Text → SessionRecord
stored runtime_session_id = record {
  linear_session_id = text "s";
  runtime_session_id = runtime_session_id;
  runtime = text "claude";
  issue_identifier = none;
  updated_at = [];
}

-- The put of the file is readable or not, and written or not.
abbrev put_of : Text → Text → Bool → Bool → Put
put_of id runtime_session_id readable written = record {
  kept = record (stored runtime_session_id) { linear_session_id = id };
  readable = readable;
  written = written;
}

abbrev later : List Put
later = put_of (text "s") (text "b") true false ∷ put_of (text "t") (text "c") true true ∷ []

t-s : text "t" ≢ text "s"
t-s h = ground arith

get-put_all_example :
    get (text "s") true (put_all ([] ++ put_of (text "s") (text "a") false true ∷ later) none)
    ≡ after_put
        (text "s")
        (put_of (text "s") (text "a") false true)
        (get (text "s") true (put_all [] none))
get-put_all_example =
    get-put_all (text "s") [] later (put_of (text "s") (text "a") false true) none refl
      ((λ w. absurd (ground arith)), ((λ w. (refl, t-s)), tt))

-- A put that cannot read the file erases the other session.
test_erased :
    get (text "s") true (
      put_all
        (put_of (text "s") (text "a") true true ∷ put_of (text "t") (text "b") false true ∷ [])
        none)
    ≡ none
unfolding put_all get lookup put text_dec
test_erased = refl

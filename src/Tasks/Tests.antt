-- ===== src/Tasks/Tests.antt =====
-- A task of src/server.ts whose first turn completes the issue.
use linear_agent_bridge.Base.{
  ◌≡◌, refl, Bool, true, false, none, some, List, [], ◌∷◌, ◌++◌, text, text_dec, any, if◌then◌else◌,
}
use linear_agent_bridge.Json.{string, object, member, empty}
use linear_agent_bridge.Recovery.Types.{NoticeKind, Envelope}
use linear_agent_bridge.State.Types.{GoalStatus, Goal}
use linear_agent_bridge.State.Goals.{Change, completion}
use linear_agent_bridge.State.Goals.Store.{started}
use linear_agent_bridge.Decision.{result_open, result_close}
use linear_agent_bridge.Linear.Shapes.{IssueContext}
use linear_agent_bridge.Tasks.Calls.{completed, Act, changed, GoalDeps}
use linear_agent_bridge.Tasks.Loop.{GoalRequest, run_goal_task}
use linear_agent_bridge.Tasks.Guards.{IsGuarded}
use linear_agent_bridge.Tasks.Rounds.{run_goal_task-IsGuarded}

abbrev is_completion : Change → Bool
is_completion (completion state_id key body) = true
is_completion _ = false

abbrev is_completion_act : Act → Bool
is_completion_act (changed c) = is_completion c
is_completion_act _ = false

abbrev envelope : Envelope
envelope = record { key_id = []; nonce = []; ciphertext = []; tag = [] }

abbrev goal : Goal
goal = record {
  linear_session_id = text "session";
  issue_id = text "issue";
  issue_identifier = none;
  runtime = text "claude";
  objective_envelope = none;
  status = GoalStatus.active;
  step = 1;
  steps_since_guidance = 1;
  created_at = 0;
  updated_at = 0;
  running_owner_id = none;
  completion_state_id = none;
  completion_activity_key = none;
  completion_dispatch_started_at = none;
  pending_notice = none;
  pending_guidance_ids = [];
  activity_ids = [];
}

-- The goal after its completion began.
abbrev completing_goal : Goal
completing_goal = record goal {
  status = GoalStatus.completing;
  completion_state_id = some (text "done");
  pending_notice =
      some record { kind = NoticeKind.completion; activity_key = text "key"; envelope = envelope };
}

abbrev goal_after : List Act → Goal
unfolding any
goal_after log = if any is_completion_act log then completing_goal else goal

abbrev context : IssueContext
context = record {
  issue_id = text "issue";
  issue_identifier = text "A-1";
  authorized = true;
  already_completed = false;
  current_state_id = text "todo";
  completed_state_id = some (text "done");
}

abbrev deps : GoalDeps
unfolding goal_after
deps = record {
  get_goal = λ log. some (some (goal_after log));
  query_issue = λ log. some context;
  get_session = λ log. some none;
  get_objective = λ log. some none;
  list_activities = λ log. some [];
  take_step =
      λ log guidance. some (started (record goal { step = 2; status = GoalStatus.running }));
  change = λ log c. some (goal_after (changed c ∷ log));
  activity_id = λ log key. some key;
  notice_body = λ log key. some none;
  post_activity = λ log id content. some tt;
  complete_issue = λ log issue state. some tt;
  run_turn = λ log turn.
      some
        record { reason = completed; response = some (result_open ++ text "{}" ++ result_close) };
  is_aborted = λ log signal. false;
  is_shutting_down = λ log. false;
  is_closing = λ log. false;
  queue_size = λ log. 1;
  decimal = λ n. text "n";
  json_parse = λ t. some (
      object (
        member (text "status") (string (text "completed")) (
          member (text "message") (string (text "Done."))
            (member (text "verification") (string (text "Tests pass.")) empty))));
  runtime_name = text "claude";
  label_id = some (text "label");
  max_steps = 8;
}

abbrev request : GoalRequest
request = record { prompt = text "Work."; resume_session_id = none; first_step_is_guidance = false }

run_goal_task-IsGuarded_example : IsGuarded deps (run_goal_task deps 3 request true []).1
run_goal_task-IsGuarded_example = run_goal_task-IsGuarded deps 3 request

completes : (run_goal_task deps 3 request true []).0 ≡ some completed
unfolding run_goal_task text_dec
completes = refl

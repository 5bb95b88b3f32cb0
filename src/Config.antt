-- ===== src/Config.antt =====
-- src/config.ts: the configuration that the service reads from its environment, with every test.
pub mod Values
pub mod Ranges
pub mod Loaded
mod Tests
use linear_agent_bridge.Base.{
  ℕ, zero, suc, ◌*◌, Bool, true, false, not, ◌&&◌, ◌||◌, Option, none, some, List, [], ◌∷◌, ◌++◌,
  Text, text, length, same, any, ltb, leb, ◌==◌, if◌then◌else◌, is_some,
}
use linear_agent_bridge.Recovery.Keyring.{parse_canonical_recovery_key}
use linear_agent_bridge.Config.Values.{
  Host, ConfigError, Load, ◌>>=◌, ◌>>◌, demand, set_value, or_missing, require_env, in_range,
  positive_integer, integer_in_range, split_comma, previous_values, is_recovery_key, all_keys,
  all_distinct, parse_recovery_keys, CharClass, between, is_in, matches, hexes, uuid_pattern,
  is_linear_uuid, checked_id, optional_linear_id, output_path, resolve_agent_output_path,
  optional_path, or_default, missing, invalid, loaded, rejected_with,
}

pub data Runtime : Type 0 where
  claude codex : Runtime

-- `Config`; `reconcile_lookback_ms` and the other times are milliseconds.
pub record Config : Type 0 where
  pub linear_client_id : Text
  pub linear_client_secret : Text
  pub linear_webhook_secret : Text
  pub linear_access_token : Text
  pub port : ℕ
  pub runtime : Runtime
  pub kb_path : Text
  pub session_store_path : Text
  pub bridge_state_store_path : Text
  pub oauth_token_store_path : Text
  pub run_inactivity_timeout_ms : ℕ
  pub progress_notice_interval_ms : ℕ
  pub ingress_recovery_key : Text
  pub ingress_recovery_previous_keys : List Text
  pub reconcile_interval_ms : ℕ
  pub reconcile_lookback_ms : ℕ
  pub reconcile_max_sessions : ℕ
  pub agent_session_ack_grace_ms : ℕ
  pub autonomous_goal_label_id : Option Text
  pub autonomous_goal_max_steps : ℕ
  pub agent_output_path : Option Text
  pub shutdown_timeout_ms : ℕ

abbrev pub runtime_of : Text → Load Runtime
runtime_of t =
    if same t (text "claude")
    then loaded claude
    else if same t (text "codex")
    then loaded codex
    else rejected_with (invalid (text "RUNTIME"))

-- `DEFAULT_RECEIPT_RETENTION_MS`
abbrev pub default_receipt_retention_ms : ℕ
default_receipt_retention_ms = 7 * 24 * 60 * 60 * 1000

-- The raw value of the timeout and the variable that an error names.
abbrev pub timeout_source : Option Text → Option Text → Text × Text
timeout_source (some t) deprecated = (t, text "RUN_INACTIVITY_TIMEOUT_MS")
timeout_source none (some t) = (t, text "RUN_TIMEOUT_MS")
timeout_source none none = (text "300000", text "RUN_INACTIVITY_TIMEOUT_MS")

-- What `loadConfig` has read before it looks at the deprecated variable.
pub record Head : Type 0 where
  pub linear_client_id : Text
  pub linear_client_secret : Text
  pub linear_webhook_secret : Text
  pub linear_access_token : Text
  pub ingress_recovery_key : Text
  pub previous_keys : List Text
  pub label_id : Option Text
  pub runtime : Runtime
  pub port : ℕ

module _ (host : Host) where
  -- `positiveInteger(env[key] ?? value, key)`
  unfoldable pub positive_or : Text → Text → Load ℕ
  unfolding positive_integer
  positive_or key value = positive_integer host (or_default (host.env key) value) key

  unfoldable pub load_head : Load Head
  unfolding require_env parse_recovery_keys optional_linear_id positive_or
  load_head = do
    linear_client_id ← require_env host (text "LINEAR_CLIENT_ID")
    linear_client_secret ← require_env host (text "LINEAR_CLIENT_SECRET")
    linear_webhook_secret ← require_env host (text "LINEAR_WEBHOOK_SECRET")
    linear_access_token ← require_env host (text "LINEAR_ACCESS_TOKEN")
    ingress_recovery_key ← require_env host (text "INGRESS_RECOVERY_KEY")
    previous_keys ←
        parse_recovery_keys ingress_recovery_key (host.env (text "INGRESS_RECOVERY_PREVIOUS_KEYS"))
    label_id ←
        optional_linear_id (host.env (text "AUTONOMOUS_GOAL_LABEL_ID"))
          (text "AUTONOMOUS_GOAL_LABEL_ID")
    runtime ← runtime_of (or_default (host.env (text "RUNTIME")) (text "claude"))
    port ← positive_or (text "PORT") (text "3979")
    loaded record {
      linear_client_id = linear_client_id;
      linear_client_secret = linear_client_secret;
      linear_webhook_secret = linear_webhook_secret;
      linear_access_token = linear_access_token;
      ingress_recovery_key = ingress_recovery_key;
      previous_keys = previous_keys;
      label_id = label_id;
      runtime = runtime;
      port = port;
    }

  unfoldable pub load_rest : Head → Load Config
  unfolding positive_integer positive_or integer_in_range resolve_agent_output_path
  load_rest head = do
    let timeout =
        timeout_source (host.env (text "RUN_INACTIVITY_TIMEOUT_MS"))
          (host.env (text "RUN_TIMEOUT_MS"))
    run_inactivity_timeout_ms ← positive_integer host timeout.0 timeout.1
    progress_notice_interval_ms ← positive_or (text "PROGRESS_NOTICE_INTERVAL_MS") (text "120000")
    reconcile_lookback_ms ← positive_or (text "RECONCILE_LOOKBACK_MS") (text "86400000")
    demand (leb reconcile_lookback_ms default_receipt_retention_ms) (text "RECONCILE_LOOKBACK_MS")
    shutdown_timeout_ms ← positive_or (text "SHUTDOWN_TIMEOUT_MS") (text "10000")
    autonomous_goal_max_steps ←
        integer_in_range host (or_default (host.env (text "AUTONOMOUS_GOAL_MAX_STEPS")) (text "8"))
          (text "AUTONOMOUS_GOAL_MAX_STEPS") 1 100
    agent_output_path ← optional_path host (set_value (host.env (text "AGENT_OUTPUT_PATH")))
    reconcile_interval_ms ← positive_or (text "RECONCILE_INTERVAL_MS") (text "60000")
    reconcile_max_sessions ←
        integer_in_range host (or_default (host.env (text "RECONCILE_MAX_SESSIONS")) (text "250"))
          (text "RECONCILE_MAX_SESSIONS") 1 250
    agent_session_ack_grace_ms ← positive_or (text "AGENT_SESSION_ACK_GRACE_MS") (text "120000")
    loaded record {
      linear_client_id = head.linear_client_id;
      linear_client_secret = head.linear_client_secret;
      linear_webhook_secret = head.linear_webhook_secret;
      linear_access_token = head.linear_access_token;
      port = head.port;
      runtime = head.runtime;
      kb_path = or_default (host.env (text "KB_PATH")) host.cwd;
      session_store_path =
          or_default (host.env (text "SESSION_STORE_PATH")) (text "./data/sessions.json");
      bridge_state_store_path =
          or_default (host.env (text "BRIDGE_STATE_STORE_PATH")) (text "./data/bridge-state.json");
      oauth_token_store_path =
          or_default (host.env (text "OAUTH_TOKEN_STORE_PATH")) (text "./data/oauth-tokens.json");
      run_inactivity_timeout_ms = run_inactivity_timeout_ms;
      progress_notice_interval_ms = progress_notice_interval_ms;
      ingress_recovery_key = head.ingress_recovery_key;
      ingress_recovery_previous_keys = head.previous_keys;
      reconcile_interval_ms = reconcile_interval_ms;
      reconcile_lookback_ms = reconcile_lookback_ms;
      reconcile_max_sessions = reconcile_max_sessions;
      agent_session_ack_grace_ms = agent_session_ack_grace_ms;
      autonomous_goal_label_id = head.label_id;
      autonomous_goal_max_steps = autonomous_goal_max_steps;
      agent_output_path = agent_output_path;
      shutdown_timeout_ms = shutdown_timeout_ms;
    }

  -- `loadConfig`
  unfoldable pub load_config : Load Config
  unfolding load_head load_rest
  load_config = load_head >>= load_rest

  abbrev pub warned_after : Load Head → Bool → Bool
  warned_after (rejected_with e) warned = warned
  warned_after (loaded head) warned = warned || is_some (host.env (text "RUN_TIMEOUT_MS"))

  -- `warnedAboutDeprecatedRunTimeout` after a call of `loadConfig`
  unfoldable pub warned_about_deprecated_run_timeout : Bool → Bool
  unfolding load_head
  warned_about_deprecated_run_timeout warned = warned_after load_head warned

-- ===== src/Config/Loaded.antt =====
-- src/config.ts: what holds of a configuration that is loaded, and which variable an exception names.
use linear_agent_bridge.Base.{
  ◌≤◌, ◌≡◌, refl, sym, subst, Option, none, some, List, [], ◌∷◌, Text, text, leb, if◌then◌else◌,
  is_some, leb→le,
}
use linear_agent_bridge.Config.{
  Config, default_receipt_retention_ms, timeout_source, Head, load_head, load_rest, load_config,
}
use linear_agent_bridge.Config.Values.{
  Host, missing, invalid, Load, loaded, rejected_with, ◌>>=◌, set_value, or_missing, require_env,
  in_range, positive_integer, integer_in_range, optional_linear_id, or_default,
}
use linear_agent_bridge.Config.Ranges.{
  HasUuid, Within, AreKeys, Gives, Gives->>=, Gives-demand, in_range-Gives-min, in_range-Gives,
  positive_or-Gives, optional_path-Gives, parse_recovery_keys-Gives, checked_id-Gives,
  runtime_of-Gives,
}

-- What the service relies on in its configuration.
pub record IsValid (c : Config) : Type 0 where
  pub port : 1 ≤ c.port
  pub keys : AreKeys c.ingress_recovery_key c.ingress_recovery_previous_keys
  pub label : HasUuid c.autonomous_goal_label_id
  pub inactivity : 1 ≤ c.run_inactivity_timeout_ms
  pub progress : 1 ≤ c.progress_notice_interval_ms
  pub lookback : Within 1 604800000 c.reconcile_lookback_ms
  pub shutdown_time : 1 ≤ c.shutdown_timeout_ms
  pub steps : Within 1 100 c.autonomous_goal_max_steps
  pub interval : 1 ≤ c.reconcile_interval_ms
  pub sessions : Within 1 250 c.reconcile_max_sessions
  pub grace : 1 ≤ c.agent_session_ack_grace_ms

pub record IsValidHead (h : Head) : Type 0 where
  pub port : 1 ≤ h.port
  pub keys : AreKeys h.ingress_recovery_key h.previous_keys
  pub label : HasUuid h.label_id

-- `first` is the first variable that has no value. What is loaded satisfies `P` and there is none;
-- an exception for a missing variable names it; any other exception means that there is none.
abbrev pub Fits : {A : Type 0} → (A → Type 0) → Option Text → Load A → Type 0
Fits P first (loaded a) = (first ≡ none) × P a
Fits P first (rejected_with (missing k)) = first ≡ some k
Fits P first (rejected_with (invalid k)) = first ≡ none

module _ (host : Host) where
  load_rest-Gives : (head : Head) → IsValidHead head → Gives IsValid (load_rest host head)
  unfolding load_rest positive_integer integer_in_range
  load_rest-Gives head h =
      let timeout =
        timeout_source (host.env (text "RUN_INACTIVITY_TIMEOUT_MS"))
          (host.env (text "RUN_TIMEOUT_MS")) in
      Gives->>= (λ n. 1 ≤ n) IsValid (in_range 1 none (host.natural_of timeout.0) timeout.1) _
        (in_range-Gives-min 1 (host.natural_of timeout.0) timeout.1)
        (λ inactivity h1.
          Gives->>= (λ n. 1 ≤ n) IsValid _ _
            (positive_or-Gives host (text "PROGRESS_NOTICE_INTERVAL_MS") (text "120000"))
            (λ progress h2.
              Gives->>= (λ n. 1 ≤ n) IsValid _ _
                (positive_or-Gives host (text "RECONCILE_LOOKBACK_MS") (text "86400000"))
                (λ lookback h3.
                  Gives-demand IsValid (leb lookback default_receipt_retention_ms)
                    (text "RECONCILE_LOOKBACK_MS") _
                    (λ h4.
                      Gives->>= (λ n. 1 ≤ n) IsValid _ _
                        (positive_or-Gives host (text "SHUTDOWN_TIMEOUT_MS") (text "10000"))
                        (λ shutdown h5.
                          Gives->>= (Within 1 100) IsValid _ _
                            (in_range-Gives 1 100
                              (host.natural_of (
                                or_default (host.env (text "AUTONOMOUS_GOAL_MAX_STEPS"))
                                  (text "8")))
                              (text "AUTONOMOUS_GOAL_MAX_STEPS"))
                            (λ steps h6.
                              Gives->>= (λ _. Unit {0}) IsValid _ _
                                (optional_path-Gives host
                                  (set_value (host.env (text "AGENT_OUTPUT_PATH"))))
                                (λ path h7.
                                  Gives->>= (λ n. 1 ≤ n) IsValid _ _
                                    (positive_or-Gives host (text "RECONCILE_INTERVAL_MS")
                                      (text "60000"))
                                    (λ interval h8.
                                      Gives->>= (Within 1 250) IsValid _ _
                                        (in_range-Gives 1 250
                                          (host.natural_of (
                                            or_default (host.env (text "RECONCILE_MAX_SESSIONS"))
                                              (text "250")))
                                          (text "RECONCILE_MAX_SESSIONS"))
                                        (λ sessions h9.
                                          Gives->>= (λ n. 1 ≤ n) IsValid _ _
                                            (positive_or-Gives host
                                              (text "AGENT_SESSION_ACK_GRACE_MS") (text "120000"))
                                            (λ grace h10. record {
                                              port = h.port;
                                              keys = h.keys;
                                              label = h.label;
                                              inactivity = h1;
                                              progress = h2;
                                              lookback = (
                                                h3,
                                                leb→le lookback default_receipt_retention_ms h4,
                                              );
                                              shutdown_time = h5;
                                              steps = h6;
                                              interval = h8;
                                              sessions = h9;
                                              grace = h10;
                                            }))))))))))

Gives-Fits : {A : Type 0} (P : A → Type 0) (o : Load A) → Gives P o → Fits P none o
Gives-Fits P (loaded a) h = (refl, h)
Gives-Fits P (rejected_with (missing k)) h = absurd h
Gives-Fits P (rejected_with (invalid k)) h = refl

-- The first of these variables that is unset or empty.
unfoldable pub first_missing : Host → List Text → Option Text
first_missing host [] = none
first_missing host (k ∷ keys) =
    let rest = first_missing host keys in if is_some (set_value (host.env k)) then rest else some k

or_missing-Fits :
    {B : Type 0} (P : B → Type 0) (o : Option Text) (key : Text) (rest : Option Text)
    (f : Text → Load B)
    → ((t : Text) → Fits P rest (f t))
    → Fits P (if is_some o then rest else some key) (or_missing o key >>= f)
or_missing-Fits P none key rest f h = refl
or_missing-Fits P (some t) key rest f h = h t

-- The required variables, in the order in which they are declared.
abbrev pub required : List Text
required =
    text "LINEAR_CLIENT_ID"
    ∷ text "LINEAR_CLIENT_SECRET"
    ∷ text "LINEAR_WEBHOOK_SECRET"
    ∷ text "LINEAR_ACCESS_TOKEN"
    ∷ text "INGRESS_RECOVERY_KEY"
    ∷ []

module _ (host : Host) where
  require_env-Fits :
      {B : Type 0} (P : B → Type 0) (key : Text) (keys : List Text) (f : Text → Load B)
      → ((t : Text) → Fits P (first_missing host keys) (f t))
      → Fits P (first_missing host (key ∷ keys)) (require_env host key >>= f)
  unfolding require_env first_missing
  require_env-Fits P key keys f h =
      or_missing-Fits P (set_value (host.env key)) key (first_missing host keys) f h

  load_head-Fits : Fits IsValidHead (first_missing host required) (load_head host)
  unfolding load_head first_missing optional_linear_id
  load_head-Fits =
      let last = text "INGRESS_RECOVERY_KEY" ∷ [] in
      let two = text "LINEAR_ACCESS_TOKEN" ∷ last in
      let three = text "LINEAR_WEBHOOK_SECRET" ∷ two in
      let four = text "LINEAR_CLIENT_SECRET" ∷ three in
      require_env-Fits IsValidHead (text "LINEAR_CLIENT_ID") four _ (λ client_id.
        require_env-Fits IsValidHead (text "LINEAR_CLIENT_SECRET") three _ (λ client_secret.
          require_env-Fits IsValidHead (text "LINEAR_WEBHOOK_SECRET") two _ (λ webhook_secret.
            require_env-Fits IsValidHead (text "LINEAR_ACCESS_TOKEN") last _ (λ access_token.
              require_env-Fits IsValidHead (text "INGRESS_RECOVERY_KEY") [] _ (λ key.
                Gives-Fits IsValidHead _ (
                  Gives->>= (AreKeys key) IsValidHead _ _
                    (parse_recovery_keys-Gives key
                      (host.env (text "INGRESS_RECOVERY_PREVIOUS_KEYS")))
                    (λ previous h1.
                      Gives->>= HasUuid IsValidHead _ _
                        (checked_id-Gives (set_value (host.env (text "AUTONOMOUS_GOAL_LABEL_ID")))
                          (text "AUTONOMOUS_GOAL_LABEL_ID"))
                        (λ label h2.
                          Gives->>= (λ _. Unit {0}) IsValidHead _ _
                            (runtime_of-Gives
                              (or_default (host.env (text "RUNTIME")) (text "claude")))
                            (λ runtime h3.
                              Gives->>= (λ n. 1 ≤ n) IsValidHead _ _
                                (positive_or-Gives host (text "PORT") (text "3979"))
                                (λ port h4. record { port = h4; keys = h1; label = h2 }))))))))))

  head-Fits :
      (first : Option Text) (o : Load Head)
      → Fits IsValidHead first o
      → Fits IsValid first (o >>= load_rest host)
  head-Fits first (loaded head) h =
      subst (λ x. Fits IsValid x (load_rest host head)) (sym h.0)
        (Gives-Fits IsValid (load_rest host head) (load_rest-Gives host head h.1))
  head-Fits first (rejected_with (missing k)) h = h
  head-Fits first (rejected_with (invalid k)) h = h

  -- In every environment: loadConfig names the first required variable that is unset or empty, if
  -- there is one; else it fails for a value, or loads a configuration whose ports and times are
  -- positive, whose lookback is within the retention, whose limits of goal steps and of reconciled
  -- sessions are 1 to 100 and 1 to 250, whose label is a UUID, and whose recovery keys, with up to
  -- four previous ones, are canonical and distinct.
  pub load_config-Fits : Fits IsValid (first_missing host required) (load_config host)
  unfolding load_config
  load_config-Fits = head-Fits (first_missing host required) (load_head host) load_head-Fits

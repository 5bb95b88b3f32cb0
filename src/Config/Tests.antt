-- ===== src/Config/Tests.antt =====
-- An environment that src/config.ts takes, one without a key, and what the theorems say of them.
use linear_agent_bridge.Base.{
  ◌≡◌, refl, true, false, Option, none, some, [], ◌∷◌, Text, text, text_dec, same, if◌then◌else◌,
}
use linear_agent_bridge.Config.{load_config, load_head}
use linear_agent_bridge.Config.Values.{
  Host, missing, loaded, rejected_with, is_linear_uuid, split_comma, resolve_agent_output_path,
  output_path,
}
use linear_agent_bridge.Config.Loaded.{Fits, IsValid, first_missing, required, load_config-Fits}

-- Only the required variables are set, and every number is read as 5.
abbrev values : Text → Option Text
values key =
    if same key (text "INGRESS_RECOVERY_KEY")
    then some (text "AAAAAAAAAAAAAAAAAAAAAAAAAAAAAAAAAAAAAAAAAAA")
    else if same key (text "LINEAR_CLIENT_ID")
    then some (text "id")
    else if same key (text "LINEAR_CLIENT_SECRET")
    then some (text "secret")
    else if same key (text "LINEAR_WEBHOOK_SECRET")
    then some (text "hook")
    else if same key (text "LINEAR_ACCESS_TOKEN")
    then some (text "token")
    else none

abbrev host : Host
host = record {
  env = values;
  natural_of = λ t. some 5;
  resolve = λ t. t;
  cwd = text "/srv";
  stat = λ t. none;
  mkdir = λ t. true;
  access = λ t. true;
}

abbrev without_secret : Host
without_secret = record host {
  env = λ key. if same key (text "LINEAR_CLIENT_SECRET") then some [] else values key;
}

uuid : is_linear_uuid (text "0a1B2c3d-0000-4000-8000-00000000000f") ≡ true
unfolding is_linear_uuid
uuid = refl

no_uuid : is_linear_uuid (text "0a1B2c3d-0000-6000-8000-00000000000f") ≡ false
unfolding is_linear_uuid
no_uuid = refl

comma : split_comma [] (text "a,,b") ≡ text "a" ∷ [] ∷ text "b" ∷ []
comma = refl

missing_secret : load_config without_secret ≡ rejected_with (missing (text "LINEAR_CLIENT_SECRET"))
unfolding load_config load_head text_dec
missing_secret = refl

created_directory : resolve_agent_output_path host (text "out") ≡ loaded (text "out")
unfolding resolve_agent_output_path output_path
created_directory = refl

load_config-Fits_example : Fits IsValid (first_missing host required) (load_config host)
load_config-Fits_example = load_config-Fits host

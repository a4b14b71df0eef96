-- ===== src/Examples/Settings.antt =====
-- A configuration with one key and one backend, and a request with that key.
use mathlib.Core.List.{Memᴰ}
use proxy_lm_go.Common.{pos, ◌==◌, ◌≡◌, refl, true, false, none, some, [], ◌∷◌, if◌then◌else◌}
use proxy_lm_go.Config.{ApiKey, Auth, Config, TextLib}
use proxy_lm_go.Config.Validate.{
  validate, validate_proxy, is_valid_port, validate_auth, validate_keys, validate_admin_key,
  validate_routing, validate_scheduler, validate_retry, validate_discovery, validate_storage,
  validate_tui, validate_compat, validate_each, validate_backend, validate_backend_url,
  validate_parsed, validate_host,
}
use proxy_lm_go.Config.Accepted.{Accepted, validate-Accepted}
use proxy_lm_go.Api.Auth.{
  new_auth_registry, write_keys, read_key, lookup_client, AuthHeaders, HeaderLib, extract_bearer,
  extract_key, served_as, client_auth,
}
use proxy_lm_go.Api.Auth.Clients.{client_auth-served}

abbrev a_key : ApiKey
a_key = record { name = "alice"; key = "k1" }

abbrev some_auth : Auth
some_auth = record { api_keys = a_key ∷ []; admin_key = "root" }

abbrev some_config : Config
some_config = record {
  proxy = record { host = "0.0.0.0"; port = pos 8080; log_level = "info" };
  auth = some_auth;
  routing = record { strategy = "least_busy" };
  scheduler = record { max_consecutive_per_model = pos 0 };
  retry = record { max_attempts = pos 3; initial_backoff_ms = pos 100; max_backoff_ms = pos 1000 };
  discovery = record {
    enabled = true;
    interval_seconds = pos 30;
    unhealthy_after_failed_polls = pos 3;
  };
  storage = record {
    database_path = "db";
    history_retention_days = pos 7;
    vacuum_on_start = false;
  };
  tui = record { show_completed_minutes = pos 5 };
  compat = record { response_format_mode = "passthrough" };
  backends =
      record {
        name = "one";
        url = "http://one";
        priority = pos 1;
        type_name = "ollama";
        timeout_seconds = pos 60;
      }
      ∷ [];
}

-- Answers for the texts of this configuration.
abbrev some_texts : TextLib
some_texts = record {
  to_lower = λ s. s;
  parse_url = λ s. if s == "http://one" then some ("http", "one") else none;
  split_host_port = λ s. none;
  is_int = λ s. false;
}

no_error : validate some_texts some_config ≡ none
unfolding validate validate_proxy is_valid_port validate_auth validate_keys validate_admin_key
    validate_routing validate_scheduler validate_retry validate_discovery validate_storage
    validate_tui validate_compat validate_each validate_backend validate_backend_url validate_parsed
    validate_host
no_error = refl

validate-Accepted_example : Accepted some_texts some_config
validate-Accepted_example = validate-Accepted some_texts some_config no_error

no_auth_error : validate_auth some_auth ≡ none
unfolding validate_auth validate_keys validate_admin_key
no_auth_error = refl

abbrev header_texts : HeaderLib
header_texts = record {
  trim_space = λ s. s;
  split_commas = λ s. s ∷ [];
  cut_prefix = λ p s. none;
  decode_base64 = λ s. none;
}

abbrev some_headers : AuthHeaders
some_headers = record { authorization = ""; x_api_key = "k1"; ws_protocols = [] }

let_in : client_auth header_texts (new_auth_registry some_auth) some_headers ≡ served_as "alice"
unfolding client_auth extract_key extract_bearer lookup_client new_auth_registry write_keys read_key
let_in = refl

client_auth-served_example :
    (k : ApiKey) × Memᴰ k some_auth.api_keys
    × (k.key ≡ extract_key header_texts some_headers)
    × ((extract_key header_texts some_headers == "") ≡ false)
    × (lookup_client (new_auth_registry some_auth) k.key ≡ "alice")
client_auth-served_example = client_auth-served header_texts some_auth some_headers "alice" let_in

-- ===== src/Config/Validate.antt =====
-- internal/config/validate.go: `Validate` returns the first error that it finds, or none.
use proxy_lm_go.Common.{
  ℤ, pos, String, ◌==◌, Bool, not, ◌&&◌, Option, none, some, List, [], ◌∷◌, if◌then◌else◌, or_else,
  ltb_ℤ, leb_ℤ, contains,
}
use proxy_lm_go.Config.{
  Proxy, ApiKey, Auth, Routing, Scheduler, Retry, Discovery, Storage, Tui, Compat, Backend, Config,
  TextLib, ConfigError, host_missing, port_range, log_level_unknown, no_api_keys, key_name_empty,
  key_empty, key_name_twice, key_twice, admin_key_empty, admin_key_is_api_key, strategy_unknown,
  max_consecutive_negative, max_attempts_small, initial_backoff_negative, max_backoff_small,
  interval_small, failed_polls_small, database_path_empty, retention_negative, minutes_negative,
  format_mode_unknown, no_backends, backend_name_empty, backend_name_twice, backend_type_unknown,
  timeout_small, url_empty, url_invalid, url_scheme, url_host_empty, url_port,
}

unfoldable pub is_valid_port : ℤ → Bool
is_valid_port p = leb_ℤ (pos 1) p && leb_ℤ p (pos 65535)

abbrev pub log_levels : List String
log_levels = "debug" ∷ "info" ∷ "warning" ∷ "warn" ∷ "error" ∷ []

unfoldable pub validate_proxy : TextLib → Proxy → Option ConfigError
validate_proxy lib p =
    if p.host == ""
    then some host_missing
    else if not (is_valid_port p.port)
    then some port_range
    else if contains log_levels (lib.to_lower p.log_level)
    then none
    else some log_level_unknown

-- The end of `validate` for the keys: `seen_key` holds the keys.
unfoldable pub validate_admin_key : String → List String → Option ConfigError
validate_admin_key admin_key seen_key =
    if admin_key == ""
    then some admin_key_empty
    else if contains seen_key admin_key
    then some admin_key_is_api_key
    else none

-- The loop over the keys, with the sets `seenName` and `seenKey`.
unfoldable pub validate_keys : String → List String → List String → List ApiKey → Option ConfigError
validate_keys admin_key seen_name seen_key [] = validate_admin_key admin_key seen_key
validate_keys admin_key seen_name seen_key (k ∷ ks) =
    if k.name == ""
    then some key_name_empty
    else if k.key == ""
    then some key_empty
    else if contains seen_name k.name
    then some key_name_twice
    else if contains seen_key k.key
    then some key_twice
    else validate_keys admin_key (k.name ∷ seen_name) (k.key ∷ seen_key) ks

abbrev pub validate_auth_keys : String → List ApiKey → Option ConfigError
validate_auth_keys admin_key [] = some no_api_keys
validate_auth_keys admin_key (k ∷ ks) = validate_keys admin_key [] [] (k ∷ ks)

unfoldable pub validate_auth : Auth → Option ConfigError
validate_auth a = validate_auth_keys a.admin_key a.api_keys

abbrev pub strategies : List String
strategies =
    "model_affinity_least_busy" ∷ "round_robin" ∷ "least_busy" ∷ "deferred_model_then_capable"
    ∷ "preserve_model_coverage" ∷ "fair_share_round_robin" ∷ []

unfoldable pub validate_routing : Routing → Option ConfigError
validate_routing r = if contains strategies r.strategy then none else some strategy_unknown

unfoldable pub validate_scheduler : Scheduler → Option ConfigError
validate_scheduler s =
    if ltb_ℤ s.max_consecutive_per_model (pos 0) then some max_consecutive_negative else none

unfoldable pub validate_retry : Retry → Option ConfigError
validate_retry r =
    if ltb_ℤ r.max_attempts (pos 1)
    then some max_attempts_small
    else if ltb_ℤ r.initial_backoff_ms (pos 0)
    then some initial_backoff_negative
    else if ltb_ℤ r.max_backoff_ms r.initial_backoff_ms
    then some max_backoff_small
    else none

unfoldable pub validate_discovery : Discovery → Option ConfigError
validate_discovery d =
    if ltb_ℤ d.interval_seconds (pos 1)
    then some interval_small
    else if ltb_ℤ d.unhealthy_after_failed_polls (pos 1)
    then some failed_polls_small
    else none

unfoldable pub validate_storage : Storage → Option ConfigError
validate_storage s =
    if s.database_path == ""
    then some database_path_empty
    else if ltb_ℤ s.history_retention_days (pos 0)
    then some retention_negative
    else none

unfoldable pub validate_tui : Tui → Option ConfigError
validate_tui t = if ltb_ℤ t.show_completed_minutes (pos 0) then some minutes_negative else none

abbrev pub format_modes : List String
format_modes = "passthrough" ∷ "normalize_json_object" ∷ "strict_reject" ∷ []

unfoldable pub validate_compat : Compat → Option ConfigError
validate_compat c =
    if contains format_modes c.response_format_mode then none else some format_mode_unknown

-- The host of an address that has no port is the whole of it.
unfoldable pub validate_host : TextLib → String → Option (String × String) → Option ConfigError
validate_host lib host none = if host == "" then some url_host_empty else none
validate_host lib host (some (name, port)) =
    if not (lib.is_int port)
    then some url_port
    else if name == ""
    then some url_host_empty
    else none

unfoldable pub validate_parsed : TextLib → Option (String × String) → Option ConfigError
validate_parsed lib none = some url_invalid
validate_parsed lib (some (scheme, host)) =
    if not (scheme == "http") && not (scheme == "https")
    then some url_scheme
    else if host == ""
    then some url_host_empty
    else validate_host lib host (lib.split_host_port host)

unfoldable pub validate_backend_url : TextLib → String → Option ConfigError
validate_backend_url lib raw =
    if raw == "" then some url_empty else validate_parsed lib (lib.parse_url raw)

abbrev pub backend_types : List String
backend_types = "" ∷ "openai" ∷ "ollama" ∷ "lmstudio" ∷ "llamacpp" ∷ "anthropic" ∷ []

unfoldable pub validate_backend : TextLib → Backend → Option ConfigError
validate_backend lib b = or_else (validate_backend_url lib b.url) (
    if not (contains backend_types b.type_name)
    then some backend_type_unknown
    else if ltb_ℤ b.timeout_seconds (pos 1)
    then some timeout_small
    else none)

-- The loop over the backends, with the set `seenName`.
unfoldable pub validate_each : TextLib → List String → List Backend → Option ConfigError
validate_each lib seen_name [] = none
validate_each lib seen_name (b ∷ bs) =
    if b.name == ""
    then some backend_name_empty
    else if contains seen_name b.name
    then some backend_name_twice
    else or_else (validate_backend lib b) (validate_each lib (b.name ∷ seen_name) bs)

abbrev pub validate_backends : TextLib → List Backend → Option ConfigError
validate_backends lib [] = some no_backends
validate_backends lib (b ∷ bs) = validate_each lib [] (b ∷ bs)

unfoldable pub validate : TextLib → Config → Option ConfigError
validate lib c = or_else (validate_proxy lib c.proxy) (
    or_else (validate_auth c.auth) (
      or_else (validate_routing c.routing) (
        or_else (validate_scheduler c.scheduler) (
          or_else (validate_retry c.retry) (
            or_else (validate_discovery c.discovery) (
              or_else (validate_storage c.storage) (
                or_else (validate_tui c.tui)
                  (or_else (validate_compat c.compat) (validate_backends lib c.backends)))))))))

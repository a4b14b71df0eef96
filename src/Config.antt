-- ===== src/Config.antt =====
-- internal/config/config.go: the sections of the configuration, and the errors of `Validate`. An error is a value for each
-- `fmt.Errorf` of the code; the sections that wrap it are part of it. `strings.ToLower`, `url.Parse`,
-- `net.SplitHostPort` and `strconv.Atoi` are parameters.
pub mod Validate
pub mod Keys
pub mod Accepted
mod Defaults
use proxy_lm_go.Common.{ℤ, String, Bool, Option, List}

pub record Proxy : Type 0 where
  pub host : String
  pub port : ℤ
  pub log_level : String

pub record ApiKey : Type 0 where
  pub name : String
  pub key : String

pub record Auth : Type 0 where
  pub api_keys : List ApiKey
  pub admin_key : String

pub record Routing : Type 0 where
  pub strategy : String

pub record Scheduler : Type 0 where
  pub max_consecutive_per_model : ℤ

pub record Retry : Type 0 where
  pub max_attempts : ℤ
  pub initial_backoff_ms : ℤ
  pub max_backoff_ms : ℤ

pub record Discovery : Type 0 where
  pub enabled : Bool
  pub interval_seconds : ℤ
  pub unhealthy_after_failed_polls : ℤ

pub record Storage : Type 0 where
  pub database_path : String
  pub history_retention_days : ℤ
  pub vacuum_on_start : Bool

pub record Tui : Type 0 where
  pub show_completed_minutes : ℤ

pub record Compat : Type 0 where
  pub response_format_mode : String

-- The models and the key of a backend are not validated.
pub record Backend : Type 0 where
  pub name : String
  pub url : String
  pub priority : ℤ
  pub type_name : String
  pub timeout_seconds : ℤ

pub record Config : Type 0 where
  pub proxy : Proxy
  pub auth : Auth
  pub routing : Routing
  pub scheduler : Scheduler
  pub retry : Retry
  pub discovery : Discovery
  pub storage : Storage
  pub tui : Tui
  pub compat : Compat
  pub backends : List Backend

-- What the code asks of the standard library: the URL's scheme and host, the host and the port of an
-- address, whether a text is a number.
pub record TextLib : Type 0 where
  pub to_lower : String → String
  pub parse_url : String → Option (String × String)
  pub split_host_port : String → Option (String × String)
  pub is_int : String → Bool

pub data ConfigError : Type 0 where
  host_missing port_range log_level_unknown : ConfigError
  no_api_keys key_name_empty key_empty key_name_twice key_twice : ConfigError
  admin_key_empty admin_key_is_api_key : ConfigError
  strategy_unknown max_consecutive_negative : ConfigError
  max_attempts_small initial_backoff_negative max_backoff_small : ConfigError
  interval_small failed_polls_small : ConfigError
  database_path_empty retention_negative minutes_negative format_mode_unknown : ConfigError
  no_backends backend_name_empty backend_name_twice backend_type_unknown timeout_small : ConfigError
  url_empty url_invalid url_scheme url_host_empty url_port : ConfigError

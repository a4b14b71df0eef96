-- ===== src/Config/Defaults.antt =====
-- internal/config/load.go: `applyDefaults`.
use proxy_lm_go.Common.{
  ℤ, pos, zero, suc, negsuc, String, ◌==◌, ◌≡◌, refl, inl, inr, false, Bool-cases, List, [], ◌∷◌,
  map, if◌then◌else◌,
}
use proxy_lm_go.Config.{Config, Backend}

-- `if field == "" { field = … }` and `if field == 0 { field = … }`.
unfoldable text_or : String → String → String
text_or default s = if s == "" then default else s

unfoldable number_or : ℤ → ℤ → ℤ
number_or default (pos zero) = default
number_or default n = n

abbrev backend_defaults : Backend → Backend
backend_defaults b = record b {
  timeout_seconds = number_or (pos 600) b.timeout_seconds;
  type_name = text_or "openai" b.type_name;
}

unfoldable apply_defaults : Config → Config
apply_defaults c = record c {
  proxy = record {
    host = text_or "0.0.0.0" c.proxy.host;
    port = number_or (pos 8080) c.proxy.port;
    log_level = text_or "info" c.proxy.log_level;
  };
  routing = record { strategy = text_or "model_affinity_least_busy" c.routing.strategy };
  retry = record {
    max_attempts = number_or (pos 3) c.retry.max_attempts;
    initial_backoff_ms = number_or (pos 500) c.retry.initial_backoff_ms;
    max_backoff_ms = number_or (pos 8000) c.retry.max_backoff_ms;
  };
  discovery = record c.discovery {
    interval_seconds = number_or (pos 30) c.discovery.interval_seconds;
    unhealthy_after_failed_polls = number_or (pos 3) c.discovery.unhealthy_after_failed_polls;
  };
  storage = record c.storage {
    database_path = text_or "./proxylm.db" c.storage.database_path;
    history_retention_days = number_or (pos 30) c.storage.history_retention_days;
  };
  tui = record { show_completed_minutes = number_or (pos 30) c.tui.show_completed_minutes };
  compat = record { response_format_mode = text_or "passthrough" c.compat.response_format_mode };
  backends = map backend_defaults c.backends;
}

text_or-again : (d s : String) → d == "" ≡ false → text_or d (text_or d s) ≡ text_or d s
unfolding text_or
text_or-again d s n = elim (Bool-cases (s == "")) [ inl e ↦ simp (e, n) | inr e ↦ simp e ]

number_or-again : (d n : ℤ) → number_or d d ≡ d → number_or d (number_or d n) ≡ number_or d n
unfolding number_or
number_or-again d (pos zero) h = h
number_or-again d (pos (suc n)) h = refl
number_or-again d (negsuc n) h = refl

backends-again :
    (bs : List Backend) → map backend_defaults (map backend_defaults bs) ≡ map backend_defaults bs
unfolding number_or
backends-again [] = refl
backends-again (b ∷ bs) = simp (
  text_or-again "openai" b.type_name refl,
  number_or-again (pos 600) b.timeout_seconds refl,
  backends-again bs,
)

-- Defaults that were applied once are not changed by a second time.
apply_defaults-again : (c : Config) → apply_defaults (apply_defaults c) ≡ apply_defaults c
unfolding apply_defaults number_or
apply_defaults-again c = simp (
  text_or-again "0.0.0.0" c.proxy.host refl,
  number_or-again (pos 8080) c.proxy.port refl,
  text_or-again "info" c.proxy.log_level refl,
  text_or-again "model_affinity_least_busy" c.routing.strategy refl,
  number_or-again (pos 3) c.retry.max_attempts refl,
  number_or-again (pos 500) c.retry.initial_backoff_ms refl,
  number_or-again (pos 8000) c.retry.max_backoff_ms refl,
  number_or-again (pos 30) c.discovery.interval_seconds refl,
  number_or-again (pos 3) c.discovery.unhealthy_after_failed_polls refl,
  text_or-again "./proxylm.db" c.storage.database_path refl,
  number_or-again (pos 30) c.storage.history_retention_days refl,
  number_or-again (pos 30) c.tui.show_completed_minutes refl,
  text_or-again "passthrough" c.compat.response_format_mode refl,
  backends-again c.backends,
)

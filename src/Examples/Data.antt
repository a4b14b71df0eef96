-- ===== src/Examples/Data.antt =====
-- Jobs, servers and settings for the examples.
use proxy_lm_go.Common.{pos, String, true, false, Option, none, some, List, [], ◌∷◌, map}
use proxy_lm_go.Core.Models.{message, Job, JobResult, zero_result, ModelInfo, ServerInfo}
use proxy_lm_go.Core.Retry.{RetryConfig}
use proxy_lm_go.Core.Pool.{JobPool}
use proxy_lm_go.Core.Router.{Router, RouterStrategy}

abbrev pub a_job : String → String → Job
a_job id model = record {
  id = id;
  model = model;
  endpoint = "chat";
  visited = [];
  submitted_at = none;
  dispatched = false;
  queue_ms = pos 0;
  run_ms = pos 0;
}

abbrev pub model_info : String → ModelInfo
model_info name = record { name = name }

abbrev pub a_server : String → Option String → List String → List Job → ServerInfo
a_server name current models queue = record {
  name = name;
  url = "http://localhost";
  priority = pos 1;
  type_name = "openai";
  timeout = 1000000000;
  api_key = "";
  current_model = current;
  healthy = true;
  in_flight = false;
  last_slow = false;
  failure_count = 0;
  models = map model_info models;
  queue = queue;
  notify = false;
  last_dispatched_model = "";
  consecutive_model_count = 0;
  loaded_models = none;
}

-- Two servers that both have the models m and k; m is loaded on the first.
abbrev pub first_server : ServerInfo
first_server = a_server "one" (some "m") ("m" ∷ "k" ∷ []) []

abbrev pub second_server : ServerInfo
second_server = a_server "two" none ("m" ∷ "k" ∷ []) []

abbrev pub two_servers : List ServerInfo
two_servers = first_server ∷ second_server ∷ []

abbrev pub two_jobs : JobPool
two_jobs = record { jobs = a_job "j1" "k" ∷ a_job "j2" "m" ∷ [] }

abbrev pub a_router : RouterStrategy → Router
a_router strategy = record { servers = two_servers; strategy = strategy; rr_idx = 0 }

abbrev pub three_attempts : RetryConfig
three_attempts = record { max_attempts = 3; initial_backoff = 100; max_backoff = 1000 }

abbrev pub succeeded : JobResult
succeeded = record zero_result { http_status = 200; server = "two" }

abbrev pub failed_early : String → JobResult
failed_early server = record zero_result { err = some (message "refused"); server = server }

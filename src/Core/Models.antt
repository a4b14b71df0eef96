-- ===== src/Core/Models.antt =====
-- internal/core/models.go, and the job types of internal/core/scheduler.go. A method that changes
-- `*ServerInfo` returns the new record; the atomics and the fields under `mu` are its fields.
-- A `*Job` is held by one owner at a time (a queue, a worker or its Submit), so a job is a value.
use proxy_lm_go.Common.{
  ℕ, ℤ, String, ◌==◌, ◌≡◌, refl, Bool, true, false, Option, none, some, List, [], ◌∷◌, map,
  if◌then◌else◌, any, contains,
}

-- A Go `error`: the chain that `errors.Is` and `errors.As` walk.
pub data Err : Type 0 where
  canceled : Err
  deadline_exceeded : Err
  no_server : String → Err
  empty_job : Err
  server_unhealthy : String → Err
  panic : String → Err
  scheduler_stopped : Err → Err
  -- `url.Error`, with the answer of its `Timeout` method
  url_error : Bool → Err → Err
  -- `net.OpError`, with its `Op`
  op_error : String → Err → Err
  -- `os.SyscallError`
  syscall_error : Err → Err
  errno : String → Err
  -- an error of `fmt.Errorf` without and with `%w`
  message : String → Err
  wrapped : String → Err → Err

pub record JobResult : Type 0 where
  pub err : Option Err
  pub http_status : ℕ
  pub response_started : Bool
  pub prompt_tokens : ℤ
  pub output_tokens : ℤ
  pub attempt : ℕ
  pub server : String
  pub ttft_ms : ℤ
  pub model_reloaded : Bool
  pub run_ms : ℤ
  pub queue_ms : ℤ

-- `JobResult{}`
abbrev pub zero_result : JobResult
zero_result = record {
  err = none;
  http_status = 0;
  response_started = false;
  prompt_tokens = ℤ.pos 0;
  output_tokens = ℤ.pos 0;
  attempt = 0;
  server = "";
  ttft_ms = ℤ.pos 0;
  model_reloaded = false;
  run_ms = ℤ.pos 0;
  queue_ms = ℤ.pos 0;
}

-- `visited` holds the keys of the map that are set to true. `submitted_at` is none at the zero time.
-- The closure `Run` and the channel `done` are parameters of the functions that use them.
pub record Job : Type 0 where
  pub id : String
  pub model : String
  pub endpoint : String
  pub visited : List String
  pub submitted_at : Option ℕ
  pub dispatched : Bool
  pub queue_ms : ℤ
  pub run_ms : ℤ

pub record ModelInfo : Type 0 where
  pub name : String

pub record LoadedModelsState : Type 0 where
  pub models : List String
  pub probed : Bool

pub record ServerInfo : Type 0 where
  pub name : String
  pub url : String
  pub priority : ℤ
  pub type_name : String
  pub timeout : ℕ
  pub api_key : String
  pub current_model : Option String
  pub healthy : Bool
  pub in_flight : Bool
  pub last_slow : Bool
  pub failure_count : ℕ
  pub models : List ModelInfo
  pub queue : List Job
  -- the buffer of the capacity-1 channel
  pub notify : Bool
  pub last_dispatched_model : String
  pub consecutive_model_count : ℕ
  pub loaded_models : Option LoadedModelsState

unfoldable pub new_server_info : String → String → ℤ → String → ℕ → String → ServerInfo
new_server_info name url priority typ timeout api_key = record {
  name = name;
  url = url;
  priority = priority;
  type_name = typ;
  timeout = timeout;
  api_key = api_key;
  current_model = none;
  healthy = false;
  in_flight = false;
  last_slow = false;
  failure_count = 0;
  models = [];
  queue = [];
  notify = false;
  last_dispatched_model = "";
  consecutive_model_count = 0;
  loaded_models = none;
}

-- A send on the full channel is dropped.
unfoldable pub wake : ServerInfo → ServerInfo
wake s = record s { notify = true }

-- The worker's receive from `Notify`, which takes the buffered signal.
unfoldable pub take_notify : ServerInfo → Option ServerInfo
take_notify s = if s.notify then some (record s { notify = false }) else none

abbrev string_of : Option String → String
string_of none = ""
string_of (some m) = m

unfoldable pub current_model_string : ServerInfo → String
current_model_string s = string_of s.current_model

unfoldable pub set_current_model : ServerInfo → String → ServerInfo
set_current_model s m =
    if m == "" then record s { current_model = none } else record s { current_model = some m }

unfoldable pub set_loaded_models : ServerInfo → List String → Bool → ServerInfo
set_loaded_models s models probed = record s {
  loaded_models = some (record { models = models; probed = probed });
}

abbrev loaded_of : Option LoadedModelsState → List String × Bool
loaded_of none = ([], false)
loaded_of (some st) = (st.models, st.probed)

unfoldable pub loaded_models_snapshot : ServerInfo → List String × Bool
loaded_models_snapshot s = loaded_of s.loaded_models

-- The set of names as a list: a lookup in the map is a search.
unfoldable pub models_snapshot : ServerInfo → List String
models_snapshot s = map (λ m. m.name) s.models

unfoldable pub has_model : ServerInfo → String → Bool
has_model s model = any (λ m. m.name == model) s.models

-- The snapshot of the names answers as the search does.
pub contains-models_snapshot :
    (s : ServerInfo) (model : String) → contains (models_snapshot s) model ≡ has_model s model
unfolding models_snapshot has_model
contains-models_snapshot s model = any_names s.models
  where
    any_names :
        (ms : List ModelInfo)
        → contains (map (λ m. m.name) ms) model ≡ any (λ m. m.name == model) ms
    any_names [] = refl
    any_names (m ∷ ms) = rw (any_names ms)

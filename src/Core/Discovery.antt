-- ===== src/Core/Discovery.antt =====
-- internal/core/discovery.go: the polls that keep the health and the models of the servers. The
-- backend, which is asked over HTTP, is a parameter: what its calls return in one poll. An entry
-- holds the state of its server, which the scheduler also writes (Core/Scheduler/Dispatch).
pub mod Health
pub mod Outage
pub mod ModelList
use proxy_lm_go.Common.{
  ℕ, suc, ◌+◌, ℤ, pos, String, ◌==◌, Bool, true, false, not, ◌&&◌, ◌||◌, Option, none, some, List,
  [], ◌∷◌, ◌++◌, map, if◌then◌else◌, ltb, leb, eqb, leb_ℤ, keep, length,
}
use proxy_lm_go.Core.Models.{ModelInfo, ServerInfo, wake, set_loaded_models}

-- What `ListModels` returns: the names, or an error, and whether it is `ErrModelsShape`.
pub data Listed : Type 0 where
  listed : List String → Listed
  list_failed : Bool → Listed

-- What the probe of the loaded models returns: the backend has none, or does not support it, or fails.
pub data Probe : Type 0 where
  no_prober : Probe
  unsupported : Probe
  probe_failed : Probe
  probed_models : List String → Probe

pub record DiscoveryEntry : Type 0 where
  pub server : ServerInfo
  pub explicit_models : List String
  pub failed_polls : ℕ

pub record Discovery : Type 0 where
  pub interval : ℕ
  pub unhealthy_after_failed_polls : ℤ
  pub entries : List DiscoveryEntry

unfoldable pub new_discovery : ℕ → ℤ → Discovery
new_discovery interval unhealthy_after = record {
  interval = interval;
  unhealthy_after_failed_polls = unhealthy_after;
  entries = [];
}

unfoldable pub to_model_infos : List String → List ModelInfo
to_model_infos [] = []
to_model_infos (n ∷ names) =
    if not (n == "") then record { name = n } ∷ to_model_infos names else to_model_infos names

unfoldable pub has_explicit : List String → Bool
has_explicit explicit_models = ltb 0 (length explicit_models)

unfoldable pub set_models : ServerInfo → List String → ServerInfo
set_models s names = record s { models = to_model_infos names }

unfoldable pub entry_of : ServerInfo → List String → DiscoveryEntry
entry_of s explicit_models = record {
  server = if has_explicit explicit_models then set_models s explicit_models else s;
  explicit_models = explicit_models;
  failed_polls = 0;
}

unfoldable pub add_server : Discovery → ServerInfo → List String → Discovery
add_server d s explicit_models = record d {
  entries = d.entries ++ (entry_of s explicit_models ∷ []);
}

-- An unsupported or failed probe leaves the last snapshot.
unfoldable pub probe_loaded_models : Probe → ServerInfo → ServerInfo
probe_loaded_models no_prober s = s
probe_loaded_models unsupported s = s
probe_loaded_models probe_failed s = s
probe_loaded_models (probed_models loaded) s = set_loaded_models s loaded true

-- `Healthy.Store(true)`, with a wake if it was false.
unfoldable pub mark_healthy : ServerInfo → ServerInfo
mark_healthy s = if s.healthy then s else wake (record s { healthy = true })

-- A poll that counts as a failure.
unfoldable pub poll_failed : ℤ → DiscoveryEntry → DiscoveryEntry
poll_failed unhealthy_after e =
    let failed_polls = e.failed_polls + 1 in
    record e {
      failed_polls = failed_polls;
      server =
          if leb_ℤ unhealthy_after (pos failed_polls) && e.server.healthy
          then record (e.server) { healthy = false }
          else e.server;
    }

-- A poll that counts as a success, before the list of models is read.
unfoldable pub poll_succeeded : Probe → DiscoveryEntry → DiscoveryEntry
poll_succeeded probe e = record e {
  failed_polls = 0;
  server = probe_loaded_models probe (mark_healthy e.server);
}

-- `pollOne`. A server with explicit models counts as alive when its answer has the wrong shape.
unfoldable pub poll_one : ℤ → Listed → Probe → DiscoveryEntry → DiscoveryEntry
poll_one unhealthy_after (list_failed shape_err) probe e =
    if has_explicit e.explicit_models && shape_err
    then poll_succeeded probe e
    else poll_failed unhealthy_after e
poll_one unhealthy_after (listed models) probe e =
    let polled = poll_succeeded probe e in
    if has_explicit e.explicit_models
    then polled
    else record polled { server = set_models (polled.server) models }

-- One sweep: the polls of the entries touch nothing in common, so their order does not matter.
unfoldable pub poll_all : (ServerInfo → Listed × Probe) → Discovery → Discovery
poll_all backend d = record d {
  entries =
      map
        (λ e.
          let (models, probe) = backend e.server in
          poll_one d.unhealthy_after_failed_polls models probe e)
        d.entries;
}

-- `maxInitTimeout`, 10 s in nanoseconds.
abbrev pub max_init_timeout : ℕ
max_init_timeout = 10000000000

unfoldable pub init_timeout : ℕ → ℕ
init_timeout timeout =
    if leb timeout 0 || ltb max_init_timeout timeout then max_init_timeout else timeout

-- After `ListModels` at the start.
unfoldable pub initially : Listed → DiscoveryEntry → DiscoveryEntry
initially (list_failed _) e = record e { server = record (e.server) { healthy = false } }
initially (listed models) e = record e {
  server = set_models (record (e.server) { healthy = true }) models;
}

-- The backend answers within the time that it is given.
unfoldable pub initial_check : (ServerInfo → ℕ → Listed) → DiscoveryEntry → DiscoveryEntry
initial_check backend e =
    if has_explicit e.explicit_models
    then record e { server = record (e.server) { healthy = true } }
    else initially (backend e.server (init_timeout (e.server.timeout))) e

unfoldable pub initial_healthcheck : (ServerInfo → ℕ → Listed) → Discovery → Discovery
initial_healthcheck backend d = record d { entries = map (initial_check backend) d.entries }

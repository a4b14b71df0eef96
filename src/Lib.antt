-- ===== src/Lib.antt =====
-- ProxyLM.GO: the core of a proxy that shares several language model servers among clients.
--
-- Parts, and the files that model them (paths from the repository's root):
--   internal/core/models.go, and the types of internal/core/scheduler.go: Core/Models. A `*ServerInfo`
--     is a record, an atomic is a field, a job is a value that has one owner at a time.
--   internal/core/retry.go: Core/Retry (`Backoff` is `backoff`, on int64 nanoseconds).
--   internal/core/pool.go: Core/Pool, the shared queue of the pull strategies: `PopFor`,
--     `PopForFairShare` and `PopForCoverage` are `pop_for`, `pop_for_fair_share`, `pop_for_coverage`.
--   internal/core/router.go: Core/Router, the choice of a server in the push strategies (`Pick`).
--   internal/core/scheduler.go: Core/Scheduler/Queue is the push queue of a server (`pickNext`,
--     `cancelQueued`, `failServerQueue`, `failPending`); Core/Scheduler/Dispatch is one attempt on a
--     server (`dispatch`, `runWithPanicGuard`, `recordPerf`, `updateSlowFlag`); Core/Scheduler/Errors
--     is `isConnectionError` and the tests of `errors.Is` and `errors.As`; Core/Scheduler/Worker is the
--     inner loop of `worker` in the push mode, and Core/Scheduler/Meanwhile what others do to its server
--     in the meantime; Core/Submit is
--     `submitPush` with `runOnServer`, Core/Submit/Deferred is `submitDeferred`, Core/Submit/Entry is
--     `Submit`.
--   internal/core/discovery.go: Core/Discovery, the polls that set health and models.
--   internal/core/perf.go: Core/Perf, the ring buffers of observations.
--   internal/config/config.go, validate.go and load.go: Config, Config/Validate and Config/Defaults.
--   internal/core/livetail.go: Core/LiveTail, the last runes of the answers in progress.
--   internal/api/auth.go: Api/Auth, the table of keys and the middlewares.
--   internal/api/translate: Api/Translate. request.go is Api/Translate/Request (`chat_body` and
--     `messages_body` are the maps that the two functions make), response.go is Api/Translate/Response,
--     stream.go is Api/Translate/Stream with one module for each translator. Api/Json has the values.
--   internal/api/routes_openai.go, routes_anthropic.go, streaming.go, streaming_translate.go, errors.go:
--     Api/Handlers. Passthrough and Translated are the loops over the lines of a stream, Whole is
--     `runNonStream`, Attempt is `runStream` and the choice between them, Serve is `ServeHTTP` with
--     the closure `Run` (`run_closure`), Headers is `copyHeaders`, Compat is
--     `applyResponseFormatCompat` and the list of models, Entry is the head of `ServeHTTP`.
--   internal/core/backends: Core/Backends, the headers and credentials of a request to a backend.
--   Common holds the shared tests, integers, lists and sorting; Examples applies the theorems.
--
-- How they interact: a request goes through `Submit`, which asks the router for a server or puts the
-- job in the pool. A worker takes a job from its queue or from the pool, and makes one attempt, which
-- may mark its server unhealthy and fail its queue; the result goes back to `Submit`, which may retry
-- with the failed server excluded. An attempt is the handler's closure `Run`: it may translate the
-- request, forwards it, and copies or translates the answer to the client. The discovery marks servers healthy and wakes them. The
-- configuration is validated before any of this starts.
--
-- Concurrency: an operation under a lock is one step. The pool and the push queue have theorems over
-- any sequence of steps. The loops of `Submit` take what the workers and the client do in one round
-- from a record of that round, and the theorems hold for every sequence of such records. The worker's
-- loop takes from such records what Submit and the polls do to its server between and during attempts.
--
-- Bounds and fuel: the two loops of `Submit` run on max_attempts + 1 rounds of fuel, and each round
-- but the last adds an attempt, so the fuel is never used up. The worker's loop takes a job in each
-- round, so fuel above the number of jobs that wait or are added is enough. `max_attempts` is a
-- natural number: zero or less in Go ends a request after one attempt, as one does. The round-robin
-- counter and durations are int64 bit patterns with their wrap-around; other counts are unbounded. A buffer of observations
-- holds 1000.
--
-- Parameters: float64 arithmetic of the slow test, the predictions of the regression, the clocks, the
-- answers of the backends, the connection to the client, and the JSON and text functions of Go's
-- standard library.
--
-- JSON: a decoded object is the list of its entries, with different keys. Where a theorem needs that
-- a value comes back from its encoding, that is a hypothesis on this value.
--
-- Not modelled: the regression of internal/core/perf.go (float64), the goroutines (also the pull worker)
-- and tickers, logging, the reading of the configuration file and its paths, the routing of
-- internal/api/server.go, the HTTP clients of the backends, the storage, the IPC, the user interfaces and
-- the commands.
pub mod Common
pub mod Core
pub mod Config
pub mod Api
pub mod Examples

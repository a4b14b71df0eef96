-- ===== src/Core/Scheduler.antt =====
-- internal/core/scheduler.go: the queue of a server, one attempt on a server, and the errors that
-- mark a server unhealthy. The loops of Submit are in `Submit`.
pub mod Errors
pub mod Queue
pub mod Dispatch
pub mod Outcome
pub mod Crash
pub mod Streak
pub mod Meanwhile
pub mod Worker

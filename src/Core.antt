-- ===== src/Core.antt =====
-- internal/core: the scheduler and what it is built of.
pub mod Models
pub mod LiveTail
pub mod Retry
pub mod Perf
pub mod Pool
pub mod Router
pub mod Scheduler
pub mod Submit
pub mod Discovery
pub mod Backends

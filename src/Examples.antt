-- ===== src/Examples.antt =====
-- The theorems applied to small concrete inputs.
pub mod Data
mod Requests
mod Pools
mod Servers
mod Settings
pub mod Translation
mod Handlers

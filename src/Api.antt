-- ===== src/Api.antt =====
-- internal/api: who may call the server, and the requests and responses of the two protocols.
pub mod Auth
pub mod Json
pub mod Translate
pub mod Handlers

-- ===== src/Api.antt =====
-- internal/api: the parts of the HTTP API that are modelled.
pub mod Handlers
pub mod Poll
pub mod Broker
pub mod Pages

-- ===== src/Api.antt =====
-- The HTTP layer: api/exception_handlers.py and api/routes/.
pub mod Handlers
pub mod Responses
pub mod Routes
pub mod Server

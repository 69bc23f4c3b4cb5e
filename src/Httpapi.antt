-- ===== src/Httpapi.antt =====
-- api/internal/httpapi: the middleware, the handlers and the routes of the API.
pub mod RateLimit
pub mod Concurrency
pub mod Clients
pub mod Message
pub mod Deps
pub mod Handlers
pub mod Router
pub mod Serve

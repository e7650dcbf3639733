-- ===== src/Middleware.antt =====
-- Middleware of src/middleware/.
pub mod Paths
pub mod Sessions
pub mod Csrf
pub mod Forwarded
pub mod SecurityHeaders
pub mod BodySize
pub mod Authorization
pub mod Concurrency
pub mod RateLimit

-- ===== src/Auth.antt =====
-- internal/auth, and the middleware of internal/api/middleware that stands before each handler.
pub mod Bearer
pub mod Secret
pub mod KeyStore
pub mod Gate

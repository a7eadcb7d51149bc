-- ===== src/Api.antt =====
-- internal/api/handlers: the audit and response helpers, and the pipeline of the message handlers.
pub mod Flow
pub mod Pipeline

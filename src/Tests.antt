-- ===== src/Tests.antt =====
-- Concrete inputs for the theorems that have hypotheses or parameters.
mod Audit
mod Auth
mod Pipeline
mod Dispatch
mod Ratelimit
mod Adminui
mod Telegram
mod Registry
mod Admin
mod Bot
mod Hook

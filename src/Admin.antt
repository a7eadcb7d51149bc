-- ===== src/Admin.antt =====
-- The admin API of internal/api/handlers: admin_apps.go, admin_users.go and admin_subscriptions.go.
pub mod Tx
pub mod Apps
pub mod Members
pub mod Api
pub mod Privilege
pub mod Outcome

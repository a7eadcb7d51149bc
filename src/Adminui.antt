-- ===== src/Adminui.antt =====
-- The operator's UI of internal/adminui: sessions, the brakes on logins, and the key store.
pub mod Session
pub mod Login
pub mod Keys

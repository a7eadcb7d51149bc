-- ===== src/Audit/Event.antt =====
-- internal/audit/event.go. Times are numbers of nanoseconds (0 is the zero `time.Time`), an empty
-- text or a zero number is a field left out, and details are reduced to named numbers, texts and
-- truth values.
use telegram_server.Prelude.{ℕ, String, Bool, List}

pub data Stage : Type 0 where
  received validated dispatched delivered denied retried deferred : Stage
  intrusion_kick intrusion_unmitigated bot_not_admin telegram_auth_failed : Stage
  key_issued key_revoked : Stage

pub data Detail : Type 0 where
  num : ℕ → Detail
  text : String → Detail
  flag : Bool → Detail

pub record Event : Type 0 where
  pub at : ℕ
  pub trace_id : String
  pub message_id : String
  pub stage : Stage
  pub app_id : String
  pub capability : String
  pub capability_set_ver : ℕ
  pub endpoint : String
  pub route_strategy : String
  pub delivery_channel : String
  pub recipient_user_id : ℕ
  pub recipient_chat_id : ℕ
  pub error_code : String
  pub details : List (String × Detail)

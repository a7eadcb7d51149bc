-- ===== src/Api/Flow.antt =====
-- The helpers of internal/api/handlers/common.go that write audit events and responses. The audit
-- writer and the dispatcher are parameters, given by what their n-th call returns; a trace records
-- what was asked of them, newest first.
use telegram_server.Prelude.{
  ℕ, suc, String, Bool, true, false, List, ◌∷◌, Option, none, some, if◌then◌else◌,
}
use telegram_server.Audit.Event.{Stage, Detail, Event, received, denied, validated, delivered}
use telegram_server.Dispatch.Collect.{RecipientHandle}
use telegram_server.Dispatch.Resolvers.{Envelope}

-- The errors of internal/dispatch/dispatcher.go; `other` is any error that is none of them.
pub data SendError : Type 0 where
  chat_not_found bot_not_admin rate_limited telegram_auth transient other : SendError

pub data SendResult : Type 0 where
  sent_as : ℕ → SendResult
  send_fails : SendError → SendResult

-- A nil writer is `none`.
pub record Env : Type 0 where
  pub audit : Option (ℕ → Bool)
  pub send : ℕ → RecipientHandle → Envelope → SendResult

pub data Effect : Type 0 where
  wrote lost : Event → Effect
  sent : RecipientHandle → Envelope → Effect

pub record World : Type 0 where
  pub trace : List Effect
  pub writes : ℕ
  pub sends : ℕ

pub record Report : Type 0 where
  pub user_id : ℕ
  pub status : String
  pub reason : String
  pub message_id : ℕ

pub record DispatchResponse : Type 0 where
  pub message_id : String
  pub delivered : ℕ
  pub skipped : ℕ
  pub failed : ℕ
  pub recipients : List Report

pub data Body : Type 0 where
  error_body : String → Body
  report_body : DispatchResponse → Body
  fields_body : List (String × Detail) → Body

pub record Response : Type 0 where
  pub status : ℕ
  pub body : Body

-- `writeAuditSafe`: the world after it, and whether it returned no error.
unfoldable pub write_audit_safe : Env → World → Event → World × Bool
write_audit_safe env w e = elim env.audit [
  | none ↦ (w, true)
  | some ok ↦
      if ok w.writes
      then (record w { trace = wrote e ∷ w.trace; writes = suc w.writes }, true)
      else (record w { trace = lost e ∷ w.trace; writes = suc w.writes }, false)
]

-- `flow.event(stage)`.
unfoldable pub event : Event → Stage → Event
event base s = record base { stage = s }

unfoldable pub write_error : ℕ → String → Response
write_error status code = record { status = status; body = error_body code }

-- `flow.deny`.
unfoldable pub deny : Env → Event → World → String → ℕ → World × Response
unfolding write_audit_safe event write_error
deny env base w code status =
    let e = record (event base denied) { error_code = code } in
    ((write_audit_safe env w e).0, write_error status code)

-- `flow.received`.
unfoldable pub note_received : Env → Event → World → World
unfolding write_audit_safe event
note_received env base w = (write_audit_safe env w (event base received)).0

-- `flow.succeed`.
unfoldable pub succeed : Env → Event → World → List (String × Detail) → World
unfolding write_audit_safe event
succeed env base w details =
    let e = record (event base validated) { details = details } in
    let w' = (write_audit_safe env w e).0 in (write_audit_safe env w' (event base delivered)).0

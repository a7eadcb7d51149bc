-- ===== src/Api/Pipeline/Accounts.antt =====
-- The response of a message handler, its audit trail and the messages it sent, recipient by recipient.
pub mod Trail
pub mod Steps
use mathlib.Core.Path.{subst}
use mathlib.Core.List.{append-nil, append_assoc}
use telegram_server.Prelude.{
  ℕ, suc, ◌≡◌, sym, String, Bool, List, [], ◌∷◌, ◌++◌, length, str_eq, if◌then◌else◌,
}
use telegram_server.Audit.Event.{
  Stage, Event, received, validated, dispatched, delivered, denied, deferred,
}
use telegram_server.Dispatch.Collect.{RecipientHandle, ResolveError, ResolveResult}
use telegram_server.Dispatch.Resolvers.{Envelope}
use telegram_server.Api.Flow.{
  SendError, chat_not_found, bot_not_admin, rate_limited, telegram_auth, transient, other,
  SendResult, sent_as, send_fails, Env, Effect, wrote, lost, sent, World, Report, DispatchResponse,
  write_audit_safe,
}
use telegram_server.Api.Pipeline.{
  settle, deliver, report_skipped, finish, handle_body, recipient_event, report,
  classify_dispatch_err,
}
use telegram_server.Api.Pipeline.Accounts.Trail.{
  recorded, About, code_of, Settled, Deliveries, all_delivered, delivery, Denials, all_denied,
  denial, messages, count,
}
use telegram_server.Api.Pipeline.Accounts.Steps.{Grows}
use telegram_server.Api.Pipeline.Runs.{write_stored, received_world}

-- The two events that come before the first recipient, newest first.
pub record Opened (base : Event) (opening : List Effect) : Type 0 where
  pub came : Event
  pub checked : Event
  pub listed : opening ≡ wrote checked ∷ wrote came ∷ []
  pub stages : (came.stage ≡ received) × (checked.stage ≡ validated)
  pub traces : (came.trace_id ≡ base.trace_id) × (checked.trace_id ≡ base.trace_id)

-- A run over the recipients and the skipped users of a result: the trace that it leaves, newest
-- first, and its response.
pub record Tallied (env : Env) (ok : ℕ → Bool) (base : Event) (envelope : Envelope)
    (channel : String) (r : ResolveResult) (trace : List Effect) (resp : DispatchResponse)
    : Type 0 where
  pub opening : List Effect
  pub middle : List Effect
  pub written : ℕ
  pub tried : List Report
  pub refused : List Report
  pub opened : Opened base opening
  pub deliveries : Deliveries env ok base envelope 2 0 opening r.recipients written middle tried
  pub denials : Denials ok base channel written middle r.skipped trace refused
  pub listed : resp.recipients ≡ tried ++ refused
  pub arrived : resp.delivered ≡ count "delivered" resp.recipients
  pub put_off : resp.failed ≡ count "failed" resp.recipients
  pub skips : resp.skipped ≡ count "skipped" resp.recipients
  pub message : resp.message_id ≡ base.message_id

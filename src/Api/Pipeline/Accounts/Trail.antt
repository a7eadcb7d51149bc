-- ===== src/Api/Pipeline/Accounts/Trail.antt =====
-- What a run of a message handler leaves for each recipient: audit events, messages and entries.
use telegram_server.Prelude.{ℕ, suc, ◌+◌, ◌≡◌, String, Bool, List, [], ◌∷◌, str_eq, if◌then◌else◌}
use telegram_server.Audit.Event.{Stage, Event, dispatched, delivered, denied, deferred}
use telegram_server.Dispatch.Collect.{RecipientHandle, ResolveError}
use telegram_server.Dispatch.Resolvers.{Envelope}
use telegram_server.Api.Flow.{
  SendError, chat_not_found, bot_not_admin, rate_limited, telegram_auth, transient, other,
  SendResult, sent_as, send_fails, Env, Effect, wrote, lost, sent, Report,
}
use telegram_server.Api.Pipeline.{report}

-- What the writer makes of its n-th event.
abbrev pub recorded : (ℕ → Bool) → ℕ → Event → Effect
recorded ok n e = if ok n then wrote e else lost e

-- An event of the request `base` about one recipient.
pub record About (base : Event) (s : Stage) (through : String) (to_user to_chat : ℕ)
    (error : String) (e : Event) : Type 0 where
  pub stage : e.stage ≡ s
  pub trace : e.trace_id ≡ base.trace_id
  pub message : e.message_id ≡ base.message_id
  pub app : e.app_id ≡ base.app_id
  pub route : e.route_strategy ≡ base.route_strategy
  pub channel : e.delivery_channel ≡ through
  pub user : e.recipient_user_id ≡ to_user
  pub chat : e.recipient_chat_id ≡ to_chat
  pub code : e.error_code ≡ error

-- The codes of the dispatcher's errors.
abbrev pub code_of : SendError → String
code_of chat_not_found = "chat_not_found"
code_of bot_not_admin = "bot_not_admin"
code_of rate_limited = "telegram_rate_limited"
code_of telegram_auth = "telegram_auth_failed"
code_of transient = "telegram_transient"
code_of other = "telegram_transient"

-- The event and the entry that follow a send, by its result.
abbrev pub Settled : Event → RecipientHandle → SendResult → Event → Report → Type 0
Settled base h (sent_as id) e rep =
    About base delivered h.channel h.user_id h.chat_id "" e
    × (rep ≡ report h.user_id "delivered" "" id)
Settled base h (send_fails err) e rep =
    About base deferred h.channel h.user_id h.chat_id (code_of err) e
    × (rep ≡ report h.user_id "failed" (code_of err) 0)

-- The deliveries to the recipients in their order: each gets a dispatched event, one message, and
-- the event and the entry of the message's result. The indices are the numbers of the next write
-- and the next message and the trace, newest first, before and after, and the entries.
pub data Deliveries (env : Env) (ok : ℕ → Bool) (base : Event) (envelope : Envelope)
    : ℕ → ℕ → List Effect → List RecipientHandle → ℕ → List Effect → List Report → Type 0 where
  all_delivered : {n k : ℕ} {t : List Effect} → Deliveries env ok base envelope n k t [] n t []
  delivery :
      {n k m : ℕ} {t t' : List Effect} {h : RecipientHandle} {hs : List RecipientHandle}
      {rep : Report} {reps : List Report}
      → (asked settled : Event) → About base dispatched h.channel h.user_id h.chat_id "" asked
      → Settled base h (env.send k h envelope) settled rep
      → Deliveries env ok base envelope
          (suc (suc n))
          (suc k)
          (recorded ok (suc n) settled ∷ sent h envelope ∷ recorded ok n asked ∷ t)
          hs
          m
          t'
          reps
      → Deliveries env ok base envelope n k t (h ∷ hs) m t' (rep ∷ reps)

-- The denials of the skipped users in their order: an event and an entry with the code for each.
pub data Denials (ok : ℕ → Bool) (base : Event) (channel : String)
    : ℕ → List Effect → List ResolveError → List Effect → List Report → Type 0 where
  all_denied : {n : ℕ} {t : List Effect} → Denials ok base channel n t [] t []
  denial :
      {n : ℕ} {t t' : List Effect} {s : ResolveError} {ss : List ResolveError} {reps : List Report}
      → (refused : Event) → About base denied channel s.user_id 0 s.code refused
      → Denials ok base channel (suc n) (recorded ok n refused ∷ t) ss t' reps
      → Denials ok base channel n t (s ∷ ss) t' (report s.user_id "skipped" s.code 0 ∷ reps)

-- The messages given to the dispatcher.
abbrev pub messages : List Effect → ℕ
messages [] = 0
messages (wrote e ∷ t) = messages t
messages (lost e ∷ t) = messages t
messages (sent h env ∷ t) = suc (messages t)

-- How many entries have a status.
abbrev pub count : String → List Report → ℕ
count status [] = 0
count status (r ∷ rs) = (if str_eq r.status status then 1 else 0) + count status rs

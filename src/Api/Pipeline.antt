-- ===== src/Api/Pipeline.antt =====
-- `runStrategyDispatch` of internal/api/handlers/common.go, and the four message handlers.
pub mod Runs
pub mod Accounts
pub mod Order
use telegram_server.Prelude.{
  ℕ, suc, String, Bool, true, false, not, ◌&&◌, List, [], ◌∷◌, ◌++◌, Option, none, some, Bytes,
  length, str_eq, ◌==◌, if◌then◌else◌,
}
use telegram_server.Audit.Event.{
  Stage, Detail, num, Event, received, validated, dispatched, delivered, denied, deferred,
}
use telegram_server.Dispatch.Collect.{RecipientHandle, ResolveError, ResolveResult}
use telegram_server.Dispatch.Resolvers.{
  Envelope, Request, Failure, app_not_found, empty_recipients, query_error, index_panic, Resolved,
  found, fails, is_empty,
}
use telegram_server.Api.Flow.{
  SendError, chat_not_found, bot_not_admin, rate_limited, telegram_auth, transient, other,
  SendResult, sent_as, send_fails, Env, Effect, sent, World, Report, DispatchResponse, report_body,
  Response, write_audit_safe, event, write_error, deny,
}

pub record DispatchOpts : Type 0 where
  pub require_app_id : Bool
  pub require_recipients : Bool
  pub allow_min_grade : Bool
  pub default_channel : String

pub record DispatchRequest : Type 0 where
  pub recipients : List ℕ
  pub app_id : String
  pub min_grade : Bytes
  pub envelope : Envelope

-- The interface `strategy.RouteStrategy`.
pub record RouteStrategy : Type 0 where
  pub name : String
  pub resolve : Request → Resolved

unfoldable pub classify_dispatch_err : SendError → String
classify_dispatch_err chat_not_found = "chat_not_found"
classify_dispatch_err bot_not_admin = "bot_not_admin"
classify_dispatch_err rate_limited = "telegram_rate_limited"
classify_dispatch_err telegram_auth = "telegram_auth_failed"
classify_dispatch_err transient = "telegram_transient"
classify_dispatch_err other = "telegram_transient"

unfoldable pub recipient_event : Event → Stage → String → ℕ → ℕ → String → Event
unfolding event
recipient_event base s channel user_id chat_id code = record (event base s) {
  delivery_channel = channel;
  recipient_user_id = user_id;
  recipient_chat_id = chat_id;
  error_code = code;
}

abbrev pub report : ℕ → String → String → ℕ → Report
report user_id status reason message_id = record {
  user_id = user_id;
  status = status;
  reason = reason;
  message_id = message_id;
}

-- What follows a send: the audit event and the entry of the response.
unfoldable pub settle :
    Env → Event → RecipientHandle → SendResult → World → DispatchResponse → World × DispatchResponse
unfolding write_audit_safe recipient_event classify_dispatch_err
settle env base h (send_fails err) w resp =
    let code = classify_dispatch_err err in
    (
      (write_audit_safe env w (recipient_event base deferred h.channel h.user_id h.chat_id code)).0,
      record resp {
        failed = suc resp.failed;
        recipients = resp.recipients ++ report h.user_id "failed" code 0 ∷ [];
      },
    )
settle env base h (sent_as id) w resp = (
  (write_audit_safe env w (recipient_event base delivered h.channel h.user_id h.chat_id "")).0,
  record resp {
    delivered = suc resp.delivered;
    recipients = resp.recipients ++ report h.user_id "delivered" "" id ∷ [];
  },
)

-- The body of the loop over the recipients.
unfoldable pub deliver :
    Env → Event → Envelope → RecipientHandle → World → DispatchResponse → World × DispatchResponse
unfolding settle write_audit_safe recipient_event
deliver env base envelope h w resp =
    let e = recipient_event base dispatched h.channel h.user_id h.chat_id "" in
    let w1 = (write_audit_safe env w e).0 in
    let w2 = record w1 { trace = sent h envelope ∷ w1.trace; sends = suc w1.sends } in
    settle env base h (env.send w1.sends h envelope) w2 resp

unfoldable pub deliver_all :
    Env
    → Event
    → Envelope
    → List RecipientHandle
    → World
    → DispatchResponse
    → World × DispatchResponse
unfolding deliver
deliver_all env base envelope [] w resp = (w, resp)
deliver_all env base envelope (h ∷ hs) w resp =
    let (w', resp') = deliver env base envelope h w resp in
    deliver_all env base envelope hs w' resp'

-- The loop over the users that the resolver skipped.
unfoldable pub report_skipped :
    Env → Event → String → List ResolveError → World → DispatchResponse → World × DispatchResponse
unfolding write_audit_safe recipient_event
report_skipped env base channel [] w resp = (w, resp)
report_skipped env base channel (s ∷ ss) w resp =
    let e = recipient_event base denied channel s.user_id 0 s.code in
    report_skipped env base channel ss (write_audit_safe env w e).0 (record resp {
      skipped = suc resp.skipped;
      recipients = resp.recipients ++ report s.user_id "skipped" s.code 0 ∷ [];
    })

-- The guards on a decoded request, in their order: the code of the first that it breaks.
unfoldable pub check_request : DispatchOpts → DispatchRequest → Option String
check_request opts req =
    if req.envelope.schema_version == 0
    then some "missing_envelope_version"
    else if not (req.envelope.schema_version == 1)
    then some "unsupported_envelope_version"
    else if str_eq req.envelope.text ""
    then some "empty_envelope_text"
    else if opts.require_app_id && str_eq req.app_id ""
    then some "missing_app_id"
    else if opts.require_recipients && is_empty req.recipients
    then some "empty_recipients"
    else none

-- The code and the status for a resolver's error; a panic is answered by the recovery middleware.
unfoldable pub resolver_error : Failure → String × ℕ
resolver_error app_not_found = ("app_not_found", 400)
resolver_error empty_recipients = ("empty_recipients", 400)
resolver_error query_error = ("resolver_error", 500)
resolver_error index_panic = ("internal_error", 500)

abbrev pub empty_response : Event → DispatchResponse
empty_response base = record {
  message_id = base.message_id;
  delivered = 0;
  skipped = 0;
  failed = 0;
  recipients = [];
}

abbrev pub counted : DispatchRequest → ResolveResult → List (String × Detail)
counted req r =
    ("recipients_requested", num (length req.recipients))
    ∷ ("recipients_resolved", num (length r.recipients))
    ∷ ("recipients_skipped", num (length r.skipped))
    ∷ []

-- From the resolver's answer on. A panic leaves no denied event behind.
unfoldable pub finish :
    Env → Event → DispatchOpts → DispatchRequest → Resolved → World → World × Response
finish env base opts req (fails index_panic) w = (w, write_error 500 "internal_error")
finish env base opts req (fails f) w =
    let (code, status) = resolver_error f in deny env base w code status
finish env base opts req (found r) w =
    let e = record (event base validated) { details = counted req r } in
    let (w1, ok) = write_audit_safe env w e in
    let (w2, resp) = deliver_all env base req.envelope r.recipients w1 (empty_response base) in
    let (w3, resp') = report_skipped env base opts.default_channel r.skipped w2 resp in
    if ok
    then (w3, record { status = 200; body = report_body resp' })
    else (w1, write_error 500 "audit_unavailable")

-- `strat.Resolve` on the request, its grade cleared where the endpoint does not take one.
unfoldable pub resolve_for : RouteStrategy → DispatchOpts → DispatchRequest → Resolved
resolve_for strat opts req = strat.resolve (record {
  app_id = req.app_id;
  recipients = req.recipients;
  min_grade = if opts.allow_min_grade then req.min_grade else [];
  envelope = req.envelope;
})

-- From the decoding of the body on.
unfoldable pub handle_body :
    Env → RouteStrategy → DispatchOpts → Event → Option DispatchRequest → World → World × Response
handle_body env strat opts base none w = deny env base w "malformed_json" 400
handle_body env strat opts base (some req) w = elim (check_request opts req) [
  | some code ↦ deny env base w code 400
  | none ↦ finish env base opts req (resolve_for strat opts req) w
]

-- `runStrategyDispatch`, for the base event of the request and its body as `decodeStrict` returns
-- it; `none` is a body that does not decode.
unfoldable pub run_strategy_dispatch :
    Env → RouteStrategy → DispatchOpts → Event → Option DispatchRequest → World → World × Response
run_strategy_dispatch env strat opts base0 body w =
    let base = record base0 { route_strategy = strat.name } in
    let (w1, ok) = write_audit_safe env w (event base received) in
    if ok
    then handle_body env strat opts base body w1
    else (w1, write_error 500 "audit_unavailable")

-- The options of the four handlers.
abbrev pub direct_opts : DispatchOpts
direct_opts = record {
  require_app_id = true;
  require_recipients = true;
  allow_min_grade = false;
  default_channel = "supergroup";
}

abbrev pub direct_dm_opts : DispatchOpts
direct_dm_opts = record {
  require_app_id = false;
  require_recipients = true;
  allow_min_grade = false;
  default_channel = "dm";
}

abbrev pub topic_opts : DispatchOpts
topic_opts = record {
  require_app_id = true;
  require_recipients = false;
  allow_min_grade = true;
  default_channel = "supergroup";
}

abbrev pub broadcast_opts : DispatchOpts
broadcast_opts = record {
  require_app_id = false;
  require_recipients = false;
  allow_min_grade = true;
  default_channel = "general";
}

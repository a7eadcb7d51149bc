-- ===== src/Tests/Pipeline.antt =====
-- A message handler's run on concrete requests (internal/api/handlers/common.go).
use telegram_server.Prelude.{
  ℕ, ◌+◌, ◌≡◌, ◌↔◌, refl, String, Bool, true, [], ◌∷◌, none, some, ◌==◌, if◌then◌else◌,
}
use telegram_server.Audit.Event.{Event, received, denied}
use telegram_server.Dispatch.Collect.{RecipientHandle, ResolveResult}
use telegram_server.Dispatch.Resolvers.{Envelope, found}
use telegram_server.Api.Flow.{
  chat_not_found, SendResult, sent_as, send_fails, Env, wrote, event, write_error,
}
use telegram_server.Api.Pipeline.{
  DispatchRequest, RouteStrategy, check_request, run_strategy_dispatch, direct_opts, topic_opts,
}
use telegram_server.Api.Pipeline.Runs.{start, routed}
use telegram_server.Api.Pipeline.Order.{
  IsGated, IsAcceptable, send_gate, check_request-none_iff, refuses_unacceptable,
}

abbrev always : ℕ → Bool
always n = true

-- The second message of a run does not arrive.
abbrev second_fails : ℕ → RecipientHandle → Envelope → SendResult
second_fails n h e = if n == 1 then send_fails chat_not_found else sent_as 77

abbrev env : Env
env = record { audit = some always; send = second_fails }

abbrev base : Event
base = record {
  at = 0;
  trace_id = "trace";
  message_id = "message";
  stage = received;
  app_id = "app";
  capability = "";
  capability_set_ver = 1;
  endpoint = "/v1/messages/direct";
  route_strategy = "";
  delivery_channel = "";
  recipient_user_id = 0;
  recipient_chat_id = 0;
  error_code = "";
  details = [];
}

abbrev handle : ℕ → RecipientHandle
handle id = record { user_id = id; chat_id = id + 100; topic_id = 5; channel = "supergroup" }

abbrev resolved : ResolveResult
resolved = record {
  recipients = handle 1 ∷ handle 2 ∷ [];
  skipped = record { user_id = 3; code = "inactive_user" } ∷ [];
}

abbrev strat : RouteStrategy
strat = record { name = "direct"; resolve = λ q. found resolved }

abbrev request : String → DispatchRequest
request text = record {
  recipients = 1 ∷ 2 ∷ 3 ∷ [];
  app_id = "app";
  min_grade = [];
  envelope = record { text = text; schema_version = 1 };
}

send_gate_example :
    IsGated
      (run_strategy_dispatch env strat direct_opts base (some (request "hello")) start).0.trace
send_gate_example = send_gate env always strat direct_opts base (some (request "hello")) refl

check_request-none_iff_example :
    (check_request topic_opts (request "hello") ≡ none) ↔ IsAcceptable topic_opts (request "hello")
check_request-none_iff_example = check_request-none_iff topic_opts (request "hello")

refuses_unacceptable_example :
    (code : String) × (check_request direct_opts (request "") ≡ some code)
    × (run_strategy_dispatch env strat direct_opts base (some (request "")) start ≡ (
      record {
        trace =
            wrote (record (event (routed strat base) denied) { error_code = code })
            ∷ wrote (event (routed strat base) received)
            ∷ [];
        writes = 2;
        sends = 0;
      },
      write_error 400 code,
    ))
refuses_unacceptable_example =
    refuses_unacceptable env always strat direct_opts base (request "") refl refl refl
      (λ a. a.text refl)

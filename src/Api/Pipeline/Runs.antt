-- ===== src/Api/Pipeline/Runs.antt =====
-- Runs of internal/api/handlers/common.go whose first two audit events are stored.
use telegram_server.Prelude.{ℕ, suc, ◌≡◌, Bool, true, [], ◌∷◌, none, some}
use telegram_server.Audit.Event.{Event, received, validated}
use telegram_server.Dispatch.Collect.{ResolveResult}
use telegram_server.Dispatch.Resolvers.{found}
use telegram_server.Api.Flow.{
  Env, wrote, World, DispatchResponse, report_body, write_audit_safe, event,
}
use telegram_server.Api.Pipeline.{
  DispatchOpts, DispatchRequest, RouteStrategy, deliver_all, report_skipped, check_request,
  empty_response, finish, resolve_for, handle_body, run_strategy_dispatch, counted,
}

-- A write that the writer accepts.
pub write_stored :
    (env : Env) (ok : ℕ → Bool) (w : World) (e : Event)
    → env.audit ≡ some ok
    → ok w.writes ≡ true
    → write_audit_safe env w e
      ≡ (record w { trace = wrote e ∷ w.trace; writes = suc w.writes }, true)
unfolding write_audit_safe
write_stored env ok w e on h = rw (on, h)

abbrev pub start : World
start = record { trace = []; writes = 0; sends = 0 }

abbrev pub routed : RouteStrategy → Event → Event
routed strat base = record base { route_strategy = strat.name }

abbrev pub received_world : Event → World
received_world base = record { trace = wrote (event base received) ∷ []; writes = 1; sends = 0 }

abbrev pub validated_world : Event → DispatchRequest → ResolveResult → World
validated_world base req r = record {
  trace =
      wrote (record (event base validated) { details = counted req r })
      ∷ wrote (event base received)
      ∷ [];
  writes = 2;
  sends = 0;
}

-- The end of a run on a request that is not refused.
abbrev pub finished :
    Env → DispatchOpts → Event → DispatchRequest → ResolveResult → World × DispatchResponse
finished env opts base req r =
    let (w, resp) =
      deliver_all env base req.envelope r.recipients (validated_world base req r)
        (empty_response base) in
    report_skipped env base opts.default_channel r.skipped w resp

module _ (env : Env) (ok : ℕ → Bool) (on : env.audit ≡ some ok) (strat : RouteStrategy)
    (opts : DispatchOpts) (req : DispatchRequest) where
  pub finish_found :
      (base : Event) (r : ResolveResult)
      → ok 1 ≡ true
      → finish env base opts req (found r) (received_world base) ≡ (
        (finished env opts base req r).0,
        record { status = 200; body = report_body (finished env opts base req r).1 },
      )
  unfolding finish
  finish_found base r ok1 = rw (
      write_stored env ok (received_world base)
        (record (event base validated) { details = counted req r }) on ok1)

  pub run_found :
      (base : Event) (r : ResolveResult)
      → ok 0 ≡ true
      → ok 1 ≡ true
      → check_request opts req ≡ none
      → resolve_for strat opts req ≡ found r
      → let base' = routed strat base in
        run_strategy_dispatch env strat opts base (some req) start ≡ (
          (finished env opts base' req r).0,
          record { status = 200; body = report_body (finished env opts base' req r).1 },
        )
  unfolding run_strategy_dispatch handle_body
  run_found base r ok0 ok1 checked resolved =
      let first = write_stored env ok start (event (routed strat base) received) on ok0 in
      rw first (rw (checked, handle_body) (rw resolved (finish_found (routed strat base) r ok1)))

-- ===== src/Api/Pipeline/Order.antt =====
-- What a message handler does before it sends, and what it does with a request that it refuses.
use telegram_server.Prelude.{
  ℕ, suc, ◌≡◌, ◌≢◌, ◌↔◌, refl, sym, ap, ◌∙◌, ◌⊎◌, inl, inr, String, Bool, true, false, List, [],
  ◌∷◌, ◌++◌, Option, none, some, Bool-cases, Option-cases, eq_iff, arith,
}
use telegram_server.Audit.Event.{Event, received, validated, dispatched, denied}
use telegram_server.Dispatch.Collect.{RecipientHandle, ResolveError, ResolveResult}
use telegram_server.Dispatch.Resolvers.{
  Envelope, Resolved, found, fails, app_not_found, empty_recipients, query_error, index_panic,
}
use telegram_server.Api.Flow.{
  SendResult, sent_as, send_fails, Env, Effect, wrote, lost, sent, World, DispatchResponse,
  write_audit_safe, event, write_error, deny,
}
use telegram_server.Api.Pipeline.{
  DispatchOpts, DispatchRequest, RouteStrategy, settle, deliver, deliver_all, report_skipped,
  check_request, finish, resolve_for, handle_body, run_strategy_dispatch, resolver_error,
  empty_response, counted, recipient_event,
}
use telegram_server.Api.Pipeline.Accounts.Trail.{messages}
use telegram_server.Api.Pipeline.Runs.{write_stored, start, routed}

-- A later trace: the effects of the earlier one are its oldest.
record Extends (t t' : List Effect) : Type 0 where
  pre : List Effect
  split : t' ≡ pre ++ t

Extends-refl : (t : List Effect) → Extends t t
Extends-refl t = record { pre = []; split = refl }

append_assoc : (x y z : List Effect) → (x ++ y) ++ z ≡ x ++ (y ++ z)
append_assoc [] y z = refl
append_assoc (a ∷ x) y z = ap (λ l. a ∷ l) (append_assoc x y z)

Extends-trans : {a b c : List Effect} → Extends a b → Extends b c → Extends a c
Extends-trans {a} {b} {c} p q = record {
  pre = q.pre ++ p.pre;
  split = q.split ∙ ap (λ l. q.pre ++ l) p.split ∙ sym (append_assoc q.pre p.pre a);
}

Extends-step : {a b : List Effect} (e : Effect) → Extends a b → Extends a (e ∷ b)
Extends-step e p = record { pre = e ∷ p.pre; split = ap (λ l. e ∷ l) p.split }

module _ (env : Env) (base : Event) where
  write-Extends : (w : World) (e : Event) → Extends w.trace (write_audit_safe env w e).0.trace
  unfolding write_audit_safe
  write-Extends w e = elim (Option-cases env.audit) [
    | inl off ↦ rw off (Extends-refl w.trace)
    | inr (ok, on) ↦ elim (Bool-cases (ok w.writes)) [
      | inl o ↦ rw (on, o) (Extends-step (wrote e) (Extends-refl w.trace))
      | inr o ↦ rw (on, o) (Extends-step (lost e) (Extends-refl w.trace))
    ]
  ]

  settle-Extends :
      (h : RecipientHandle) (r : SendResult) (w : World) (resp : DispatchResponse)
      → Extends w.trace (settle env base h r w resp).0.trace
  unfolding settle
  settle-Extends h (sent_as id) w resp = write-Extends w _
  settle-Extends h (send_fails err) w resp = write-Extends w _

  deliver-Extends :
      (envelope : Envelope) (h : RecipientHandle) (w : World) (resp : DispatchResponse)
      → Extends w.trace (deliver env base envelope h w resp).0.trace
  unfolding deliver
  deliver-Extends envelope h w resp =
      let e = recipient_event base dispatched h.channel h.user_id h.chat_id "" in
      let w1 = (write_audit_safe env w e).0 in
      Extends-trans (Extends-step (sent h envelope) (write-Extends w e))
        (settle-Extends h (env.send w1.sends h envelope) _ resp)

  deliver_all-Extends :
      (envelope : Envelope) (hs : List RecipientHandle) (w : World) (resp : DispatchResponse)
      → Extends w.trace (deliver_all env base envelope hs w resp).0.trace
  unfolding deliver_all
  deliver_all-Extends envelope [] w resp = Extends-refl w.trace
  deliver_all-Extends envelope (h ∷ hs) w resp =
      let (w', resp') = deliver env base envelope h w resp in
      Extends-trans (deliver-Extends envelope h w resp) (deliver_all-Extends envelope hs w' resp')

  report_skipped-Extends :
      (channel : String) (ss : List ResolveError) (w : World) (resp : DispatchResponse)
      → Extends w.trace (report_skipped env base channel ss w resp).0.trace
  unfolding report_skipped
  report_skipped-Extends channel [] w resp = Extends-refl w.trace
  report_skipped-Extends channel (s ∷ ss) w resp =
      Extends-trans (write-Extends w (recipient_event base denied channel s.user_id 0 s.code))
        (report_skipped-Extends channel ss _ _)

-- A trace that sends nothing, or one whose two oldest effects are a stored received event and a
-- stored validated event, in that order.
unfoldable pub IsGated : List Effect → Type 0
IsGated t =
    (messages t ≡ 0)
    ⊎ ((pre : List Effect) × (v : Event) × (r : Event) × (t ≡ pre ++ wrote v ∷ wrote r ∷ [])
        × (v.stage ≡ validated)
        × (r.stage ≡ received))

messages_write :
    (env : Env) (w : World) (e : Event)
    → messages (write_audit_safe env w e).0.trace ≡ messages w.trace
unfolding write_audit_safe
messages_write env w e = ground arith

messages-deny :
    (env : Env) (base : Event) (w : World) (code : String) (status : ℕ)
    → messages (deny env base w code status).0.trace ≡ messages w.trace
unfolding deny
messages-deny env base w code status = messages_write env w _

abbrev first_world : Event → World
first_world base = record { trace = wrote (event base received) ∷ []; writes = 1; sends = 0 }

lost_gate : (base : Event) → IsGated (lost (event base received) ∷ [])
unfolding IsGated
lost_gate base = inl refl

module _ (env : Env) (ok : ℕ → Bool) (on : env.audit ≡ some ok) where
  write_lost :
      (w : World) (e : Event)
      → ok w.writes ≡ false
      → write_audit_safe env w e
        ≡ (record w { trace = lost e ∷ w.trace; writes = suc w.writes }, false)
  unfolding write_audit_safe
  write_lost w e h = rw (on, h)

  finish_found-IsGated :
      (opts : DispatchOpts) (base : Event) (req : DispatchRequest) (r : ResolveResult)
      → IsGated (finish env base opts req (found r) (first_world base)).0.trace
  unfolding finish IsGated event
  finish_found-IsGated opts base req r =
      let e = record (event base validated) { details = counted req r } in
      elim (Bool-cases (ok 1)) [
        | inl o ↦ rw (write_stored env ok (first_world base) e on o) (
            let w : World = record {
              trace = wrote e ∷ wrote (event base received) ∷ [];
              writes = 2;
              sends = 0;
            } in
            let a =
              deliver_all-Extends env base req.envelope r.recipients w (empty_response base) in
            let (w', resp) =
              deliver_all env base req.envelope r.recipients w (empty_response base) in
            let b = report_skipped-Extends env base opts.default_channel r.skipped w' resp in
            inr (
              b.pre ++ a.pre,
              e,
              event base received,
              b.split ∙ ap (λ l. b.pre ++ l) a.split ∙ sym (append_assoc b.pre a.pre _),
              refl,
              refl,
            ))
        | inr o ↦ rw (write_lost (first_world base) e o) (inl refl)
      ]

  finish-IsGated :
      (opts : DispatchOpts) (base : Event) (req : DispatchRequest) (res : Resolved)
      → IsGated (finish env base opts req res (first_world base)).0.trace
  unfolding finish IsGated resolver_error
  finish-IsGated opts base req (found r) = finish_found-IsGated opts base req r
  finish-IsGated opts base req (fails app_not_found) =
      inl (messages-deny env base (first_world base) _ _)
  finish-IsGated opts base req (fails empty_recipients) =
      inl (messages-deny env base (first_world base) _ _)
  finish-IsGated opts base req (fails query_error) =
      inl (messages-deny env base (first_world base) _ _)
  finish-IsGated opts base req (fails index_panic) = inl refl

handle_body-IsGated :
    (env : Env) (ok : ℕ → Bool) (strat : RouteStrategy) (opts : DispatchOpts) (base : Event)
    (body : Option DispatchRequest)
    → env.audit ≡ some ok
    → IsGated (handle_body env strat opts base body (first_world base)).0.trace
unfolding handle_body IsGated
handle_body-IsGated env ok strat opts base none on = inl (messages-deny env base _ _ _)
handle_body-IsGated env ok strat opts base (some req) on =
    elim (Option-cases (check_request opts req)) [
      | inl c ↦
          rw (c, handle_body) (finish-IsGated env ok on opts base req (resolve_for strat opts req))
      | inr (code, c) ↦
          rw (c, handle_body) (inl (messages-deny env base (first_world base) code 400))
    ]

-- With an audit writer, whether or not its writes succeed, a message handler gives the dispatcher
-- no message, or the two oldest effects of its run are a stored received event and then a stored
-- validated event.
pub send_gate :
    (env : Env) (ok : ℕ → Bool) (strat : RouteStrategy) (opts : DispatchOpts) (base : Event)
    (body : Option DispatchRequest)
    → env.audit ≡ some ok
    → IsGated (run_strategy_dispatch env strat opts base body start).0.trace
unfolding run_strategy_dispatch
send_gate env ok strat opts base0 body on =
    let base = routed strat base0 in
    elim (Bool-cases (ok 0)) [
      | inl o ↦
          rw (write_stored env ok start (event base received) on o)
            (handle_body-IsGated env ok strat opts base body on)
      | inr o ↦ rw (write_lost env ok on start (event base received) o) (lost_gate base)
    ]

-- A request that the handlers take, by what their API documents.
pub record IsAcceptable (opts : DispatchOpts) (req : DispatchRequest) : Type 0 where
  pub version : req.envelope.schema_version ≡ 1
  pub text : req.envelope.text ≢ ""
  pub app : (opts.require_app_id ≡ false) ⊎ (req.app_id ≢ "")
  pub users : (opts.require_recipients ≡ false) ⊎ (req.recipients ≢ [])

-- The guards pass a request exactly when its envelope has version 1 and a text, and it has an app
-- id and recipients where the endpoint requires them.
pub check_request-none_iff :
    (opts : DispatchOpts) (req : DispatchRequest)
    → (check_request opts req ≡ none) ↔ IsAcceptable opts req
unfolding check_request
check_request-none_iff opts req = grind (arith, eq_iff req.envelope.text "", eq_iff req.app_id "")

run_refuses :
    (env : Env) (ok : ℕ → Bool) (strat : RouteStrategy) (opts : DispatchOpts) (base : Event)
    (req : DispatchRequest) (code : String)
    → env.audit ≡ some ok
    → ok 0 ≡ true
    → ok 1 ≡ true
    → check_request opts req ≡ some code
    → run_strategy_dispatch env strat opts base (some req) start ≡ (
      record {
        trace =
            wrote (record (event (routed strat base) denied) { error_code = code })
            ∷ wrote (event (routed strat base) received)
            ∷ [];
        writes = 2;
        sends = 0;
      },
      write_error 400 code,
    )
unfolding run_strategy_dispatch handle_body deny
run_refuses env ok strat opts base0 req code on ok0 ok1 refused =
    let base = routed strat base0 in
    rw (write_stored env ok start (event base received) on ok0) (
      rw (refused, handle_body)
        (rw
          (write_stored env ok (first_world base) (record (event base denied) { error_code = code })
            on ok1)
          refl))

-- A decoded request that is not acceptable, with both audit events stored, is answered with status
-- 400 and some guard's code; its run is one received event and one denied event with that code,
-- whatever the resolver and the dispatcher would do.
pub refuses_unacceptable :
    (env : Env) (ok : ℕ → Bool) (strat : RouteStrategy) (opts : DispatchOpts) (base : Event)
    (req : DispatchRequest)
    → env.audit ≡ some ok
    → ok 0 ≡ true
    → ok 1 ≡ true
    → ¬ IsAcceptable opts req
    → (code : String) × (check_request opts req ≡ some code)
      × (run_strategy_dispatch env strat opts base (some req) start ≡ (
        record {
          trace =
              wrote (record (event (routed strat base) denied) { error_code = code })
              ∷ wrote (event (routed strat base) received)
              ∷ [];
          writes = 2;
          sends = 0;
        },
        write_error 400 code,
      ))
refuses_unacceptable env ok strat opts base req on ok0 ok1 bad =
    elim (Option-cases (check_request opts req)) [
      | inl c ↦ absurd (bad ((check_request-none_iff opts req).0 c))
      | inr (code, c) ↦ (code, c, run_refuses env ok strat opts base req code on ok0 ok1 c)
    ]

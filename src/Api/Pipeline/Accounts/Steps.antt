-- ===== src/Api/Pipeline/Accounts/Steps.antt =====
-- What the two loops of internal/api/handlers/common.go add for each recipient and skipped user.
use mathlib.Core.Path.{subst}
use mathlib.Core.List.{append-nil, append_assoc}
use telegram_server.Prelude.{
  ℕ, suc, ◌+◌, ◌≡◌, refl, sym, ap, ◌∙◌, String, Bool, List, [], ◌∷◌, ◌++◌, some, arith,
}
use telegram_server.Audit.Event.{Stage, Event, dispatched, delivered, denied, deferred}
use telegram_server.Dispatch.Collect.{RecipientHandle, ResolveError}
use telegram_server.Dispatch.Resolvers.{Envelope}
use telegram_server.Api.Flow.{
  SendError, chat_not_found, bot_not_admin, rate_limited, telegram_auth, transient, other,
  SendResult, sent_as, send_fails, Env, sent, World, Report, DispatchResponse, write_audit_safe,
  event,
}
use telegram_server.Api.Pipeline.{
  settle, deliver, deliver_all, report_skipped, recipient_event, report, classify_dispatch_err,
}
use telegram_server.Api.Pipeline.Accounts.Trail.{
  recorded, About, code_of, Settled, Deliveries, all_delivered, delivery, Denials, all_denied,
  denial, count,
}

classify_dispatch_err-code_of : (err : SendError) → classify_dispatch_err err ≡ code_of err
unfolding classify_dispatch_err
classify_dispatch_err-code_of chat_not_found = refl
classify_dispatch_err-code_of bot_not_admin = refl
classify_dispatch_err-code_of rate_limited = refl
classify_dispatch_err-code_of telegram_auth = refl
classify_dispatch_err-code_of transient = refl
classify_dispatch_err-code_of other = refl

-- How a response grows by entries.
pub record Grows (resp resp' : DispatchResponse) (reps : List Report) : Type 0 where
  pub listed : resp'.recipients ≡ resp.recipients ++ reps
  pub arrived : resp'.delivered ≡ resp.delivered + count "delivered" reps
  pub put_off : resp'.failed ≡ resp.failed + count "failed" reps
  pub skips : resp'.skipped ≡ resp.skipped + count "skipped" reps
  pub message : resp'.message_id ≡ resp.message_id

Grows-nil : (resp : DispatchResponse) → Grows resp resp []
Grows-nil resp = record {
  listed = sym (append-nil resp.recipients);
  arrived = omega arith;
  put_off = omega arith;
  skips = omega arith;
  message = refl;
}

Grows-cons :
    (a b c : DispatchResponse) (rep : Report) (reps : List Report)
    → Grows a b (rep ∷ [])
    → Grows b c reps
    → Grows a c (rep ∷ reps)
Grows-cons a b c rep reps g h = record {
  listed = h.listed ∙ ap (λ l. l ++ reps) g.listed ∙ append_assoc a.recipients (rep ∷ []) reps;
  arrived = omega (arith, g.arrived, h.arrived);
  put_off = omega (arith, g.put_off, h.put_off);
  skips = omega (arith, g.skips, h.skips);
  message = h.message ∙ g.message;
}

module _ (env : Env) (ok : ℕ → Bool) (on : env.audit ≡ some ok) (base : Event) where
  -- The world after a write.
  abbrev pub noted : World → Event → World
  noted w e = record {
    trace = recorded ok w.writes e ∷ w.trace;
    writes = suc w.writes;
    sends = w.sends;
  }

  write-noted : (w : World) (e : Event) → (write_audit_safe env w e).0 ≡ noted w e
  unfolding write_audit_safe
  write-noted w e = ground (arith, on)

  recipient_event-About :
      (s : Stage) (channel : String) (user chat : ℕ) (code : String)
      → About base s channel user chat code (recipient_event base s channel user chat code)
  unfolding recipient_event event
  recipient_event-About s channel user chat code = record {
    stage = refl;
    trace = refl;
    message = refl;
    app = refl;
    route = refl;
    channel = refl;
    user = refl;
    chat = refl;
    code = refl;
  }

  -- What `settle` adds.
  abbrev Settles : RecipientHandle → SendResult → World → DispatchResponse → Type 0
  Settles h r w resp =
      let (w', resp') = settle env base h r w resp in
      (e : Event) × (rep : Report) × Settled base h r e rep
      × (w' ≡ noted w e)
      × Grows resp resp' (rep ∷ [])

  settle-Settles :
      (h : RecipientHandle) (r : SendResult) (w : World) (resp : DispatchResponse)
      → Settles h r w resp
  unfolding settle
  settle-Settles h (sent_as id) w resp = (
    recipient_event base delivered h.channel h.user_id h.chat_id "",
    report h.user_id "delivered" "" id,
    (recipient_event-About delivered h.channel h.user_id h.chat_id "", refl),
    write-noted w (recipient_event base delivered h.channel h.user_id h.chat_id ""),
    record {
      listed = refl;
      arrived = omega arith;
      put_off = omega arith;
      skips = omega arith;
      message = refl;
    },
  )
  settle-Settles h (send_fails err) w resp = rw (classify_dispatch_err-code_of err) (
    recipient_event base deferred h.channel h.user_id h.chat_id (code_of err),
    report h.user_id "failed" (code_of err) 0,
    (recipient_event-About deferred h.channel h.user_id h.chat_id (code_of err), refl),
    write-noted w (recipient_event base deferred h.channel h.user_id h.chat_id (code_of err)),
    record {
      listed = refl;
      arrived = omega arith;
      put_off = omega arith;
      skips = omega arith;
      message = refl;
    },
  )

  -- What a part of a run adds for the recipients that it delivers to.
  abbrev pub Delivers :
      Envelope → List RecipientHandle → World → DispatchResponse → World × DispatchResponse → Type 0
  Delivers envelope hs w resp (w', resp') =
      (reps : List Report) × Deliveries env ok base envelope w.writes w.sends w.trace hs w'.writes
        w'.trace reps
      × Grows resp resp' reps

  asked_world : Envelope → RecipientHandle → World → World
  asked_world envelope h w =
      let w1 = noted w (recipient_event base dispatched h.channel h.user_id h.chat_id "") in
      record w1 { trace = sent h envelope ∷ w1.trace; sends = suc w1.sends }

  deliver-settle :
      (envelope : Envelope) (h : RecipientHandle) (w : World) (resp : DispatchResponse)
      → deliver env base envelope h w resp
        ≡ settle env base h (env.send w.sends h envelope) (asked_world envelope h w) resp
  unfolding deliver asked_world
  deliver-settle envelope h w resp =
      rw (write-noted w (recipient_event base dispatched h.channel h.user_id h.chat_id "")) refl

  Delivers-cons :
      (envelope : Envelope) (h : RecipientHandle) (hs : List RecipientHandle) (w : World)
      (resp : DispatchResponse) (out : World × DispatchResponse)
      → let (w', resp') =
          settle env base h (env.send w.sends h envelope) (asked_world envelope h w) resp in
        Delivers envelope hs w' resp' out → Delivers envelope (h ∷ hs) w resp out
  unfolding asked_world
  Delivers-cons envelope h hs w resp out later =
      let x = settle env base h (env.send w.sends h envelope) (asked_world envelope h w) resp in
      let (e, rep, settled, stepped, grows) =
        settle-Settles h (env.send w.sends h envelope) (asked_world envelope h w) resp in
      let (reps, rest, grown) = subst (λ v. Delivers envelope hs v x.1 out) stepped later in
      (
        rep ∷ reps,
        delivery (recipient_event base dispatched h.channel h.user_id h.chat_id "") e
            (recipient_event-About dispatched h.channel h.user_id h.chat_id "") settled rest,
        Grows-cons resp x.1 out.1 rep reps grows grown,
      )

  pub deliver_all-Delivers :
      (envelope : Envelope) (hs : List RecipientHandle) (w : World) (resp : DispatchResponse)
      → Delivers envelope hs w resp (deliver_all env base envelope hs w resp)
  unfolding deliver_all
  deliver_all-Delivers envelope [] w resp = ([], all_delivered, Grows-nil resp)
  deliver_all-Delivers envelope (h ∷ hs) w resp =
      let x = settle env base h (env.send w.sends h envelope) (asked_world envelope h w) resp in
      subst (λ y. Delivers envelope (h ∷ hs) w resp (deliver_all env base envelope hs y.0 y.1))
        (sym (deliver-settle envelope h w resp))
        (Delivers-cons envelope h hs w resp (deliver_all env base envelope hs x.0 x.1)
          (deliver_all-Delivers envelope hs x.0 x.1))

  abbrev pub Denies :
      String → List ResolveError → World → DispatchResponse → World × DispatchResponse → Type 0
  Denies channel ss w resp (w', resp') =
      (reps : List Report) × Denials ok base channel w.writes w.trace ss w'.trace reps
      × Grows resp resp' reps

  pub report_skipped-Denies :
      (channel : String) (ss : List ResolveError) (w : World) (resp : DispatchResponse)
      → Denies channel ss w resp (report_skipped env base channel ss w resp)
  unfolding report_skipped
  report_skipped-Denies channel [] w resp = ([], all_denied, Grows-nil resp)
  report_skipped-Denies channel (s ∷ ss) w resp =
      let e = recipient_event base denied channel s.user_id 0 s.code in
      let rep = report s.user_id "skipped" s.code 0 in
      let next : DispatchResponse = record resp {
        skipped = suc resp.skipped;
        recipients = resp.recipients ++ rep ∷ [];
      } in
      let one : Grows resp next (rep ∷ []) = record {
        listed = refl;
        arrived = omega arith;
        put_off = omega arith;
        skips = omega arith;
        message = refl;
      } in
      let (reps, rest, grown) = report_skipped-Denies channel ss (noted w e) next in
      subst (λ v. Denies channel (s ∷ ss) w resp (report_skipped env base channel ss v next))
        (sym (write-noted w e))
        (
          rep ∷ reps,
          denial e (recipient_event-About denied channel s.user_id 0 s.code) rest,
          Grows-cons resp next (report_skipped env base channel ss (noted w e) next).1 rep reps one
              grown,
        )

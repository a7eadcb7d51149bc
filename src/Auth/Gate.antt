-- ===== src/Auth/Gate.antt =====
-- The middleware of internal/api/middleware/auth.go and ratelimit.go, and internal/auth's
-- capability check, in the order in which internal/api/server.go puts them before a handler. The
-- resolver of tokens, the handler and the arithmetic of float64 are arguments; the limiter is the
-- one of Ratelimit/Limiter.antt.
pub mod Admission
use telegram_server.Prelude.{
  ℕ, ◌/◌, String, Bool, true, false, not, ◌||◌, List, [], ◌∷◌, Option, none, some, Bytes, codes,
  bytes_eq, ltb, if◌then◌else◌,
}
use Prim.Native.String.{◌++◌ as str_append}
use telegram_server.Audit.Event.{Event, denied}
use telegram_server.Dispatch.Grade.{trim_space}
use telegram_server.Ratelimit.Bucket.{Float64, Policy, Decision}
use telegram_server.Ratelimit.Limiter.{Buckets, allow}
use telegram_server.Auth.Bearer.{after_prefix}
use telegram_server.Auth.KeyStore.{
  RequesterIdentity, Answer, identified, bearer_malformed, key_not_found, lookup_failed,
  has_capability,
}
use telegram_server.Api.Flow.{Env, World, Response, write_audit_safe, write_error}

pub record HttpRequest : Type 0 where
  pub trace_id : String
  pub path : String
  pub remote_addr : String
  pub authorization : Bytes

-- The effects so far and the limiter's buckets.
pub record Site : Type 0 where
  pub world : World
  pub buckets : Buckets

abbrev pub Handler : Type 0
Handler = RequesterIdentity → Site → Site × Response

-- The event of a denial, with every field that is left out empty.
abbrev pub denied_event : HttpRequest → String → String → String → Event
denied_event r app capability code = record {
  at = 0;
  trace_id = r.trace_id;
  message_id = "";
  stage = denied;
  app_id = app;
  capability = capability;
  capability_set_ver = 0;
  endpoint = r.path;
  route_strategy = "";
  delivery_channel = "";
  recipient_user_id = 0;
  recipient_chat_id = 0;
  error_code = code;
  details = [];
}

-- `denyAndAudit`, and the denial in `RequireCapability`.
unfoldable pub deny_and_audit :
    Env → HttpRequest → String → String → String → ℕ → Site → Site × Response
unfolding write_audit_safe write_error
deny_and_audit env r app capability code status s =
    let w = (write_audit_safe env s.world (denied_event r app capability code)).0 in
    (record s { world = w }, write_error status code)

-- `RequireCapability`, behind an identity.
unfoldable pub require_capability : Env → HttpRequest → String → Handler → Handler
unfolding deny_and_audit has_capability
require_capability env r c next id s =
    if has_capability c id.capabilities
    then next id s
    else deny_and_audit env r id.app_id c "forbidden" 403 s

-- `RateLimit`, behind an identity; without a limiter everything passes. The answer's Retry-After
-- header is left out.
unfoldable pub rate_limit : Float64 → Option (String → Policy) → ℕ → Handler → Handler
unfolding allow write_error
rate_limit float none now next id s = next id s
rate_limit float (some policy_fn) now next id s =
    let (m, d) = allow float policy_fn now (str_append "app:" id.app_id) s.buckets in
    let s' = record s { buckets = m } in
    if d.allowed then next id s' else (s', write_error 429 "rate_limited")

-- `Auth` from the resolver's answer on.
unfoldable pub answered : Env → HttpRequest → Answer → Handler → Site → Site × Response
unfolding deny_and_audit
answered env r (identified id) next s = next id s
answered env r bearer_malformed next s = deny_and_audit env r "" "" "malformed_bearer" 401 s
answered env r key_not_found next s = deny_and_audit env r "" "" "unknown_bearer" 401 s
answered env r lookup_failed next s = deny_and_audit env r "" "" "invalid_bearer" 401 s

-- `Auth` on the token that follows "Bearer ", if anything does.
unfoldable pub presented :
    Env → (Bytes → Answer) → HttpRequest → Option Bytes → Handler → Site → Site × Response
unfolding answered deny_and_audit trim_space bytes_eq
presented env resolver r none next s = deny_and_audit env r "" "" "missing_bearer" 401 s
presented env resolver r (some token) next s =
    if bytes_eq (trim_space token) []
    then deny_and_audit env r "" "" "empty_bearer" 401 s
    else answered env r (resolver (trim_space token)) next s

-- `Auth`.
unfoldable pub auth : Env → (Bytes → Answer) → HttpRequest → Handler → Site → Site × Response
unfolding presented after_prefix
auth env resolver r next s =
    presented env resolver r (after_prefix (codes "Bearer ") r.authorization) next s

-- A route of `NewRouter` under /admin or /v1.
unfoldable pub route :
    Env
    → Float64
    → (Bytes → Answer)
    → Option (String → Policy)
    → ℕ
    → String
    → HttpRequest
    → Handler
    → Site
    → Site × Response
unfolding auth rate_limit require_capability
route env float resolver limit now capability r handler s =
    auth env resolver r (rate_limit float limit now (require_capability env r capability handler)) s

-- The capability that `NewRouter` asks for at each route.
pub data Endpoint : Type 0 where
  post_apps patch_apps delete_apps purge_apps patch_users subscribe unsubscribe : Endpoint
  audit_search messages_direct messages_topic messages_broadcast messages_direct_dm : Endpoint

unfoldable pub capability_of : Endpoint → String
capability_of post_apps = "apps.register"
capability_of patch_apps = "apps.register"
capability_of delete_apps = "apps.register"
capability_of purge_apps = "apps.register"
capability_of patch_users = "users.promote"
capability_of subscribe = "apps.register"
capability_of unsubscribe = "apps.register"
capability_of audit_search = "audit.search"
capability_of messages_direct = "messages.direct.send"
capability_of messages_topic = "messages.topic.send"
capability_of messages_broadcast = "messages.broadcast.send"
capability_of messages_direct_dm = "messages.direct.dm"

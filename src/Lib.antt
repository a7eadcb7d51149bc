-- ===== src/Lib.antt =====
-- The relay server: a model of its core and the theorems that make it correct.
--
-- The server takes messages from registered apps over HTTP and relays them to Telegram users. A
-- request passes the middleware, which resolves its bearer token to an app, meters it and checks a
-- capability; a handler then writes audit events, resolves the recipients, and gives the dispatcher
-- one message for each. Every audit event is a row of a hash chain. An admin API writes the apps, the
-- users' grades and the subscriptions; a bot registers users, links each to a group of its own and
-- keeps a topic there for each subscribed app. An operator's UI has its own sessions and issues
-- the apps' keys, and a stub stands for Telegram in tests.
--
-- Files, and the sources they model:
--   Prelude, Prelude/*     shared tests on numbers, lists, byte strings and maps; no source
--   Audit/Event, Chain     internal/audit/event.go and chain.go: Stage, Event, VerifyChain
--   Audit/Writer           internal/audit/writer.go: PgWriter.Write and its INSERT as `write`
--   Audit/Evidence         what an unchanged newest hash proves about the rows
--   Ratelimit/Bucket       internal/ratelimit/limiter.go: the refill and spending of one bucket
--   Ratelimit/Limiter      bucketLimiter.Allow as `allow`; DispatchLimiter.Allow of
--                          internal/dispatch/telegram/dispatch_limiter.go as `allow_dispatch`
--   Dispatch/Grade         gradeRank, normalizeGrade, maxGrade of
--                          internal/dispatch/strategy/topic.go
--   Dispatch/Tables        the tables and joins that the resolvers read
--   Dispatch/Collect       the loops that gather recipients, with and without a seen-set
--   Dispatch/Resolvers     the strategies in internal/dispatch/strategy
--   Api/Flow, Pipeline     internal/api/handlers/common.go: auditFlow, runStrategyDispatch; the
--                          options of the four messages_*.go handlers
--   Auth/Bearer, KeyStore  internal/auth/store.go: ParseBearer, KeyStore.Resolve
--   Auth/Secret            internal/auth/argon2.go: encodeArgon2id, VerifyAPIKey
--   Auth/Gate              internal/api/middleware/auth.go and ratelimit.go, in the order of
--                          internal/api/server.go
--   Adminui/Session        internal/adminui/session.go: sign, verify, Revoke
--   Adminui/Keys           internal/adminui/keystore.go: KeyStore
--   Adminui/Keys/Pages     the handlers of internal/adminui/keys.go that change keys
--   Adminui/Login          loginLimiter and globalBackoff of the same file
--   Telegram               internal/dispatch/telegram/dispatcher.go: Send, classify
--   Registry               internal/registry/user.go: UserStore
--   Registry/Supergroups   internal/registry/personal_supergroup.go: SupergroupStore
--   Registry/Topics        internal/registry/user_topics.go: UserTopicStore
--   Database               the tables that the admin API and the bot write
--   Admin/Tx               the steps of an admin handler: statements in a transaction or on the
--                          pool, audit events, early returns
--   Admin/Apps, Members    internal/api/handlers/admin_apps.go, admin_users.go and
--                          admin_subscriptions.go
--   Admin/Api, Outcome     one admin request, and how it ends
--   Admin/Privilege        what admin requests cannot grant
--   Bot, Bot/Text          updates, Telegram's calls and answers, audit writes; strings functions
--   Bot/Startgroup, Promote, Intrusion, Start, Apps
--                          the handlers of internal/bot/handlers
--   Bot/Provisioner        internal/bot/topic_provisioner.go
--   Bot/Poller             internal/bot/poller.go over the handlers of cmd/server/main.go
--   Bot/Links, Bans        how users get groups, and whom the bot bans
--   Hook                   internal/hook/chain.go and builtin/audit_hook.go
--   Mocktelegram           internal/mocktelegram/server.go
--   Tests                  the theorems at concrete inputs
--
-- State is passed explicitly: a handler's run is a trace of audit writes and sends, newest first,
-- together with counters by which the writer and the dispatcher, which are parameters, answer. All
-- loops run over finite lists, so no fuel is used. Mutexes and the writer's advisory lock make
-- operations sequential, and so they are here; requests to the admin API, operations on keys and
-- updates to the bot also run one at a time.
--
-- Bounds: times are natural numbers of nanoseconds (whole seconds where the source truncates), ids
-- natural numbers. Integers do not wrap around. Text that the source takes apart is a list of
-- bytes, or in the bot of letters, and letter case and white space are those of ASCII. Ids of
-- Telegram's groups, which are negative, are only compared, and so natural numbers too.
--
-- Parameters: the arithmetic of float64 on bit patterns, SHA-256, the SQL function
-- audit_chain_payload, argon2, base64, fmt.Sscanf, HMAC, hex, the decimal format of integers,
-- random tokens and secrets, the answers of Telegram's API by their number, and the bot client.
--
-- Not modelled: the audit search of the admin API, the other pages of the operator's UI,
-- configuration and logging. Statements of the admin API and of the operator's key store may fail
-- one by one, by their number in the request, and those of the admin API may also lose their
-- reply; those of the server's key store, the registry and the bot do not fail here. JSON is taken
-- as decoded. How many calls a bucket grants in a window of time is not stated: it hangs on the
-- rounding of float64.
mod Prelude
pub mod Audit
pub mod Ratelimit
pub mod Dispatch
pub mod Api
pub mod Auth
pub mod Adminui
pub mod Telegram
pub mod Registry
pub mod Database
pub mod Admin
pub mod Bot
pub mod Hook
pub mod Mocktelegram
mod Tests

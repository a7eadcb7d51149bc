-- ===== src/Ratelimit/Limiter.antt =====
-- internal/ratelimit/limiter.go, request_limiter.go and internal/dispatch/telegram/dispatch_limiter.go. A
-- limiter's state is its map of buckets; the clock is an argument. Each `Allow` runs under the
-- limiter's mutex, so calls take effect one after another.
use telegram_server.Prelude.{
  ℕ, String, true, ◌||◌, List, [], none, some, if◌then◌else◌, lookup, insert,
}
use telegram_server.Ratelimit.Bucket.{Float64, Policy, TokenBucket, Decision, fresh, take}

abbrev pub Buckets : Type 0
Buckets = List (String × TokenBucket)

-- The policy function of `NewRequestLimiter`.
unfoldable pub request_policy : Policy → List (String × Policy) → String → Policy
request_policy default_policy overrides key = elim (lookup key overrides) [
  | some p ↦ p
  | none ↦ default_policy
]

-- `b, ok := l.buckets[key]; if !ok { ... }`.
unfoldable pub bucket_for : Policy → ℕ → String → Buckets → TokenBucket
bucket_for p now key m = elim (lookup key m) [ some b ↦ b | none ↦ fresh p now ]

unfoldable pub take_at : Float64 → Policy → ℕ → String → Buckets → Buckets × Decision
unfolding bucket_for
take_at float p now key m =
    let (b, d) = take float p now (bucket_for p now key m) in (insert key b m, d)

-- `bucketLimiter.Allow`: a policy without a rate or a burst lets everything pass.
unfoldable pub allow : Float64 → (String → Policy) → ℕ → String → Buckets → Buckets × Decision
allow float policy_fn now key m =
    let p = policy_fn key in
    if float.le p.rate_per_sec (float.constant 0) || float.le p.burst (float.constant 0)
    then (m, record { allowed = true; retry_after = 0 })
    else take_at float p now key m

-- `DispatchLimiter`: one bucket for all chats, then one for the chat.
pub record DispatchLimiter : Type 0 where
  pub global : TokenBucket
  pub per : Buckets

abbrev pub global_policy : Float64 → Policy
global_policy float = record { rate_per_sec = float.constant 25; burst = float.constant 30 }

abbrev pub per_chat_policy : Float64 → Policy
per_chat_policy float = record { rate_per_sec = float.constant 1; burst = float.constant 2 }

unfoldable pub new_dispatch_limiter : Float64 → ℕ → DispatchLimiter
new_dispatch_limiter float now = record { global = fresh (global_policy float) now; per = [] }

-- `DispatchLimiter.Allow`: a call that the global bucket denies leaves the chats' buckets alone.
unfoldable pub allow_dispatch : Float64 → ℕ → String → DispatchLimiter → DispatchLimiter × Decision
allow_dispatch float now key l =
    let (g, d) = take float (global_policy float) now l.global in
    let (m, d') = take_at float (per_chat_policy float) now key l.per in
    if d.allowed then (record { global = g; per = m }, d') else (record l { global = g }, d)

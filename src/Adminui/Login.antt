-- ===== src/Adminui/Login.antt =====
-- `loginLimiter` and `globalBackoff` of internal/adminui/session.go. Times are in nanoseconds, not
-- running backwards; the per-IP bucket counts in units of which 60,000,000,000 are one token, so
-- that a nanosecond refills five, in place of the source's floating-point numbers. The map of
-- buckets is a function; both run under a mutex, so calls take effect one after another.
pub mod Sweep
pub mod Backoff
use telegram_server.Prelude.{
  ℕ, suc, ◌+◌, ◌-◌, ◌*◌, String, Bool, true, false, not, ◌&&◌, Option, none, some, str_eq, ltb, leb,
  ◌==◌, if◌then◌else◌,
}

abbrev pub token : ℕ
token = 60000000000

abbrev pub login_limit : ℕ
login_limit = 300000000000

pub record LoginBucket : Type 0 where
  pub tokens : ℕ
  pub last_fill : ℕ

abbrev pub Buckets : Type 0
Buckets = String → Option LoginBucket

abbrev pub refilled : ℕ → LoginBucket → ℕ
refilled now b = b.tokens + 5 * (now - b.last_fill)

-- The loop of `loginLimiter.Allow` that drops the other keys' full buckets.
unfoldable pub sweep_bucket : ℕ → Option LoginBucket → Option LoginBucket
sweep_bucket now none = none
sweep_bucket now (some b) = if leb login_limit (refilled now b) then none else some b

unfoldable pub sweep_buckets : ℕ → String → Buckets → Buckets
unfolding sweep_bucket
sweep_buckets now key m k = if str_eq k key then m k else sweep_bucket now (m k)

-- The bucket as `Allow` finds it: new, or filled up to now.
unfoldable pub current : ℕ → Option LoginBucket → LoginBucket
current now none = record { tokens = login_limit; last_fill = now }
current now (some b) = record {
  tokens = if leb login_limit (refilled now b) then login_limit else refilled now b;
  last_fill = now;
}

unfoldable pub spend : LoginBucket → LoginBucket × Bool
spend b = if ltb b.tokens token then (b, false) else (record b { tokens = b.tokens - token }, true)

unfoldable pub put : String → LoginBucket → Buckets → Buckets
put key b m k = if str_eq k key then some b else m k

-- `loginLimiter.Allow` without its sweep.
unfoldable pub allow_unswept : ℕ → String → Buckets → Buckets × Bool
unfolding current spend put
allow_unswept now key m = let (b, ok) = spend (current now (m key)) in (put key b m, ok)

-- `loginLimiter.Allow`.
unfoldable pub allow_login : ℕ → String → Buckets → Buckets × Bool
unfolding sweep_buckets allow_unswept
allow_login now key m = allow_unswept now key (sweep_buckets now key m)

abbrev pub no_buckets : Buckets
no_buckets k = none

-- The zero `time.Time` of `lastFailure` is `none`; that of `blockedUntil` is 0.
pub record GlobalBackoff : Type 0 where
  pub failures : ℕ
  pub last_failure : Option ℕ
  pub blocked_until : ℕ

abbrev pub new_backoff : GlobalBackoff
new_backoff = record { failures = 0; last_failure = none; blocked_until = 0 }

abbrev pub threshold : ℕ
threshold = 20

abbrev pub backoff_delay : ℕ
backoff_delay = 30000000000

abbrev pub backoff_decay : ℕ
backoff_decay = 600000000000

-- `globalBackoff.Allow`.
unfoldable pub allows : ℕ → GlobalBackoff → Bool
allows now g = leb g.blocked_until now

-- The failures that still count when another comes.
unfoldable pub streak : ℕ → Option ℕ → ℕ → ℕ
streak now none n = n
streak now (some last) n = if leb backoff_decay (now - last) then 0 else n

-- `RecordFailure`.
unfoldable pub record_failure : ℕ → GlobalBackoff → GlobalBackoff
unfolding streak
record_failure now g =
    let n = suc (streak now g.last_failure g.failures) in
    record {
      failures = n;
      last_failure = some now;
      blocked_until = if leb threshold n then now + backoff_delay else g.blocked_until;
    }

-- `RecordSuccess`.
unfoldable pub record_success : GlobalBackoff → GlobalBackoff
record_success g = record g { failures = 0; blocked_until = 0 }

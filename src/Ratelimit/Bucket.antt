-- ===== src/Ratelimit/Bucket.antt =====
-- One token bucket. The arithmetic of float64 is a parameter: a float64 is its bit pattern, and the
-- operators on it, the seconds of a time.Duration and the conversion back are fields of `Float64`.
-- Times are whole nanoseconds. A clock that goes back gives an elapsed time of zero here, which the
-- test `elapsed > 0` passes over like the negative one of the source.
use telegram_server.Prelude.{ℕ, ◌-◌, Bool, true, false, if◌then◌else◌}

pub record Float : Type 0 where
  pub bits : ℕ

-- The operators of float64 that the limiters use; `seconds` is Duration.Seconds, and `duration` the
-- conversion to time.Duration.
pub record Float64 : Type 0 where
  pub constant : ℕ → Float
  pub add : Float → Float → Float
  pub sub : Float → Float → Float
  pub mul : Float → Float → Float
  pub div : Float → Float → Float
  pub lt : Float → Float → Bool
  pub le : Float → Float → Bool
  pub seconds : ℕ → Float
  pub duration : Float → ℕ

pub record Policy : Type 0 where
  pub rate_per_sec : Float
  pub burst : Float

pub record TokenBucket : Type 0 where
  pub tokens : Float
  pub last_refill : ℕ

pub record Decision : Type 0 where
  pub allowed : Bool
  pub retry_after : ℕ

abbrev pub fresh : Policy → ℕ → TokenBucket
fresh p now = record { tokens = p.burst; last_refill = now }

-- `if elapsed > 0 { ... }`: the refill, capped at the burst.
unfoldable pub refill : Float64 → Policy → ℕ → TokenBucket → TokenBucket
refill float p now b =
    let elapsed = float.seconds (now - b.last_refill) in
    let grown = float.add b.tokens (float.mul elapsed p.rate_per_sec) in
    if float.lt (float.constant 0) elapsed
    then record { tokens = if float.lt p.burst grown then p.burst else grown; last_refill = now }
    else b

-- `if b.tokens >= 1 { ... }` and the wait of a denial.
unfoldable pub spend : Float64 → Policy → TokenBucket → TokenBucket × Decision
spend float p b =
    let one = float.constant 1 in
    let short = float.div (float.sub one b.tokens) p.rate_per_sec in
    if float.le one b.tokens
    then (record b { tokens = float.sub b.tokens one }, record { allowed = true; retry_after = 0 })
    else (
      b,
      record {
        allowed = false;
        retry_after = float.duration (float.mul short (float.constant 1000000000));
      },
    )

unfoldable pub take : Float64 → Policy → ℕ → TokenBucket → TokenBucket × Decision
unfolding refill spend
take float p now b = spend float p (refill float p now b)

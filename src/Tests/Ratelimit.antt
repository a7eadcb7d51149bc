-- ===== src/Tests/Ratelimit.antt =====
-- The limiters at concrete times (internal/ratelimit and internal/dispatch/telegram).
use telegram_server.Prelude.{
  ℕ, ◌+◌, ◌-◌, ◌*◌, ◌/◌, ◌≡◌, refl, String, false, List, [], ◌∷◌, ltb, leb,
}
use telegram_server.Ratelimit.Bucket.{Float, Float64, Policy, TokenBucket, refill, spend, take}
use telegram_server.Ratelimit.Keys.{Call}

abbrev float_of : ℕ → Float
float_of n = record { bits = n }

-- A coarse arithmetic in place of float64, on billionths.
abbrev pub whole : Float64
whole = record {
  constant = λ n. float_of (n * 1000000000);
  add = λ a b. float_of (a.bits + b.bits);
  sub = λ a b. float_of (a.bits - b.bits);
  mul = λ a b. float_of (a.bits * b.bits / 1000000000);
  div = λ a b. float_of (a.bits * 1000000000 / b.bits);
  lt = λ a b. ltb a.bits b.bits;
  le = λ a b. leb a.bits b.bits;
  seconds = float_of;
  duration = λ a. a.bits / 1000000000;
}

abbrev three_each : String → Policy
three_each key = record { rate_per_sec = whole.constant 2; burst = whole.constant 3 }

abbrev calls : List Call
calls = (5, "app:a") ∷ (7, "app:b") ∷ (1000000000, "app:a") ∷ []

abbrev empty : TokenBucket
empty = record { tokens = whole.constant 0; last_refill = 0 }

-- An empty bucket at two tokens a second asks for half a second.
denied_now :
    (take whole (three_each "") 0 empty).1 ≡ record { allowed = false; retry_after = 500000000 }
unfolding take refill spend
denied_now = refl

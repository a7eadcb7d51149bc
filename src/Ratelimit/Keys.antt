-- ===== src/Ratelimit/Keys.antt =====
-- How the keys of a limiter share its map of buckets.
use telegram_server.Prelude.{ℕ, ◌≡◌, String, List, [], ◌∷◌, if◌then◌else◌, lookup, str_eq}
use telegram_server.Ratelimit.Bucket.{Float64, Policy, Decision}
use telegram_server.Ratelimit.Limiter.{Buckets, allow}

-- A call: its time and its key.
abbrev pub Call : Type 0
Call = ℕ × String

-- The calls for a key.
abbrev pub calls_for : String → List Call → List Call
calls_for key [] = []
calls_for key ((now, k) ∷ cs) =
    if str_eq k key then (now, k) ∷ calls_for key cs else calls_for key cs

-- What a limiter decides on the calls for a key, in a run of calls for any keys.
pub decisions : Float64 → (String → Policy) → String → Buckets → List Call → List Decision
decisions float policy_fn key m [] = []
decisions float policy_fn key m ((now, k) ∷ cs) =
    let (m', d) = allow float policy_fn now k m in
    let rest = decisions float policy_fn key m' cs in if str_eq k key then d ∷ rest else rest

module _ (float : Float64) (policy_fn : String → Policy) where
  -- Two maps with the same bucket at a key decide the same there, and leave the same bucket.
  abbrev Agree : String → Buckets × Decision → Buckets × Decision → Type 0
  Agree key x y = (x.1 ≡ y.1) × (lookup key x.0 ≡ lookup key y.0)

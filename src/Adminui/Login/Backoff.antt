-- ===== src/Adminui/Login/Backoff.antt =====
-- When the global brake on logins of internal/adminui/session.go holds.
use telegram_server.Prelude.{
  ℕ, suc, ◌+◌, ◌≤◌, ◌≡◌, ◌⊎◌, inl, inr, refl, true, List, [], ◌∷◌, Option, none, some, arith,
}
use telegram_server.Adminui.Login.{
  GlobalBackoff, new_backoff, threshold, backoff_delay, allows, streak, record_failure,
  record_success,
}

-- The outcome of a login attempt.
pub data Attempt : Type 0 where
  failed : ℕ → Attempt
  succeeded : Attempt

-- The brake after some attempts, the newest first.
unfoldable pub after : List Attempt → GlobalBackoff
unfolding record_failure record_success
after [] = new_backoff
after (failed now ∷ earlier) = record_failure now (after earlier)
after (succeeded ∷ earlier) = record_success (after earlier)

-- The failures since the last success.
unfoldable pub failures_in_row : List Attempt → ℕ
failures_in_row [] = 0
failures_in_row (failed now ∷ earlier) = suc (failures_in_row earlier)
failures_in_row (succeeded ∷ earlier) = 0

unfoldable pub IsTimedBy : ℕ → List Attempt → Type 0
IsTimedBy t [] = Unit
IsTimedBy t (failed now ∷ earlier) = (now ≤ t) × IsTimedBy now earlier
IsTimedBy t (succeeded ∷ earlier) = IsTimedBy t earlier

record IsBraked (t : ℕ) (g : GlobalBackoff) (n : ℕ) : Type 0 where
  counted : g.failures ≤ n
  short : g.blocked_until ≤ t + backoff_delay
  spared : (threshold ≤ n) ⊎ (g.blocked_until ≡ 0)

streak_le : (now : ℕ) (o : Option ℕ) (n : ℕ) → streak now o n ≤ n
unfolding streak
streak_le now none n = omega arith
streak_le now (some last) n = ground arith

after-IsBraked :
    (t : ℕ) (l : List Attempt) → IsTimedBy t l → IsBraked t (after l) (failures_in_row l)
unfolding after failures_in_row IsTimedBy record_failure record_success
after-IsBraked t [] h = record { counted = omega arith; short = omega arith; spared = inr refl }
after-IsBraked t (failed now ∷ earlier) (le, h) =
    let g = after earlier in
    let b = after-IsBraked now earlier h in
    let s = streak_le now g.last_failure g.failures in
    record {
      counted = omega (arith, b.counted, s);
      short = ground (arith, b.short);
      spared = ground (arith, b.counted, s, b.spared);
    }
after-IsBraked t (succeeded ∷ earlier) h = record {
  counted = omega arith;
  short = omega arith;
  spared = inr refl;
}

-- After attempts up to time `t`, a login is let through where fewer than twenty failures stand
-- since the last success, and in any case thirty seconds later.
pub backoff_spares :
    (t : ℕ) (attempts : List Attempt)
    → IsTimedBy t attempts
    → ((threshold ≤ failures_in_row attempts) ⊎ (allows t (after attempts) ≡ true))
      × (allows (t + backoff_delay) (after attempts) ≡ true)
unfolding allows
backoff_spares t attempts h =
    let b = after-IsBraked t attempts h in
    (
      elim b.spared [ inl le ↦ inl le | inr zero_until ↦ inr (ground (arith, zero_until)) ],
      ground (arith, b.short),
    )

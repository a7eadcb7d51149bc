-- ===== src/Tests/Adminui.antt =====
-- Sessions, logins and the stub's windows at concrete inputs (internal/adminui and
-- internal/mocktelegram).
use telegram_server.Prelude.{
  ℕ, ◌+◌, ◌-◌, ◌≤◌, ◌≡◌, ◌≢◌, ◌⊎◌, refl, String, true, false, ◌||◌, List, [], ◌∷◌, ◌++◌, Option,
  none, some, Bytes, codes, All, ltb, if◌then◌else◌, arith,
}
use telegram_server.Adminui.Session.{
  second, unix, is_revoked, revoke, signature, sign, issue, verify,
}
use telegram_server.Adminui.Session.Cookie.{verify-sign, accepted_signed}
use telegram_server.Adminui.Session.Revocation.{revoke_all, revoked_stays_out}
use telegram_server.Adminui.Login.{
  threshold, backoff_delay, allows, allow_unswept, allow_login, no_buckets,
}
use telegram_server.Adminui.Login.Sweep.{decisions, IsTimed, sweep_unseen}
use telegram_server.Adminui.Login.Backoff.{
  Attempt, failed, succeeded, after, failures_in_row, IsTimedBy, backoff_spares,
}
use telegram_server.Mocktelegram.{new_server}
use telegram_server.Mocktelegram.Recording.{
  Operation, recorded, injected, was_reset, run, calls_since, updates_since, IsWindow, windows,
}

-- A number printed as one byte of its own, off the bar.
abbrev format_int : ℕ → Bytes
format_int n = (n + 1000) ∷ []

abbrev parse_int : Bytes → Option ℕ
parse_int [] = none
parse_int (b ∷ bs) = some (b - 1000)

abbrev hmac : Bytes → Bytes → Bytes
hmac secret text = secret ++ text

abbrev hex : Bytes → Bytes
hex b = b

abbrev secret : Bytes
secret = codes "key"

abbrev nonce : Bytes
nonce = codes "ab"

nonce_plain : All (λ c. c ≢ b'|') nonce
nonce_plain = (λ e. omega arith, (λ e. omega arith, tt))

verify-sign_example :
    verify format_int parse_int hmac hex secret second []
      (sign format_int parse_int hmac hex secret 50 nonce)
    ≡ (if ltb 50 (unix second) || is_revoked nonce [] then none else some (nonce, 50))
verify-sign_example =
    verify-sign format_int parse_int hmac hex secret second 50 nonce [] refl (λ e. omega arith, tt)
      nonce_plain

accepted :
    verify format_int parse_int hmac hex secret second []
      (sign format_int parse_int hmac hex secret 50 nonce)
    ≡ some (nonce, 50)
unfolding is_revoked
accepted =
    verify-sign format_int parse_int hmac hex secret second 50 nonce [] refl (λ e. omega arith, tt)
      nonce_plain

accepted_signed_example :
    (printed : Bytes) × (sign format_int parse_int hmac hex secret 50 nonce
      ≡ printed
        ++ b'|' ∷ (nonce ++ b'|' ∷ signature format_int parse_int hmac hex secret printed nonce))
    × (parse_int printed ≡ some 50)
    × (unix second ≤ 50)
    × (is_revoked nonce [] ≡ false)
accepted_signed_example =
    accepted_signed format_int parse_int hmac hex secret second 50 nonce
      (sign format_int parse_int hmac hex secret 50 nonce) [] accepted

revoked_stays_out_example :
    verify format_int parse_int hmac hex secret 3000000000
      (revoke_all ((codes "cd", 2500000000) ∷ []) (revoke nonce 2000000000 []))
      (issue format_int parse_int hmac hex secret 0 nonce)
    ≡ none
revoked_stays_out_example =
    revoked_stays_out format_int parse_int hmac hex secret 0 2000000000 3000000000 nonce
      ((codes "cd", 2500000000) ∷ []) [] refl (λ e. omega arith, tt) nonce_plain (λ e. cc)
      (omega arith) ((omega arith, omega arith), tt)

abbrev logins : List (ℕ × String)
logins = (1, "10.0.0.1") ∷ (2, "10.0.0.2") ∷ (90000000000, "10.0.0.1") ∷ []

logins-IsTimed : IsTimed 0 logins
unfolding IsTimed
logins-IsTimed = (omega arith, (omega arith, (omega arith, tt)))

sweep_unseen_example :
    decisions allow_login logins no_buckets ≡ decisions allow_unswept logins no_buckets
sweep_unseen_example = sweep_unseen 0 logins logins-IsTimed

abbrev attempts : List Attempt
attempts = failed 9 ∷ succeeded ∷ failed 3 ∷ []

attempts-IsTimedBy : IsTimedBy 10 attempts
unfolding IsTimedBy
attempts-IsTimedBy = (omega arith, (omega arith, tt))

backoff_spares_example :
    ((threshold ≤ failures_in_row attempts) ⊎ (allows 10 (after attempts) ≡ true))
    × (allows (10 + backoff_delay) (after attempts) ≡ true)
backoff_spares_example = backoff_spares 10 attempts attempts-IsTimedBy

abbrev operations : List Operation
operations =
    recorded (record { method = codes "getMe"; token = []; body = [] })
    ∷ injected none
    ∷ injected (some [])
    ∷ was_reset
    ∷ recorded (record { method = codes "sendMessage"; token = []; body = [] })
    ∷ []

windows_example :
    IsWindow (run operations new_server) (calls_since operations []) (updates_since operations 0 [])
windows_example = windows operations
